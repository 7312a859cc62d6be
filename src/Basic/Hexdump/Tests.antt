-- ===== src/Basic/Hexdump/Tests.antt =====
-- A dump of eighteen bytes at the address 4096.
use libpeco.Base.{
  ℕ, ◌-◌, Bool, [], ◌∷◌, none, some, Bytes, codes, length, ◌≡◌, refl, arith, ltb, ◌&&◌, AreBytes,
}
use libpeco.Basic.Hexdump.{print, hexdump, calculate_data, hex, line, lines}
use libpeco.Basic.Hexdump.Text.{row}
use libpeco.Basic.Hexdump.Layout.{triples}
use libpeco.Basic.Hexdump.Whole.{rows, text_of, read_rows, print-rows}
use libpeco.Basic.Hexdump.Overrun.{line-lines}

abbrev printable : ℕ → Bool
printable c = ltb 31 c && ltb c 127

abbrev text : Bytes
text = codes "seventeen letters\n"

text-AreBytes : AreBytes text
text-AreBytes = (
  omega arith,
  (
    omega arith,
    (
      omega arith,
      (
        omega arith,
        (
          omega arith,
          (
            omega arith,
            (
              omega arith,
              (
                omega arith,
                (
                  omega arith,
                  (
                    omega arith,
                    (
                      omega arith,
                      (
                        omega arith,
                        (
                          omega arith,
                          (
                            omega arith,
                            (omega arith, (omega arith, (omega arith, (omega arith, tt)))),
                          ),
                        ),
                      ),
                    ),
                  ),
                ),
              ),
            ),
          ),
        ),
      ),
    ),
  ),
)

print-rows_example :
    (print printable (hexdump text 4096 (length text))
      ≡ some (text_of (rows printable 4096 text 0 (calculate_data (length text)))))
    × (read_rows (rows printable 4096 text 0 (calculate_data (length text))) ≡ text)
print-rows_example = print-rows printable text 4096 refl text-AreBytes (omega arith)

second_row :
    rows printable 4096 text 1 1
    ≡ codes "0000000000001010: 73 0a                                            |s.              |"
      ∷ []
unfolding rows row hex triples
second_row = refl

line-lines_example :
    line printable (lines 0 1 (hexdump text 4096 (length text))) (calculate_data (length text) - 1)
    ≡ none
unfolding calculate_data
line-lines_example = line-lines printable text 4096 1 (ground arith) (omega arith) (omega arith)
