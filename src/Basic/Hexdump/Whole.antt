-- ===== src/Basic/Hexdump/Whole.antt =====
-- A whole dump: its lines, and all of its data read back from them.
use libpeco.Base.{
  ℕ, zero, suc, ◌+◌, ◌*◌, ◌%◌, ◌^◌, ◌≤◌, ◌<◌, Bool, false, List, [], ◌∷◌, ◌++◌, some, Bytes, ◌≡◌,
  refl, sym, ap, ◌∙◌, arith, length, drop, AreBytes,
}
use libpeco.Basic.Hexdump.{hexdump, calculate_data, print_from, print}
use libpeco.Basic.Hexdump.Text.{row}
use libpeco.Basic.Hexdump.ReadBack.{part, read_row, line-row, take-drop}

module _ (is_print : ℕ → Bool) where
  -- The rows of some lines from an index on.
  unfoldable pub rows : ℕ → Bytes → ℕ → ℕ → List Bytes
  rows a d i zero = []
  rows a d i (suc n) = row is_print ((a + i * 16) % 2 ^ 64) (part i d) ∷ rows a d (suc i) n

-- The text of rows, each with its end, and the bytes that are read back from them.
abbrev pub text_of : List Bytes → Bytes
text_of [] = []
text_of (t ∷ ts) = t ++ b'\n' ∷ text_of ts

abbrev pub read_rows : List Bytes → Bytes
read_rows [] = []
read_rows (t ∷ ts) = read_row t ++ read_rows ts

drop_nil : (n : ℕ) → drop {A = ℕ} n [] ≡ []
drop_nil zero = refl
drop_nil (suc n) = refl

drop_past : (n : ℕ) (d : Bytes) → length d ≤ n → drop n d ≡ []
drop_past zero [] h = refl
drop_past zero (x ∷ d) h = absurd (omega arith)
drop_past (suc n) [] h = refl
drop_past (suc n) (x ∷ d) h = drop_past n d (omega arith)

drop-drop : (i k m : ℕ) (d : Bytes) → m ≡ k + i → drop i (drop k d) ≡ drop m d
drop-drop i zero m d e = let e' : i ≡ m = omega (arith, e) in ap (λ j. drop j d) e'
drop-drop i (suc k) m [] e = drop_nil i ∙ sym (drop_nil m)
drop-drop i (suc k) zero (x ∷ d) e = absurd (omega (arith, e))
drop-drop i (suc k) (suc m) (x ∷ d) e = drop-drop i k m d (omega (arith, e))

enough_lines : (n : ℕ) → n ≤ calculate_data n * 16
unfolding calculate_data
enough_lines n = ground arith

module _ (is_print : ℕ → Bool) (a : ℕ) (d : Bytes) (z : is_print 0 ≡ false) (b : AreBytes d)
    (h : 0 < length d) where
  print_from-rows :
      (i n : ℕ)
      → i + n ≤ calculate_data (length d)
      → print_from is_print i n (hexdump d a (length d)) ≡ some (text_of (rows is_print a d i n))
  unfolding print_from rows
  print_from-rows i zero k = refl
  print_from-rows i (suc n) k =
      rw
        (
          (line-row is_print d a i z b h (unfold hexdump in omega (arith, k))).0,
          print_from-rows (suc i) n (omega (arith, k)),
        )
        refl

  read_rows-rows :
      (i n : ℕ)
      → i + n ≤ calculate_data (length d)
      → length d ≤ (i + n) * 16
      → read_rows (rows is_print a d i n) ≡ drop (i * 16) d
  unfolding rows
  read_rows-rows i zero k e = sym (drop_past (i * 16) d (omega (arith, e)))
  read_rows-rows i (suc n) k e =
      rw
        (
          (line-row is_print d a i z b h (unfold hexdump in omega (arith, k))).1,
          read_rows-rows (suc i) n (omega (arith, k)) (omega (arith, e)),
        )
        (ap (◌++◌ (part i d)) (sym (drop-drop 16 (i * 16) (suc i * 16) d (omega arith)))
          ∙ take-drop 16 (drop (i * 16) d))

-- Printing a dump of some data gives its rows, each with its end: an address, the bytes of the line
-- in two digits each, and the bytes or dots. No byte behind the data is read, and the bytes that are
-- read back from the rows, one after the other, are the data.
pub print-rows :
    (is_print : ℕ → Bool) (d : Bytes) (a : ℕ)
    → is_print 0 ≡ false
    → AreBytes d
    → 0 < length d
    → (print is_print (hexdump d a (length d))
        ≡ some (text_of (rows is_print a d 0 (calculate_data (length d)))))
      × (read_rows (rows is_print a d 0 (calculate_data (length d))) ≡ d)
unfolding print hexdump
print-rows is_print d a z b h = (
  print_from-rows is_print a d z b h 0 (calculate_data (length d)) (omega arith),
  read_rows-rows is_print a d z b h 0 (calculate_data (length d)) (omega arith)
      (omega (arith, enough_lines (length d))),
)
