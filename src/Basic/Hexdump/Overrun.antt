-- ===== src/Basic/Hexdump/Overrun.antt =====
-- A part of a dump that reaches to its end.
use libpeco.Base.{
  ℕ, zero, suc, ◌+◌, ◌-◌, ◌*◌, ◌%◌, ◌^◌, ◌≤◌, ◌<◌, Bool, [], ◌∷◌, none, some, Bytes, ◌≡◌, ◌≢◌, refl,
  ap, ◌∙◌, arith, length, length-drop, drop, ltb, if◌then◌else◌, ◌>>=◌,
}
use libpeco.Basic.Hexdump.{
  hexdump, calculate_data, line_size, line, lines, put_byte, put_bytes, begin_line, end_line,
}

put_bytes_short :
    (is_print : ℕ → Bool) (c n : ℕ) (d buf : Bytes)
    → length d < n
    → put_bytes is_print c n d buf ≡ none
unfolding put_bytes
put_bytes_short is_print c zero d buf h = absurd (omega arith)
put_bytes_short is_print c (suc n) [] buf h = refl
put_bytes_short is_print c (suc n) (b ∷ d) buf h =
    put_bytes_short is_print (suc c) n d (put_byte is_print c b buf) (omega arith)

-- The arithmetic on the number of lines, which does not wrap around.
all_lines :
    (c to : ℕ)
    → 0 < c
    → c < 2 ^ 61
    → c - 1 ≤ to
    → (let n = ((if ltb (c - 1) to then c - 1 else to) + 2 ^ 64 - 0 + 1) % 2 ^ 64 in
        if ltb c n then c else n)
      ≡ c
all_lines c to h k t = ground arith

some_lines : (n : ℕ) → n < 2 ^ 64 → (0 < calculate_data n) × (calculate_data n < 2 ^ 61)
unfolding calculate_data
some_lines n h = (ground arith, ground arith)

-- The length that `lines` gives to all the lines of a dump.
lines_all :
    (d : Bytes) (a to : ℕ)
    → length d < 2 ^ 64
    → calculate_data (length d) - 1 ≤ to
    → lines 0 to (hexdump d a (length d)) ≡ hexdump d (a + 0 * 16) (calculate_data (length d) * 16)
unfolding lines hexdump
lines_all d a to k t =
    let c = calculate_data (length d) in
    let (pos, small) = some_lines (length d) k in
    ap (λ j. hexdump d (a + 0 * 16) (j * 16)) (all_lines c to pos small t)

last_line_size :
    (n : ℕ) (d : Bytes) (a : ℕ)
    → 0 < n
    → line_size (hexdump d a (calculate_data n * 16)) (calculate_data n - 1) ≡ 16
unfolding line_size hexdump calculate_data
last_line_size n d a h = ground arith

last_bytes : (n : ℕ) → 0 < n → n % 16 ≢ 0 → n - (calculate_data n - 1) * 16 < 16
unfolding calculate_data
last_bytes n h k = ground arith

-- Where the length of the data is no multiple of sixteen, the last line of all its lines reads
-- behind the data.
pub line-lines :
    (is_print : ℕ → Bool) (d : Bytes) (a to : ℕ)
    → length d % 16 ≢ 0
    → length d < 2 ^ 64
    → calculate_data (length d) - 1 ≤ to
    → line is_print (lines 0 to (hexdump d a (length d))) (calculate_data (length d) - 1) ≡ none
unfolding line hexdump
line-lines is_print d a to h k t =
    let i = calculate_data (length d) - 1 in
    let xs = drop (i * 16) d in
    let pos : 0 < length d = ground (arith, h) in
    let short : length xs < 16 =
      omega (arith, length-drop (i * 16) d, last_bytes (length d) pos h) in
    ap (λ g. line is_print g i) (lines_all d a to k t)
    ∙ rw (last_line_size (length d) d (a + 0 * 16) pos) (
        ap (λ o. o >>= λ buf. some (end_line buf))
          (put_bytes_short is_print 0 16 xs (begin_line ((a + 0 * 16 + i * 16) % 2 ^ 64)) short))
