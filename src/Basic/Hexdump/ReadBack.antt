-- ===== src/Basic/Hexdump/ReadBack.antt =====
-- The lines of a dump, and the bytes read back from them.
use libpeco.Base.{
  ℕ, zero, suc, ◌+◌, ◌-◌, ◌*◌, ◌/◌, ◌%◌, ◌^◌, ◌<◌, Bool, false, [], ◌∷◌, ◌++◌, some, Bytes, codes,
  ◌≡◌, refl, sym, ap, ◌∙◌, arith, length, length-drop, length-take-le, map, take, drop,
  append_assoc, ◌==◌, ltb, if◌then◌else◌, ◌>>=◌, AreBytes,
}
use libpeco.Basic.Hexdump.{
  hexdump, calculate_data, line_size, line, put_bytes, begin_line, end_line, hex_digit, hex, spaces,
  shown,
}
use libpeco.Basic.Hexdump.Layout.{triples}
use libpeco.Basic.Hexdump.Text.{row, put_bytes-row}

-- The bytes of a line, by its index.
abbrev pub part : ℕ → Bytes → Bytes
part i d = take 16 (drop (i * 16) d)

line_size-last :
    (n i : ℕ) (d : Bytes) (a : ℕ)
    → 0 < n
    → i < calculate_data n
    → (line_size (hexdump d a n) i) ≡ (if ltb (n - i * 16) 16 then n - i * 16 else 16)
unfolding line_size calculate_data hexdump
line_size-last n i d a h k = ground arith

starts_before_end : (n i : ℕ) → 0 < n → i < calculate_data n → i * 16 < n
unfolding calculate_data
starts_before_end n i h k = ground arith

pub take-drop : (n : ℕ) (xs : Bytes) → take n xs ++ drop n xs ≡ xs
take-drop zero xs = refl
take-drop (suc n) [] = refl
take-drop (suc n) (x ∷ xs) = ap (◌∷◌ x) (take-drop n xs)

length-take :
    (n : ℕ) (xs : Bytes) → length (take n xs) ≡ (if ltb (length xs) n then length xs else n)
length-take zero xs = ground arith
length-take (suc n) [] = ground arith
length-take (suc n) (x ∷ xs) = ground (arith, length-take n xs)

line_size-part :
    (i a : ℕ) (d : Bytes)
    → 0 < length d
    → i < calculate_data (length d)
    → line_size (hexdump d a (length d)) i ≡ length (part i d)
line_size-part i a d h k =
    line_size-last (length d) i d a h k
    ∙ sym (length-take 16 (drop (i * 16) d) ∙ rw (length-drop (i * 16) d) refl)

-- A reader of the digits behind the address, up to a space in the place of a digit.
abbrev pub digit_value : ℕ → ℕ
digit_value c = if ltb c 58 then c - 48 else c - 87

unfoldable pub read_triples : Bytes → Bytes
read_triples (h ∷ l ∷ s ∷ t) =
    if h == 32 then [] else (digit_value h * 16 + digit_value l) ∷ read_triples t
read_triples _ = []

unfoldable pub read_row : Bytes → Bytes
unfolding read_triples
read_row t = read_triples (drop 18 t)

read_triples_end : (t : Bytes) → read_triples (32 ∷ t) ≡ []
unfolding read_triples
read_triples_end [] = refl
read_triples_end (a ∷ []) = refl
read_triples_end (a ∷ b ∷ t) = refl

hex_digit_value : (d : ℕ) → d < 16 → digit_value (hex_digit d) ≡ d
hex_digit_value d h = ground arith

hex_digit_space : (d : ℕ) → (hex_digit d == 32) ≡ false
hex_digit_space d = ground arith

byte_value :
    (b : ℕ)
    → b < 256
    → digit_value (hex_digit (b / 16 % 16)) * 16 + digit_value (hex_digit (b % 16)) ≡ b
byte_value b h =
    omega
      (arith, hex_digit_value (b / 16 % 16) (omega arith), hex_digit_value (b % 16) (omega arith))

read_triples-triples : (d t : Bytes) → AreBytes d → read_triples (triples d ++ 32 ∷ t) ≡ d
unfolding read_triples triples
read_triples-triples [] t h = read_triples_end t
read_triples-triples (b ∷ d) t (h, hs) =
    rw (hex_digit_space (b / 16 % 16), byte_value b h, read_triples-triples d t hs) refl

drop-hex : (a : ℕ) (t : Bytes) → drop 18 ((hex 16 a ++ codes ": ") ++ t) ≡ t
unfolding hex
drop-hex a t = refl

module _ (is_print : ℕ → Bool) where
  read_row-row : (a : ℕ) (d : Bytes) → AreBytes d → read_row (row is_print a d) ≡ d
  unfolding read_row row
  read_row-row a d h =
      let m = spaces (3 * (16 - length d)) in
      let e = b'|' ∷ ((map (shown is_print) d ++ spaces (16 - length d)) ++ b'|' ∷ []) in
      let x = hex 16 a ++ codes ": " in
      let split : ((x ++ triples d) ++ 32 ∷ m) ++ e ≡ x ++ (triples d ++ 32 ∷ (m ++ e)) =
        append_assoc (x ++ triples d) (32 ∷ m) e ∙ append_assoc x (triples d) (32 ∷ (m ++ e)) in
      ap (λ t. read_triples (drop 18 t)) split
      ∙ ap read_triples (drop-hex a (triples d ++ 32 ∷ (m ++ e)))
      ∙ read_triples-triples d (m ++ e) h

  All-part : (n : ℕ) (d : Bytes) → AreBytes d → AreBytes (take n d)
  All-part zero d h = tt
  All-part (suc n) [] h = tt
  All-part (suc n) (x ∷ d) (h, hs) = (h, All-part n d hs)

  All-rest : (n : ℕ) (d : Bytes) → AreBytes d → AreBytes (drop n d)
  All-rest zero d h = h
  All-rest (suc n) [] h = tt
  All-rest (suc n) (x ∷ d) (h, hs) = All-rest n d hs

  -- A line of a dump of some data shows the address of its first byte, its bytes in two digits each
  -- and the bytes themselves or dots; no byte behind the data is read, and the line's bytes are read
  -- back from it.
  pub line-row :
      (d : Bytes) (a i : ℕ)
      → is_print 0 ≡ false
      → AreBytes d
      → 0 < length d
      → i < (hexdump d a (length d)).line_count
      → (line is_print (hexdump d a (length d)) i
          ≡ some (row is_print ((a + i * 16) % 2 ^ 64) (part i d)))
        × (read_row (row is_print ((a + i * 16) % 2 ^ 64) (part i d)) ≡ part i d)
  unfolding hexdump line
  line-row d a i z b h k =
      let xs = drop (i * 16) d in
      let p = part i d in
      let pos : 0 < length p =
        ground
          (arith, length-take 16 xs, length-drop (i * 16) d, starts_before_end (length d) i h k) in
      (
        rw (line_size-part i a d h k) (
            ap
              (λ w.
                put_bytes is_print 0 (length p) w (begin_line ((a + i * 16) % 2 ^ 64)) >>= λ buf.
                some (end_line buf))
              (sym (take-drop 16 xs))
            ∙ put_bytes-row is_print ((a + i * 16) % 2 ^ 64) p (drop 16 xs) z pos
                (length-take-le 16 xs)),
        read_row-row ((a + i * 16) % 2 ^ 64) p (All-part 16 xs (All-rest (i * 16) d b)),
      )
