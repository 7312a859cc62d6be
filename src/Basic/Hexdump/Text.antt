-- ===== src/Basic/Hexdump/Text.antt =====
-- The text of a line that holds some bytes: address, digits, characters.
use libpeco.Base.{
  ℕ, zero, suc, ◌+◌, ◌-◌, ◌*◌, ◌/◌, ◌%◌, ◌≤◌, ◌<◌, Bool, false, [], ◌∷◌, ◌++◌, some, Bytes, codes,
  ◌≡◌, refl, sym, ap, ◌∙◌, arith, length, length-append, length-map, set, map, append_assoc, ◌==◌,
  ◌>>=◌, All, All-append, Bool-cases, inl, inr,
}
use libpeco.Basic.Hexdump.{
  hex_digit, hex, spaces, snprintf, c_str, shown, put_bytes, begin_line, end_line,
}
use libpeco.Basic.Hexdump.Layout.{
  set-append, write_over, triples, room, gap, length-spaces, put_bytes_shape,
}

abbrev pub IsNonzero : ℕ → Type 0
IsNonzero c = (c == 0) ≡ false

c_str-append : (t u : Bytes) → All IsNonzero t → c_str (t ++ 0 ∷ u) ≡ t
unfolding c_str
c_str-append [] u h = refl
c_str-append (c ∷ t) u (h, hs) = rw h (ap (◌∷◌ c) (c_str-append t u hs))

All-spaces : (n : ℕ) → All IsNonzero (spaces n)
All-spaces zero = tt
All-spaces (suc n) = (refl, All-spaces n)

hex_digit-IsNonzero : (d : ℕ) → IsNonzero (hex_digit d)
hex_digit-IsNonzero d = ground arith

length-hex : (k n : ℕ) → length (hex k n) ≡ k
unfolding hex
length-hex zero n = refl
length-hex (suc k) n =
    omega (arith, length-append (hex k (n / 16)) (hex_digit (n % 16) ∷ []), length-hex k (n / 16))

All-hex : (k n : ℕ) → All IsNonzero (hex k n)
unfolding hex
All-hex zero n = tt
All-hex (suc k) n =
    All-append IsNonzero (hex k (n / 16)) (hex_digit (n % 16) ∷ []) (All-hex k (n / 16))
      (hex_digit-IsNonzero (n % 16), tt)

-- The three marks that close a line, and what they leave of the buffer.
end_line_shape :
    (q w : Bytes)
    → length q ≡ 67
    → length w ≡ 16
    → All IsNonzero q
    → All IsNonzero w
    → c_str (set (set (set (q ++ 32 ∷ (w ++ 32 ∷ 32 ∷ 32 ∷ [])) 67 b'|') 84 b'|') 85 0)
      ≡ q ++ b'|' ∷ (w ++ b'|' ∷ [])
end_line_shape q w lq lw hq hw =
    let e = 32 ∷ 32 ∷ 32 ∷ [] in
    let first : set (q ++ 32 ∷ (w ++ e)) 67 b'|' ≡ q ++ b'|' ∷ (w ++ e) =
      set-append q (32 ∷ (w ++ e)) 67 0 b'|' (omega arith) in
    let second : set (q ++ b'|' ∷ (w ++ e)) 84 b'|' ≡ q ++ b'|' ∷ (w ++ b'|' ∷ 32 ∷ 32 ∷ []) =
      set-append q (b'|' ∷ (w ++ e)) 84 (suc (length w)) b'|' (omega arith)
      ∙ ap (λ v. q ++ b'|' ∷ v) (set-append w e (length w) 0 b'|' (omega arith)) in
    let third : set (q ++ b'|' ∷ (w ++ b'|' ∷ 32 ∷ 32 ∷ [])) 85 0
        ≡ q ++ b'|' ∷ (w ++ b'|' ∷ 0 ∷ 32 ∷ []) =
      set-append q (b'|' ∷ (w ++ b'|' ∷ 32 ∷ 32 ∷ [])) 85 (suc (suc (length w))) 0 (omega arith)
      ∙ ap (λ v. q ++ b'|' ∷ v)
          (set-append w (b'|' ∷ 32 ∷ 32 ∷ []) (suc (length w)) 1 0 (omega arith)) in
    let t = q ++ b'|' ∷ (w ++ b'|' ∷ []) in
    let split : q ++ b'|' ∷ (w ++ b'|' ∷ 0 ∷ 32 ∷ []) ≡ t ++ 0 ∷ 32 ∷ [] = sym (
      append_assoc q (b'|' ∷ (w ++ b'|' ∷ [])) (0 ∷ 32 ∷ [])
      ∙ ap (λ v. q ++ b'|' ∷ v) (append_assoc w (b'|' ∷ []) (0 ∷ 32 ∷ []))) in
    ap (λ v. c_str (set (set v 84 b'|') 85 0)) first
    ∙ ap (λ v. c_str (set v 85 0)) second
    ∙ ap c_str (third ∙ split)
    ∙ c_str-append t (32 ∷ []) (
        All-append IsNonzero q (b'|' ∷ (w ++ b'|' ∷ [])) hq
          (refl, All-append IsNonzero w (b'|' ∷ []) hw (refl, tt)))

All-triples : (d : Bytes) → All IsNonzero (triples d)
unfolding triples
All-triples [] = tt
All-triples (b ∷ d) =
    (hex_digit-IsNonzero (b / 16 % 16), (hex_digit-IsNonzero (b % 16), (refl, All-triples d)))

length-triples : (d : Bytes) → length (triples d) ≡ 3 * length d
unfolding triples
length-triples [] = refl
length-triples (b ∷ d) = omega (arith, length-triples d)

begin_line-room : (a : ℕ) → begin_line a ≡ (hex 16 a ++ codes ": ") ++ room 0 [] 16
unfolding snprintf room
begin_line-room a =
    let t = hex 16 a ++ codes ": " in
    write_over (t ++ 0 ∷ []) (spaces 19) (spaces 68) (
      omega
        (arith, length-append (t) (0 ∷ []), length-append (hex 16 a) (codes ": "), length-hex 16 a))
    ∙ append_assoc t (0 ∷ []) (spaces 68)

gap_of : (y : ℕ) (d : Bytes) → 0 < length d → gap y d ≡ 32
unfolding gap
gap_of y [] h = absurd (omega arith)
gap_of y (b ∷ d) h = refl

shown-IsNonzero : (is_print : ℕ → Bool) (b : ℕ) → is_print 0 ≡ false → IsNonzero (shown is_print b)
shown-IsNonzero is_print zero z = rw z refl
shown-IsNonzero is_print (suc b) z = elim (Bool-cases (is_print (suc b))) [
  | inl e ↦ rw e (ground arith)
  | inr e ↦ rw e refl
]

module _ (is_print : ℕ → Bool) where
  -- A line of some bytes at an address: the address and a colon, the bytes in two digits each, and
  -- between bars the bytes themselves or dots, both filled up to sixteen.
  unfoldable pub row : ℕ → Bytes → Bytes
  unfolding hex triples
  row a d =
      (((hex 16 a ++ codes ": ") ++ triples d) ++ 32 ∷ spaces (3 * (16 - length d)))
      ++ b'|' ∷ ((map (shown is_print) d ++ spaces (16 - length d)) ++ b'|' ∷ [])

  All-shown : is_print 0 ≡ false → (d : Bytes) → All IsNonzero (map (shown is_print) d)
  All-shown z [] = tt
  All-shown z (b ∷ d) = (shown-IsNonzero is_print b z, All-shown z d)

  -- The loop over some bytes, one at least and sixteen at most, and the marks behind it.
  pub put_bytes-row :
      (a : ℕ) (d rest : Bytes)
      → is_print 0 ≡ false
      → 0 < length d
      → length d ≤ 16
      → (put_bytes is_print 0 (length d) (d ++ rest) (begin_line a) >>= λ buf. some (end_line buf))
        ≡ some (row a d)
  unfolding room row
  put_bytes-row a d rest z h k =
      let x = hex 16 a ++ codes ": " in
      let m = 16 - length d in
      let s = map (shown is_print) d in
      let q = (x ++ triples d) ++ 32 ∷ spaces (3 * m) in
      let w = s ++ spaces m in
      let e = 32 ∷ 32 ∷ 32 ∷ [] in
      let lx : length x ≡ 18 =
        omega (arith, length-append (hex 16 a) (codes ": "), length-hex 16 a) in
      let n : length d + m ≡ 16 = omega (arith, k) in
      let whole : (x ++ triples d) ++ 32 ∷ (spaces (3 * m) ++ 32 ∷ (s ++ (spaces m ++ e)))
          ≡ q ++ 32 ∷ (w ++ e) =
        rw
          (
            append_assoc (x ++ triples d) (32 ∷ spaces (3 * m)) (32 ∷ (w ++ e)),
            append_assoc s (spaces m) e,
          )
          refl in
      let filled : put_bytes is_print 0 (length d) (d ++ rest) (begin_line a)
          ≡ some (q ++ 32 ∷ (w ++ e)) =
        ap (put_bytes is_print 0 (length d) (d ++ rest)) (begin_line-room a)
        ∙ ap (λ i. put_bytes is_print 0 (length d) (d ++ rest) (x ++ room 0 [] i)) (sym n)
        ∙ put_bytes_shape is_print 0 m 0 d rest x [] (omega (arith, lx)) refl (omega (arith, n))
        ∙ rw (gap_of 0 d h) (ap some whole) in
      ap (λ o. o >>= λ buf. some (end_line buf)) filled
      ∙ ap some (
          end_line_shape q w
            (omega (
              arith,
              length-append (x ++ triples d) (32 ∷ spaces (3 * m)),
              length-append x (triples d),
              lx,
              length-triples d,
              length-spaces (3 * m),
              n,
            ))
            (omega (
              arith,
              length-append s (spaces m),
              length-map (shown is_print) d,
              length-spaces m,
              n,
            ))
            (All-append IsNonzero (x ++ triples d) (32 ∷ spaces (3 * m))
              (All-append IsNonzero x (triples d)
                (All-append IsNonzero (hex 16 a) (codes ": ") (All-hex 16 a) (refl, (refl, tt)))
                (All-triples d))
              (refl, All-spaces (3 * m)))
            (All-append IsNonzero s (spaces m) (All-shown z d) (All-spaces m)))
