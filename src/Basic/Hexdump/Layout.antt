-- ===== src/Basic/Hexdump/Layout.antt =====
-- The buffer of a line as it is written byte by byte, and its text.
use libpeco.Base.{
  ℕ, zero, suc, ◌+◌, ◌*◌, ◌/◌, ◌%◌, Bool, [], ◌∷◌, ◌++◌, some, Bytes, ◌≡◌, refl, sym, ap, ◌∙◌,
  arith, length, set, map, append_assoc, append-nil, length-append,
}
use libpeco.Basic.Hexdump.{hex_digit, hex, spaces, write, snprintf, shown, put_byte, put_bytes}

pub set-append :
    (xs ys : Bytes) (i k v : ℕ) → i ≡ length xs + k → set (xs ++ ys) i v ≡ xs ++ set ys k v
set-append [] ys i k v h = ap (λ j. set ys j v) (omega arith)
set-append (x ∷ xs) ys zero k v h = absurd (omega arith)
set-append (x ∷ xs) ys (suc i) k v h = ap (◌∷◌ x) (set-append xs ys i k v (omega arith))

write-append :
    (t xs ys : Bytes) (i k : ℕ) → i ≡ length xs + k → write i t (xs ++ ys) ≡ xs ++ write k t ys
unfolding write
write-append [] xs ys i k h = refl
write-append (c ∷ t) xs ys i k h =
    ap (write (suc i) t) (set-append xs ys i k c h)
    ∙ write-append t xs (set ys k c) (suc i) (suc k) (omega arith)

-- A text written over another one of its length.
pub write_over : (t u v : Bytes) → length t ≡ length u → write 0 t (u ++ v) ≡ t ++ v
unfolding write
write_over [] [] v h = refl
write_over [] (x ∷ u) v h = absurd (omega arith)
write_over (c ∷ t) [] v h = absurd (omega arith)
write_over (c ∷ t) (x ∷ u) v h =
    write-append t (c ∷ []) (u ++ v) 1 0 (omega arith) ∙ ap (◌∷◌ c) (write_over t u v (omega arith))

-- The two digits of a byte and the space behind them.
abbrev pub triple : ℕ → Bytes
triple b = hex_digit (b / 16 % 16) ∷ hex_digit (b % 16) ∷ 32 ∷ []

unfoldable pub triples : Bytes → Bytes
triples [] = []
triples (b ∷ d) = triple b ++ triples d

-- The buffer before the rest of a line: the text so far, any byte, room for the triples of the
-- rest, the characters so far, and room for those of the rest.
unfoldable pub room : ℕ → Bytes → ℕ → Bytes
room y shown_so_far m =
    y ∷ (spaces (3 * m) ++ 32 ∷ (shown_so_far ++ (spaces m ++ 32 ∷ 32 ∷ 32 ∷ [])))

spaces_three : (k : ℕ) → spaces (3 * suc k) ≡ 32 ∷ 32 ∷ 32 ∷ spaces (3 * k)
spaces_three k = let e : 3 * suc k ≡ suc (suc (suc (3 * k))) = omega arith in ap spaces e

pub length-spaces : (k : ℕ) → length (spaces k) ≡ k
length-spaces zero = refl
length-spaces (suc k) = ap suc (length-spaces k)

room-suc :
    (y k : ℕ) (s : Bytes)
    → room y s (suc k)
      ≡ y ∷ 32 ∷ 32 ∷ 32 ∷ ((spaces (3 * k) ++ 32 ∷ s) ++ 32 ∷ (spaces k ++ 32 ∷ 32 ∷ 32 ∷ []))
unfolding room
room-suc y k s =
    rw
      (
        spaces_three k,
        append_assoc (spaces (3 * k)) (32 ∷ s) (32 ∷ (spaces k ++ 32 ∷ 32 ∷ 32 ∷ [])),
      )
      refl

room_next :
    (k ch : ℕ) (s : Bytes)
    → 32 ∷ ((spaces (3 * k) ++ 32 ∷ s) ++ ch ∷ (spaces k ++ 32 ∷ 32 ∷ 32 ∷ []))
      ≡ room 32 (s ++ ch ∷ []) k
unfolding room
room_next k ch s =
    let e = spaces k ++ 32 ∷ 32 ∷ 32 ∷ [] in
    rw (append_assoc (spaces (3 * k)) (32 ∷ s) (ch ∷ e), append_assoc s (ch ∷ []) e) refl

-- The byte before the room that is left.
unfoldable pub gap : ℕ → Bytes → ℕ
gap y [] = y
gap y (b ∷ d) = 32

gap_space : (d : Bytes) → gap 32 d ≡ 32
unfolding gap
gap_space [] = refl
gap_space (b ∷ d) = refl

module _ (is_print : ℕ → Bool) where
  put_byte_shape :
      (c b y0 y1 y2 y3 z : ℕ) (x r t : Bytes)
      → length x ≡ 18 + c * 3
      → c * 3 + 22 + length r ≡ 68 + c
      → put_byte is_print c b (x ++ y0 ∷ y1 ∷ y2 ∷ y3 ∷ (r ++ z ∷ t))
        ≡ x ++ (triple b ++ 32 ∷ (r ++ shown is_print b ∷ t))
  unfolding put_byte snprintf hex
  put_byte_shape c b y0 y1 y2 y3 z x r t h k =
      let digits = triple b ++ 0 ∷ [] in
      let old = y0 ∷ y1 ∷ y2 ∷ y3 ∷ (r ++ z ∷ t) in
      let first : write (c * 3 + 18) digits (x ++ old) ≡ x ++ (digits ++ (r ++ z ∷ t)) =
        write-append digits x old (c * 3 + 18) 0 (omega arith)
        ∙ ap (◌++◌ x) (write_over digits (y0 ∷ y1 ∷ y2 ∷ y3 ∷ []) (r ++ z ∷ t) refl) in
      let second : set (x ++ (digits ++ (r ++ z ∷ t))) ((c + 1) * 3 + 18) 32
          ≡ x ++ (triple b ++ 32 ∷ (r ++ z ∷ t)) =
        set-append x (digits ++ (r ++ z ∷ t)) ((c + 1) * 3 + 18) 3 32 (omega arith) in
      let third : set (x ++ (triple b ++ 32 ∷ (r ++ z ∷ t))) (48 + 1 + c + 18 + 1)
            (shown is_print b)
          ≡ x ++ (triple b ++ 32 ∷ (r ++ shown is_print b ∷ t)) =
        set-append x (triple b ++ 32 ∷ (r ++ z ∷ t)) (48 + 1 + c + 18 + 1)
          (suc (suc (suc (suc (length r))))) (shown is_print b) (omega arith)
        ∙ ap (λ w. x ++ (triple b ++ 32 ∷ w))
            (set-append r (z ∷ t) (length r) 0 (shown is_print b) (omega arith)) in
      ap (λ w. set (set w ((c + 1) * 3 + 18) 32) (48 + 1 + c + 18 + 1) (shown is_print b)) first
      ∙ ap (λ w. set w (48 + 1 + c + 18 + 1) (shown is_print b)) second
      ∙ third

  pub put_bytes_shape :
      (c m y : ℕ) (d rest x s : Bytes)
      → length x ≡ 18 + c * 3
      → length s ≡ c
      → c + length d + m ≡ 16
      → put_bytes is_print c (length d) (d ++ rest) (x ++ room y s (length d + m))
        ≡ some ((x ++ triples d) ++ room (gap y d) (s ++ map (shown is_print) d) m)
  unfolding put_bytes triples gap
  put_bytes_shape c m y [] rest x s h k e =
      let z : 0 + m ≡ m = omega arith in rw (z, append-nil x, append-nil s) refl
  put_bytes_shape c m y (b ∷ d) rest x s h k e =
      let n = length d + m in
      let z : suc (length d) + m ≡ suc n = omega arith in
      let ch = shown is_print b in
      let r = spaces (3 * n) ++ 32 ∷ s in
      let t = spaces n ++ 32 ∷ 32 ∷ 32 ∷ [] in
      let x' = x ++ triple b in
      let s' = s ++ ch ∷ [] in
      let lr : length r ≡ 3 * n + suc c =
        omega (arith, length-append (spaces (3 * n)) (32 ∷ s), length-spaces (3 * n), k) in
      let one : put_byte is_print c b (x ++ room y s (suc n)) ≡ x' ++ room 32 s' n =
        ap (λ w. put_byte is_print c b (x ++ w)) (room-suc y n s)
        ∙ put_byte_shape c b y 32 32 32 32 x r t h (omega (arith, lr, e))
        ∙ ap (λ w. x ++ (triple b ++ w)) (room_next n ch s)
        ∙ sym (append_assoc x (triple b) (room 32 s' n)) in
      ap (λ j. put_bytes is_print c (suc (length d)) (b ∷ (d ++ rest)) (x ++ room y s j)) z
      ∙ ap (put_bytes is_print (suc c) (length d) (d ++ rest)) one
      ∙ put_bytes_shape (suc c) m 32 d rest x' s' (omega (arith, length-append x (triple b), h))
          (omega (arith, length-append s (ch ∷ []), k)) (omega (arith, e))
      ∙ rw
          (
            gap_space d,
            append_assoc x (triple b) (triples d),
            append_assoc s (ch ∷ []) (map (shown is_print) d),
          )
          refl
