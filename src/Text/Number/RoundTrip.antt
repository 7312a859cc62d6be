-- ===== src/Text/Number/RoundTrip.antt =====
-- Reading a number back from its decimal form, whose bytes are digits.
use libpeco.Base.{
  ℕ, zero, suc, ◌+◌, ◌/◌, ◌%◌, ◌^◌, ◌<◌, true, [], ◌∷◌, some, ◌≡◌, refl, arith, sym, ◌≢◌, Bytes,
  All, length, ltb, pos, Bool-cases, inl, inr,
}
use mathlib.Core.List.{cons-ne-nil}
use libpeco.Text.Number.{
  digits, to_string, is_digit, skip_spaces, scan, unsigned, in_range, signed, stoi,
}

abbrev pub IsDigit : ℕ → Type 0
IsDigit c = is_digit c ≡ true

scan-digits : (f n : ℕ) (out : Bytes) → n < f → scan (digits f n out) 0 ≡ scan out n
unfolding digits scan
scan-digits zero n out h = absurd (omega arith)
scan-digits (suc f) n out h = ground (arith, scan-digits f (n / 10) ((b'0' + n % 10) ∷ out))

digits-IsDigit : (f n : ℕ) (out : Bytes) → All IsDigit out → All IsDigit (digits f n out)
unfolding digits
digits-IsDigit zero n out h = h
digits-IsDigit (suc f) n out h = elim (Bool-cases (ltb n 10)) [
  | inl e ↦ rw e (ground arith, h)
  | inr e ↦ rw e (digits-IsDigit f (n / 10) ((b'0' + n % 10) ∷ out) (ground arith, h))
]

pub to_string-IsDigit : (n : ℕ) → All IsDigit (to_string n)
unfolding to_string
to_string-IsDigit n = digits-IsDigit (suc n) n [] tt

-- There is a first digit.
digits-cons : (f n : ℕ) (out : Bytes) → n < f → (c : ℕ) × (s : Bytes) × (digits f n out ≡ c ∷ s)
unfolding digits
digits-cons zero n out h = absurd (omega arith)
digits-cons (suc f) n out h = elim (Bool-cases (ltb n 10)) [
  | inl e ↦ (b'0' + n, out, rw e refl)
  | inr e ↦
      let (c, s, p) = digits-cons f (n / 10) ((b'0' + n % 10) ∷ out) (ground arith) in
      (c, s, rw e p)
]

stoi-digits :
    (c : ℕ) (s : Bytes) (n : ℕ)
    → is_digit c ≡ true
    → scan (c ∷ s) 0 ≡ n
    → n < 2 ^ 31
    → stoi (c ∷ s) ≡ some (pos n)
unfolding stoi signed skip_spaces unsigned in_range
stoi-digits c s n d e h = ground arith

stoi_of :
    (d c : Bytes) (n : ℕ)
    → d ≡ c
    → All IsDigit d
    → scan d 0 ≡ n
    → n < 2 ^ 31
    → c ≢ []
    → stoi d ≡ some (pos n)
stoi_of [] c n p g e h k = absurd (k (sym p))
stoi_of (x ∷ d) c n p g e h k = stoi-digits x d n g.0 e h

pub stoi-to_string : (n : ℕ) → n < 2 ^ 31 → stoi (to_string n) ≡ some (pos n)
unfolding to_string scan
stoi-to_string n h =
    let (c, s, p) = digits-cons (suc n) n [] (omega arith) in
    stoi_of (digits (suc n) n []) (c ∷ s) n p (digits-IsDigit (suc n) n [] tt)
      (scan-digits (suc n) n [] (omega arith)) h (cons-ne-nil c s)

pub scan-to_string : (n : ℕ) → scan (to_string n) 0 ≡ n
unfolding to_string scan
scan-to_string n = scan-digits (suc n) n [] (omega arith)

length-digits : (f n : ℕ) (out : Bytes) → n < f → 0 < length (digits f n out)
unfolding digits
length-digits zero n out h = absurd (omega arith)
length-digits (suc f) n out h = ground (arith, length-digits f (n / 10) ((b'0' + n % 10) ∷ out))

pub length-to_string : (n : ℕ) → 0 < length (to_string n)
unfolding to_string
length-to_string n = length-digits (suc n) n [] (omega arith)
