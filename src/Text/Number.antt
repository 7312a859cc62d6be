-- ===== src/Text/Number.antt =====
-- std::to_string of an unsigned number and std::stoi in base 10, as the C++ standard defines them:
-- stoi skips white space, takes a sign and then the digits up to the first other byte. It throws,
-- `none`, if there is no digit, or if the number does not fit an `int`.
pub mod RoundTrip
use libpeco.Base.{
  ℕ, zero, suc, ◌+◌, ◌-◌, ◌*◌, ◌/◌, ◌%◌, ◌^◌, Bool, true, false, ◌&&◌, ◌||◌, List, [], ◌∷◌, Option,
  none, some, Bytes, ltb, leb, ◌==◌, if◌then◌else◌, ℤ, pos, negsuc,
}

-- The last digit first; a number has fewer digits than its value plus one.
unfoldable pub digits : ℕ → ℕ → Bytes → Bytes
digits zero n out = out
digits (suc f) n out =
    let rest = digits f (n / 10) ((b'0' + n % 10) ∷ out) in
    if ltb n 10 then (b'0' + n) ∷ out else rest

unfoldable pub to_string : ℕ → Bytes
unfolding digits
to_string n = digits (suc n) n []

abbrev pub is_digit : ℕ → Bool
is_digit c = leb b'0' c && leb c b'9'

abbrev pub is_space : ℕ → Bool
is_space c = c == b' ' || (leb 9 c && leb c 13)

unfoldable pub skip_spaces : Bytes → Bytes
skip_spaces [] = []
skip_spaces (c ∷ s) = if is_space c then skip_spaces s else c ∷ s

unfoldable pub scan : Bytes → ℕ → ℕ
scan [] n = n
scan (c ∷ s) n = if is_digit c then scan s (n * 10 + (c - b'0')) else n

-- The digits behind the sign.
unfoldable pub unsigned : Bytes → Option ℕ
unfolding scan
unsigned [] = none
unsigned (c ∷ s) = if is_digit c then some (scan (c ∷ s) 0) else none

unfoldable pub in_range : Bool → ℕ → Option ℤ
in_range negative n =
    if negative
    then (if n == 0 then some (pos 0) else if leb n (2 ^ 31) then some (negsuc (n - 1)) else none)
    else if ltb n (2 ^ 31)
    then some (pos n)
    else none

unfoldable pub signed : Bytes → Option ℤ
unfolding unsigned in_range
signed [] = none
signed (c ∷ s) =
    if c == b'-'
    then elim (unsigned s) [ none ↦ none | some n ↦ in_range true n ]
    else elim (unsigned (if c == b'+' then s else c ∷ s)) [
      | none ↦ none
      | some n ↦ in_range false n
    ]

unfoldable pub stoi : Bytes → Option ℤ
unfolding signed skip_spaces
stoi s = signed (skip_spaces s)
