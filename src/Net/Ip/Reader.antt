-- ===== src/Net/Ip/Reader.antt =====
-- A reader of dotted decimal addresses, with which the theorems on addresses are applied.
use libpeco.Base.{
  ℕ, ◌+◌, ◌-◌, ◌*◌, ◌^◌, [], ◌∷◌, ◌++◌, Bytes, All, if◌then◌else◌, ◌≡◌, refl, ◌∙◌, arith,
}
use libpeco.Text.Number.{to_string, is_digit, scan}
use libpeco.Text.Number.RoundTrip.{IsDigit, to_string-IsDigit, scan-to_string}
use libpeco.Net.Ip.Laws.{ReadsDotted}

-- What is behind the digits and the byte that ends them.
unfoldable pub behind : Bytes → Bytes
behind [] = []
behind (c ∷ s) = if is_digit c then behind s else s

unfoldable pub read_dotted : Bytes → ℕ
unfolding behind scan
read_dotted s =
    scan s 0
    + scan (behind s) 0 * 256
    + scan (behind (behind s)) 0 * 2 ^ 16
    + scan (behind (behind (behind s))) 0 * 2 ^ 24

scan-append : (d s : Bytes) (n : ℕ) → All IsDigit d → scan (d ++ b'.' ∷ s) n ≡ scan d n
unfolding scan
scan-append [] s n h = refl
scan-append (c ∷ d) s n h = ground (arith, h.0, scan-append d s (n * 10 + (c - b'0')) h.1)

behind-append : (d s : Bytes) → All IsDigit d → behind (d ++ b'.' ∷ s) ≡ s
unfolding behind
behind-append [] s h = refl
behind-append (c ∷ d) s h = ground (arith, h.0, behind-append d s h.1)

part : (n : ℕ) (s : Bytes) → scan (to_string n ++ b'.' ∷ s) 0 ≡ n
part n s = scan-append (to_string n) s 0 (to_string-IsDigit n) ∙ scan-to_string n

next : (n : ℕ) (s : Bytes) → behind (to_string n ++ b'.' ∷ s) ≡ s
next n s = behind-append (to_string n) s (to_string-IsDigit n)

pub read_dotted-ReadsDotted : ReadsDotted read_dotted
unfolding read_dotted
read_dotted-ReadsDotted a b c d ha hb hc hd =
    let s2 = to_string d in
    let s1 = to_string c ++ b'.' ∷ s2 in
    let s0 = to_string b ++ b'.' ∷ s1 in
    rw (next a s0, next b s1, next c s2, part a s0, part b s1, part c s2, scan-to_string d) refl
