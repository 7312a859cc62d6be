-- ===== src/Extensions/Redis/Connect/Printed.antt =====
-- Connection strings that are printed in their full form.
use libpeco.Base.{
  ℕ, suc, ◌/◌, ◌%◌, ◌^◌, ◌<◌, Bool, true, false, [], ◌∷◌, ◌++◌, none, some, Bytes, codes, length,
  length-append, ◌==◌, Bool-cases, All, All-append, ◌≡◌, ◌≢◌, ◌⊎◌, inl, inr, refl, sym, ap, subst,
  ◌∙◌, pos, arith,
}
use libpeco.Text.Split.{find, find_in}
use libpeco.Text.Number.{to_string, is_digit}
use libpeco.Text.Number.RoundTrip.{IsDigit, to_string-IsDigit, stoi-to_string, length-to_string}
use libpeco.Net.Ip.{dotted, ip_of_number}
use libpeco.Net.Ip.Laws.{ReadsDotted}
use libpeco.Net.Peer.{peer_of, format_of, parse_peer}
use libpeco.Net.Peer.Laws.{ReadsPorts, is_number-to_string, peer_of-back}
use libpeco.Extensions.Redis.Connect.{redis_connector, with_port}
use libpeco.Extensions.Redis.Connect.Parts.{IsPart, redis_connector-parts}

-- strtod reads the decimal digits of a number, as POSIX says.
abbrev pub ReadsNumbers : (Bytes → ℕ × Bool) → Type 0
ReadsNumbers strtod =
    (n : ℕ) → n < 2 ^ 31 → (0 < (strtod (to_string n)).0) × ((strtod (to_string n)).1 ≡ false)

-- A byte of a decimal number or of an address.
abbrev IsTextual : ℕ → Type 0
IsTextual c = (is_digit c ≡ true) ⊎ (c ≡ b'.')

textual_other : (c b : ℕ) → IsTextual c → is_digit b ≡ false → b ≢ b'.' → c ≢ b
textual_other c b (inl h) n m e = ground (arith, subst (λ x. is_digit x ≡ true) e h, n)
textual_other c b (inr h) n m e = m (sym e ∙ h)

avoids_byte :
    (b : ℕ) (d : Bytes) → is_digit b ≡ false → b ≢ b'.' → All IsTextual d → All (λ x. x ≢ b) d
avoids_byte b [] n m h = tt
avoids_byte b (c ∷ d) n m h = (textual_other c b h.0 n m, avoids_byte b d n m h.1)

digits-IsTextual : (d : Bytes) → All IsDigit d → All IsTextual d
digits-IsTextual [] h = tt
digits-IsTextual (c ∷ d) h = (inl h.0, digits-IsTextual d h.1)

to_string-IsTextual : (n : ℕ) → All IsTextual (to_string n)
to_string-IsTextual n = digits-IsTextual (to_string n) (to_string-IsDigit n)

dotted-IsTextual : (a b c d : ℕ) → All IsTextual (dotted a b c d)
dotted-IsTextual a b c d =
    let two = to_string c ++ (b'.' ∷ to_string d) in
    let three = to_string b ++ (b'.' ∷ two) in
    let h2 : All IsTextual two =
      All-append IsTextual (to_string c) (b'.' ∷ to_string d) (to_string-IsTextual c)
        (inr refl, to_string-IsTextual d) in
    let h3 : All IsTextual three =
      All-append IsTextual (to_string b) (b'.' ∷ two) (to_string-IsTextual b) (inr refl, h2) in
    All-append IsTextual (to_string a) (b'.' ∷ three) (to_string-IsTextual a) (inr refl, h3)

address-IsTextual : (n : ℕ) → All IsTextual (ip_of_number n)
unfolding ip_of_number
address-IsTextual n =
    dotted-IsTextual (n % 256) (n / 256 % 256) (n / 2 ^ 16 % 256) (n / 2 ^ 24 % 256)

nonempty : (d : Bytes) → 0 < length d → d ≢ []
nonempty d h e = absurd (omega (arith, h, ap length e))

textual-IsPart : (d : Bytes) → 0 < length d → All IsTextual d → IsPart d
unfolding is_digit
textual-IsPart d n h = (
  nonempty d n,
  (
    avoids_byte b'/' d refl (omega arith) h,
    (avoids_byte b'@' d refl (omega arith) h, avoids_byte 0 d refl (omega arith) h),
  ),
)

length-address : (n : ℕ) → 0 < length (ip_of_number n)
unfolding ip_of_number
length-address n = omega (
  arith,
  length-append (to_string (n % 256)) (
      b'.'
      ∷ (to_string (n / 256 % 256)
          ++ (b'.' ∷ (to_string (n / 2 ^ 16 % 256) ++ (b'.' ∷ to_string (n / 2 ^ 24 % 256)))))),
)

find_in-colon : (a s : Bytes) → (k : ℕ) × (find_in (codes ":") (a ++ (b':' ∷ s)) ≡ some k)
unfolding find_in
find_in-colon [] s = (0, refl)
find_in-colon (c ∷ a) s =
    let (k, e) = find_in-colon a s in
    elim (Bool-cases (b':' == c)) [ inl h ↦ (0, rw h refl) | inr h ↦ (suc k, rw (h, e) refl) ]

find_in-none : (a : Bytes) → All (λ x. x ≢ b':') a → find_in (codes ":") a ≡ none
unfolding find_in
find_in-none [] h = refl
find_in-none (c ∷ a) h =
    let other : (b':' == c) ≡ false = ground (arith, h.0) in rw (other, find_in-none a h.1) refl

-- A text with a colon keeps its port, and one without takes 6379.
with_port-colon : (a s : Bytes) → with_port (a ++ (b':' ∷ s)) ≡ a ++ (b':' ∷ s)
unfolding with_port find
with_port-colon a s = let (k, e) = find_in-colon a s in rw (with_port, e) refl

with_port-none : (a : Bytes) → All (λ x. x ≢ b':') a → with_port a ≡ a ++ codes ":6379"
unfolding with_port find
with_port-none a h = rw (with_port, find_in-none a h) refl

digits_6379 : to_string 6379 ≡ codes "6379"
unfolding to_string
digits_6379 = refl

-- The texts of a peer.
format-avoids :
    (b n p : ℕ)
    → is_digit b ≡ false
    → b ≢ b'.'
    → b ≢ b':'
    → All (λ x. x ≢ b) (ip_of_number n ++ (b':' ∷ to_string p))
format-avoids b n p h k c =
    All-append (λ x. x ≢ b) (ip_of_number n) (b':' ∷ to_string p)
      (avoids_byte b (ip_of_number n) h k (address-IsTextual n))
      ((λ e. c (sym e)), avoids_byte b (to_string p) h k (to_string-IsTextual p))

format-IsPart : (n p : ℕ) → IsPart (ip_of_number n ++ (b':' ∷ to_string p))
unfolding is_digit
format-IsPart n p = (
  nonempty (ip_of_number n ++ (b':' ∷ to_string p))
      (omega (arith, length-append (ip_of_number n) (b':' ∷ to_string p))),
  (
    format-avoids b'/' n p refl (omega arith) (omega arith),
    (
      format-avoids b'@' n p refl (omega arith) (omega arith),
      format-avoids 0 n p refl (omega arith) (omega arith),
    ),
  ),
)

module _ (inet_addr : Bytes → ℕ) (reads : ReadsDotted inet_addr) (strtod : Bytes → ℕ × Bool)
    (numbers : ReadsNumbers strtod) where
  ports : ReadsPorts strtod
  ports n h = numbers n (omega arith)

  -- A connection string of the scheme, a password that is not empty and has no slash, no @ and no
  -- zero byte, a dotted address with a port or without, and a decimal number below 2 ^ 31 gives the
  -- password as it stands, with any quotes, the peer of the address, with the port 6379 where there
  -- is none, and the number. Of inet_addr it is supposed that it reads dotted addresses, and of
  -- strtod that it reads the digits of a number.
  pub redis_connector-print :
      (w : Bytes) (n p d : ℕ)
      → IsPart w
      → n < 2 ^ 32
      → p < 2 ^ 16
      → d < 2 ^ 31
      → (redis_connector inet_addr strtod (
            codes "redis://"
            ++ ((w ++ b'@' ∷ (peer_of (ip_of_number n) p).format) ++ b'/' ∷ to_string d))
          ≡ some (record { server_info = peer_of (ip_of_number n) p; password = w; db = pos d }))
        × (redis_connector inet_addr strtod
              (codes "redis://" ++ ((w ++ b'@' ∷ ip_of_number n) ++ b'/' ∷ to_string d))
            ≡ some
                (record { server_info = peer_of (ip_of_number n) 6379; password = w; db = pos d }))
  unfolding peer_of format_of is_digit
  redis_connector-print w n p d pw hn hp hd =
      let ip = ip_of_number n in
      let number = is_number-to_string strtod d (numbers d hd).0 (numbers d hd).1 in
      let part = textual-IsPart (to_string d) (length-to_string d) (to_string-IsTextual d) in
      let plain = avoids_byte b':' ip refl (omega arith) (address-IsTextual n) in
      let default : with_port ip ≡ ip ++ (b':' ∷ to_string 6379) =
        with_port-none ip plain ∙ ap (λ t. ip ++ (b':' ∷ t)) (sym digits_6379) in
      (
        redis_connector-parts inet_addr strtod w (ip ++ (b':' ∷ to_string p)) (to_string d)
            (peer_of ip p) (pos d) pw (format-IsPart n p) part number (stoi-to_string d hd)
            (ap (parse_peer inet_addr strtod) (with_port-colon ip (to_string p))
              ∙ (peer_of-back strtod ports inet_addr reads n p hn hp).0),
        redis_connector-parts inet_addr strtod w ip (to_string d) (peer_of ip 6379) (pos d) pw
            (textual-IsPart ip (length-address n) (address-IsTextual n)) part number
            (stoi-to_string d hd)
            (ap (parse_peer inet_addr strtod) default
              ∙ (peer_of-back strtod ports inet_addr reads n 6379 hn (omega arith)).0),
      )
