-- ===== src/Net/Peer/Laws.antt =====
-- A peer's text and its sockaddr_in give the peer back. What is relied on of strtod is that it
-- reads the decimal digits of a port.
use libpeco.Base.{
  cut_last, ℕ, ◌%◌, ◌^◌, ◌<◌, Bool, true, false, [], ◌∷◌, ◌++◌, none, some, Bytes, codes, All, ◌==◌,
  ◌≡◌, refl, ap, arith,
}
use libpeco.Text.Number.{to_string}
use libpeco.Text.Number.RoundTrip.{IsDigit, to_string-IsDigit, stoi-to_string}
use libpeco.Text.Trim.{string_tolower}
use libpeco.Net.Ip.{ip_of_number, ip_of_string, ipstring2inaddr}
use libpeco.Net.Ip.Laws.{ReadsDotted, to_uint32-ip_of_number}
use libpeco.Net.Peer.{
  cut_last, same_string, ntohs, format_of, peer_of, peer_of_sockaddr, is_number, port_of,
  to_sockaddr, parse_peer,
}

abbrev pub ReadsPorts : (Bytes → ℕ × Bool) → Type 0
ReadsPorts strtod =
    (n : ℕ) → n < 2 ^ 16 → (0 < (strtod (to_string n)).0) × ((strtod (to_string n)).1 ≡ false)

cut_last-none : (d : Bytes) → All IsDigit d → cut_last b':' d ≡ none
unfolding cut_last
cut_last-none [] h = refl
cut_last-none (c ∷ d) h =
    let other : (c == b':') ≡ false = ground (arith, h.0) in rw (cut_last-none d h.1, other) refl

cut_last-append : (a d : Bytes) → All IsDigit d → cut_last b':' (a ++ b':' ∷ d) ≡ some (a, d)
unfolding cut_last
cut_last-append [] d h = rw (cut_last-none d h) refl
cut_last-append (c ∷ a) d h = rw (cut_last-append a d h) refl

not_nan : (d : Bytes) → All IsDigit d → same_string (string_tolower d) (codes "nan") ≡ false
unfolding string_tolower
not_nan [] h = refl
not_nan (c ∷ d) h = ground (arith, h.0)

pub is_number-to_string :
    (strtod : Bytes → ℕ × Bool) (n : ℕ)
    → 0 < (strtod (to_string n)).0
    → (strtod (to_string n)).1 ≡ false
    → is_number strtod (to_string n) ≡ true
unfolding is_number
is_number-to_string strtod n h k =
    rw (is_number, not_nan (to_string n) (to_string-IsDigit n)) (ground (arith, h, k))

module _ (strtod : Bytes → ℕ × Bool) (ports : ReadsPorts strtod) where
  port_of-to_string : (p : ℕ) → p < 2 ^ 16 → port_of strtod (to_string p) ≡ some p
  unfolding port_of
  port_of-to_string p h =
      let read = ports p h in
      let whole : p % 2 ^ 16 ≡ p = omega arith in
      rw
        (port_of, is_number-to_string strtod p read.0 read.1, stoi-to_string p (omega arith), whole)
        refl

  module _ (inet_addr : Bytes → ℕ) (reads : ReadsDotted inet_addr) where
    -- The peer of an address and a port is parsed back from its text, and comes back from its
    -- sockaddr_in.
    pub peer_of-back :
        (n p : ℕ)
        → n < 2 ^ 32
        → p < 2 ^ 16
        → (parse_peer inet_addr strtod ((peer_of (ip_of_number n) p).format)
            ≡ some (peer_of (ip_of_number n) p))
          × (peer_of_sockaddr (to_sockaddr inet_addr (peer_of (ip_of_number n) p))
              ≡ peer_of (ip_of_number n) p)
    unfolding parse_peer peer_of format_of peer_of_sockaddr to_sockaddr ntohs ip_of_string
        ipstring2inaddr
    peer_of-back n p hn hp =
        let ip = ip_of_number n in
        let read = to_uint32-ip_of_number inet_addr reads n hn in
        let here : ip_of_string inet_addr ip ≡ ip = ap ip_of_number read in
        let found = cut_last-append ip (to_string p) (to_string-IsDigit p) in
        let back : ntohs (ntohs p) ≡ p = omega arith in
        (
          rw (format_of, parse_peer, found, port_of-to_string p hp, here) refl,
          rw (peer_of_sockaddr, to_sockaddr, read, back) refl,
        )
