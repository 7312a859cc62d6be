-- ===== src/Net/Ip.antt =====
-- The class ip_t of src/net/ip.cpp, which keeps an address as text. `inet_addr` of the system, which
-- reads a text, is a parameter. The host is little-endian: ntohl and htonl reverse the four bytes.
pub mod Laws
pub mod Reader
use libpeco.Base.{
  ℕ, ◌+◌, ◌-◌, ◌*◌, ◌/◌, ◌%◌, ◌^◌, Bool, true, false, not, List, [], ◌∷◌, ◌++◌, Bytes, codes,
  length, ltb, leb, ◌==◌, if◌then◌else◌,
}
use libpeco.Text.Number.{to_string}

unfoldable pub ntohl : ℕ → ℕ
ntohl n = n % 256 * 2 ^ 24 + n / 256 % 256 * 2 ^ 16 + n / 2 ^ 16 % 256 * 256 + n / 2 ^ 24 % 256

abbrev pub htonl : ℕ → ℕ
htonl n = ntohl n

-- An address is its text.
abbrev pub Ip : Type 0
Ip = Bytes

abbrev pub dotted : ℕ → ℕ → ℕ → ℕ → Bytes
dotted a b c d =
    to_string a ++ (b'.' ∷ (to_string b ++ (b'.' ∷ (to_string c ++ (b'.' ∷ to_string d)))))

unfoldable pub inaddr2ipstring : ℕ → Ip
inaddr2ipstring n = dotted (n % 256) (n / 256 % 256) (n / 2 ^ 16 % 256) (n / 2 ^ 24 % 256)

abbrev pub ip_t : Ip
ip_t = codes "255.255.255.255"

unfoldable pub ip_of_number : ℕ → Ip
unfolding inaddr2ipstring
ip_of_number ipaddr = inaddr2ipstring ipaddr

unfoldable pub size : Ip → ℕ
size ip = length ip

module _ (inet_addr : Bytes → ℕ) where
  unfoldable pub ipstring2inaddr : Bytes → ℕ
  ipstring2inaddr ipstring = inet_addr ipstring

  unfoldable pub ip_of_string : Bytes → Ip
  unfolding inaddr2ipstring ipstring2inaddr
  ip_of_string ipaddr = inaddr2ipstring (ipstring2inaddr ipaddr)

  unfoldable pub to_uint32 : Ip → ℕ
  unfolding ipstring2inaddr
  to_uint32 ip = ipstring2inaddr ip

  unfoldable pub is_valid : Ip → Bool
  unfolding to_uint32
  is_valid ip = not (2 ^ 32 - 1 == to_uint32 ip)

  -- The operators <, >, <= and >=.
  unfoldable pub less : Ip → Ip → Bool
  unfolding to_uint32 ntohl
  less lhs rhs = ltb (ntohl (to_uint32 lhs)) (ntohl (to_uint32 rhs))

  unfoldable pub greater : Ip → Ip → Bool
  unfolding to_uint32 ntohl
  greater lhs rhs = ltb (ntohl (to_uint32 rhs)) (ntohl (to_uint32 lhs))

  unfoldable pub less_equal : Ip → Ip → Bool
  unfolding to_uint32 ntohl
  less_equal lhs rhs = leb (ntohl (to_uint32 lhs)) (ntohl (to_uint32 rhs))

  unfoldable pub greater_equal : Ip → Ip → Bool
  unfolding to_uint32 ntohl
  greater_equal lhs rhs = leb (ntohl (to_uint32 rhs)) (ntohl (to_uint32 lhs))
