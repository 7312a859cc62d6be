-- ===== src/Net/Peer.antt =====
-- The class peer_t of src/net/peer.cpp, and is_number of src/basic/stringutil.cpp, which it calls.
-- `inet_addr` and `strtod` of the system are parameters; of what strtod gives, the offset where it
-- stopped and whether the number is too large are used.
pub mod Laws
mod Tests
use libpeco.Base.{
  cut_last, ℕ, suc, ◌+◌, ◌-◌, ◌*◌, ◌/◌, ◌%◌, ◌^◌, Bool, true, false, not, ◌&&◌, ◌||◌, List, [], ◌∷◌,
  ◌++◌, Option, none, some, Bytes, codes, length, ltb, leb, ◌==◌, if◌then◌else◌, ℤ, pos, negsuc,
  ◌>>=◌, same_string,
}
use libpeco.Text.Number.{to_string, stoi}
use libpeco.Text.Trim.{string_tolower}
use libpeco.Net.Ip.{Ip, ip_of_number, ip_of_string, to_uint32}

pub record Peer : Type 0 where
  pub ip : Ip
  pub port : ℕ
  pub format : Bytes

pub record SockaddrIn : Type 0 where
  pub s_addr : ℕ
  pub sin_port : ℕ

-- An `int` that is cast to uint16_t.
abbrev pub uint16_of : ℤ → ℕ
uint16_of (pos n) = n % 2 ^ 16
uint16_of (negsuc n) = 2 ^ 16 - 1 - n % 2 ^ 16

-- ntohs and htons.
unfoldable pub ntohs : ℕ → ℕ
ntohs n = n % 256 * 256 + n / 256 % 256

unfoldable pub format_of : Ip → ℕ → Bytes
format_of ip port = ip ++ (b':' ∷ to_string port)

-- The constructor from an address and a port, which the one from a pair and the assignment repeat.
unfoldable pub peer_of : Ip → ℕ → Peer
unfolding format_of
peer_of ip p = record { ip = ip; port = p; format = format_of ip p }

unfoldable pub peer_t : Peer
unfolding ip_of_number
peer_t = record { ip = ip_of_number 0; port = 0; format = codes "0.0.0.0:0" }

-- The constructor and the assignment from a sockaddr_in.
unfoldable pub peer_of_sockaddr : SockaddrIn → Peer
unfolding peer_of ip_of_number ntohs
peer_of_sockaddr addr = peer_of (ip_of_number addr.s_addr) (ntohs addr.sin_port)

unfoldable pub is_set : Peer → Bool
is_set p = ltb 0 p.port && leb p.port 65535

module _ (strtod : Bytes → ℕ × Bool) where
  unfoldable pub is_number : Bytes → Bool
  unfolding string_tolower
  is_number nstr =
      if same_string (string_tolower nstr) (codes "nan")
      then false
      else not ((strtod nstr).0 == 0 || (strtod nstr).1)

  -- The port of a text; `none` if stoi throws.
  unfoldable pub port_of : Bytes → Option ℕ
  unfolding is_number
  port_of s = if is_number s then (do z ← stoi s; some (uint16_of z)) else some 0

module _ (inet_addr : Bytes → ℕ) where
  unfoldable pub to_sockaddr : Peer → SockaddrIn
  unfolding ntohs to_uint32
  to_sockaddr p = record { s_addr = to_uint32 inet_addr p.ip; sin_port = ntohs p.port }

  module _ (strtod : Bytes → ℕ × Bool) where
    unfoldable pub parse_peer : Bytes → Option Peer
    unfolding cut_last port_of ip_of_string format_of
    parse_peer fmt = elim (cut_last b':' fmt) [
      | none ↦ do
        p ← port_of strtod fmt
        some (record {
          ip = ip_of_string inet_addr (codes "0.0.0.0");
          port = p;
          format = codes "0.0.0.0:" ++ fmt;
        })
      | some q ↦ do
        p ← port_of strtod q.1
        some (record {
          ip = ip_of_string inet_addr q.0;
          port = p;
          format = format_of (ip_of_string inet_addr q.0) p;
        })
    ]
