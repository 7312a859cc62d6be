-- ===== src/Net/IpRange.antt =====
-- The class iprange_t of src/net/iprange.cpp.
pub mod Laws
pub mod Pairs
mod Tests
use libpeco.Base.{
  ℕ, zero, suc, ◌+◌, ◌-◌, ◌*◌, ◌/◌, ◌%◌, ◌^◌, bit_and, bit_or, Bool, true, false, not, ◌&&◌, List,
  [], ◌∷◌, ◌++◌, Option, none, some, Bytes, codes, length, ltb, leb, ◌==◌, if◌then◌else◌, ℤ, pos,
  negsuc,
}
use libpeco.Text.Number.{to_string, stoi}
use libpeco.Net.Ip.{Ip, ip_t, htonl, ntohl, ip_of_number, ip_of_string, to_uint32, less, less_equal}

-- The mask is `none` as long as nothing was written to it.
pub record IpRange : Type 0 where
  pub low : Ip
  pub high : Ip
  pub mask : Option ℕ

unfoldable pub iprange_t : IpRange
unfolding ip_of_number
iprange_t = record { low = ip_of_number 0; high = ip_of_number 0; mask = some 32 }

-- What members are before the body of the other constructors runs.
abbrev pub fresh : IpRange
fresh = record { low = ip_t; high = ip_t; mask = none }

-- The constructor throws, shifts by 32, or returns.
pub data Parsed : Type 0 where
  throws undefined : Parsed
  parsed : IpRange → Parsed

-- The parts before and behind the first slash.
unfoldable pub cut : Bytes → Bytes × Option Bytes
cut [] = ([], none)
cut (c ∷ s) = let rest = cut s in if c == b'/' then ([], some s) else (c ∷ rest.0, rest.1)

-- How often a 32-bit number is halved until it is 0; the fuel is 32.
unfoldable pub bit_count : ℕ → ℕ → ℕ
bit_count zero d = 0
bit_count (suc f) d = let rest = bit_count f (d / 2) in if d == 0 then 0 else suc rest

abbrev pub sub32 : ℕ → ℕ → ℕ
sub32 a b = (a + (2 ^ 32 - b)) % 2 ^ 32

-- An `int` that is cast to uint32_t.
abbrev pub uint32_of : ℤ → ℕ
uint32_of (pos n) = n % 2 ^ 32
uint32_of (negsuc n) = 2 ^ 32 - 1 - n % 2 ^ 32

-- The addresses that share the first `m` bits with `n`, for 0 < m.
unfoldable pub masked : ℕ → ℕ → IpRange
unfolding ip_of_number
masked m n =
    let fmask = (2 ^ 32 - 1) * 2 ^ (32 - m) % 2 ^ 32 in
    let low = bit_and (ntohl n) fmask in
    let high = bit_or low (2 ^ 32 - 1 - fmask) in
    record { low = ip_of_number (htonl low); high = ip_of_number (htonl high); mask = some m }

module _ (inet_addr : Bytes → ℕ) where
  -- The mask part is an address.
  unfoldable pub parse_pair : Ip → Bytes → Parsed
  unfolding ip_of_string to_uint32 less bit_count
  parse_pair lowip maskstr =
      let highip = ip_of_string inet_addr maskstr in
      if to_uint32 inet_addr highip == 0
      then parsed fresh
      else if less inet_addr highip lowip
      then parsed fresh
      else parsed (record {
        low = lowip;
        high = highip;
        mask =
            some
              (32 - bit_count 32 (sub32 (to_uint32 inet_addr highip) (to_uint32 inet_addr lowip)));
      })

  -- The mask part is a number.
  unfoldable pub parse_mask : Ip → Bytes → Parsed
  unfolding to_uint32 masked
  parse_mask lowip maskstr = elim (stoi maskstr) [
    | none ↦ throws
    | some z ↦
        if ltb 32 (uint32_of z)
        then parsed fresh
        else if uint32_of z == 0
        then undefined
        else parsed (masked (uint32_of z) (to_uint32 inet_addr lowip))
  ]

  abbrev pub mask_part : Option Bytes → Bytes
  mask_part none = codes "32"
  mask_part (some s) = s

  unfoldable pub parse_range : Bytes → Parsed
  unfolding cut ip_of_string to_uint32 parse_pair parse_mask
  parse_range fmt =
      let lowip = ip_of_string inet_addr (cut fmt).0 in
      let maskstr = mask_part (cut fmt).1 in
      if to_uint32 inet_addr lowip == 0
      then parsed fresh
      else if ltb 2 (length maskstr)
      then parse_pair lowip maskstr
      else parse_mask lowip maskstr

  -- The constructor from two addresses, in any order.
  unfoldable pub range_of : Ip → Ip → IpRange
  unfolding less to_uint32 bit_count
  range_of from to =
      let low = if less inet_addr from to then from else to in
      let high = if less inet_addr from to then to else from in
      let d = sub32 (ntohl (to_uint32 inet_addr high)) (ntohl (to_uint32 inet_addr low)) in
      record { low = low; high = high; mask = some (32 - bit_count 32 d) }

  unfoldable pub is_set : IpRange → Bool
  unfolding to_uint32
  is_set r = not (to_uint32 inet_addr r.low == 0) && not (to_uint32 inet_addr r.high == 0)

  unfoldable pub is_ip_in_range : Ip → IpRange → Bool
  unfolding less_equal
  is_ip_in_range ip r = less_equal inet_addr r.low ip && less_equal inet_addr ip r.high

-- str; `none` if the mask was never written.
unfoldable pub str : IpRange → Option Bytes
str r = elim r.mask [ none ↦ none | some m ↦ some (r.low ++ (b'/' ∷ to_string m)) ]
