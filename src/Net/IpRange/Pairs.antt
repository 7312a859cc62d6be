-- ===== src/Net/IpRange/Pairs.antt =====
-- Ranges from two addresses, and texts that are no ranges.
use libpeco.Base.{
  ℕ, ◌+◌, ◌-◌, ◌^◌, ◌<◌, true, false, not, ◌&&◌, some, Bytes, ltb, ◌==◌, ◌≡◌, refl, subst, ap,
  arith, inl, inr, Bool-cases,
}
use libpeco.Text.Number.{to_string}
use libpeco.Net.Ip.{
  Ip, ip_t, ntohl, inaddr2ipstring, ip_of_number, ip_of_string, ipstring2inaddr, to_uint32, less,
  less_equal,
}
use libpeco.Net.Ip.Laws.{ReadsDotted, ntohl-lt, to_uint32-ip_of_number}
use libpeco.Net.IpRange.{
  parsed, fresh, cut, parse_pair, parse_range, range_of, is_set, is_ip_in_range, bit_count, sub32,
}

all_ones : ip_of_number (2 ^ 32 - 1) ≡ ip_t
unfolding ip_of_number inaddr2ipstring to_string
all_ones = refl

next-ntohl : (n : ℕ) → n + 2 ^ 24 < 2 ^ 32 → ntohl (n + 2 ^ 24) ≡ ntohl n + 1
unfolding ntohl
next-ntohl n h = omega arith

module _ (inet_addr : Bytes → ℕ) (reads : ReadsDotted inet_addr) where
  -- The range from two addresses, in whatever order they are given, holds exactly the addresses
  -- that are neither before both of them nor behind both of them, in the order of the numbers that
  -- ntohl gives.
  pub range_of-in :
      (m n x : ℕ)
      → m < 2 ^ 32
      → n < 2 ^ 32
      → x < 2 ^ 32
      → is_ip_in_range inet_addr
          (ip_of_number x)
          (range_of inet_addr (ip_of_number m) (ip_of_number n))
        ≡ (not (ltb (ntohl x) (ntohl m) && ltb (ntohl x) (ntohl n))
            && not (ltb (ntohl m) (ntohl x) && ltb (ntohl n) (ntohl x)))
  unfolding range_of is_ip_in_range less less_equal
  range_of-in m n x hm hn hx =
      let read = to_uint32-ip_of_number inet_addr reads in
      elim (Bool-cases (ltb (ntohl m) (ntohl n))) [
        | inl e ↦ rw (read m hm, read n hn, e, read x hx, read m hm, read n hn) (ground (arith, e))
        | inr e ↦ rw (read m hm, read n hn, e, read x hx, read m hm, read n hn) (ground (arith, e))
      ]

  range_of-less :
      (from to : Ip) (d : ℕ)
      → less inet_addr from to ≡ true
      → sub32 (ntohl (to_uint32 inet_addr to)) (ntohl (to_uint32 inet_addr from)) ≡ d
      → range_of inet_addr from to
        ≡ record { low = from; high = to; mask = some (32 - bit_count 32 d) }
  unfolding range_of
  range_of-less from to d h e =
      rw h (ap (λ k. record { low = from; high = to; mask = some (32 - bit_count 32 k) }) e)

  -- Of two addresses that differ by one in their last part, the range that is parsed from the two
  -- texts has the mask 7, and the range that is constructed from the two addresses the mask 31. The
  -- parser gets the first address as it is printed.
  pub parse_pair-range_of :
      (n : ℕ) (s : Bytes)
      → n + 2 ^ 24 < 2 ^ 32
      → inet_addr s ≡ n + 2 ^ 24
      → (parse_pair inet_addr (ip_of_number n) s
          ≡ parsed
              (record { low = ip_of_number n; high = ip_of_number (n + 2 ^ 24); mask = some 7 }))
        × (range_of inet_addr (ip_of_number n) (ip_of_number (n + 2 ^ 24))
            ≡ record { low = ip_of_number n; high = ip_of_number (n + 2 ^ 24); mask = some 31 })
  unfolding parse_pair range_of less ip_of_string ipstring2inaddr ip_of_number bit_count
  parse_pair-range_of n s h e =
      let here : ip_of_string inet_addr s ≡ ip_of_number (n + 2 ^ 24) = ap ip_of_number e in
      let read = to_uint32-ip_of_number inet_addr reads n (omega arith) in
      let read' = to_uint32-ip_of_number inet_addr reads (n + 2 ^ 24) h in
      let next = next-ntohl n h in
      let some_ip : (n + 2 ^ 24 == 0) ≡ false = ground arith in
      let up : ltb (ntohl n) (ntohl (n + 2 ^ 24)) ≡ true = ground (arith, next) in
      let not_down : ltb (ntohl (n + 2 ^ 24)) (ntohl n) ≡ false = ground (arith, next) in
      let apart : sub32 (n + 2 ^ 24) n ≡ 2 ^ 24 = omega arith in
      let apart' : sub32 (ntohl (n + 2 ^ 24)) (ntohl n) ≡ 1 =
        omega (arith, next, ntohl-lt n, ntohl-lt (n + 2 ^ 24)) in
      (
        rw (parse_pair, here, read', some_ip, read, not_down, apart) refl,
        range_of-less (ip_of_number n) (ip_of_number (n + 2 ^ 24)) 1 (rw (less, read, read') up)
            (rw (read', read) apart'),
      )

  -- A text whose part before the slash is read as 0 gives no range: the addresses stay as they were
  -- constructed and the mask is not set, but the range is true as a condition.
  pub is_set-parse_range :
      (fmt : Bytes)
      → inet_addr ((cut fmt).0) ≡ 0
      → (parse_range inet_addr fmt ≡ parsed fresh) × (is_set inet_addr fresh ≡ true)
  unfolding parse_range is_set ip_of_string ipstring2inaddr ip_of_number
  is_set-parse_range fmt h =
      let here : ip_of_string inet_addr ((cut fmt).0) ≡ ip_of_number 0 = ap ip_of_number h in
      let read = to_uint32-ip_of_number inet_addr reads 0 (omega arith) in
      let all = to_uint32-ip_of_number inet_addr reads (2 ^ 32 - 1) (omega arith) in
      let unset : to_uint32 inet_addr ip_t ≡ 2 ^ 32 - 1 =
        subst (λ i. to_uint32 inet_addr i ≡ 2 ^ 32 - 1) all_ones all in
      (rw (parse_range, here, read) refl, rw unset refl)
