-- ===== src/Net/IpRange/Laws.antt =====
-- Which addresses a range holds.
use libpeco.Base.{
  ℕ, suc, ◌+◌, ◌-◌, ◌*◌, ◌/◌, ◌%◌, ◌^◌, ◌≤◌, ◌<◌, false, ◌&&◌, [], ◌∷◌, ◌++◌, Option, some, Bytes,
  All, length, ltb, leb, ◌==◌, if◌then◌else◌, ◌≡◌, ◌≢◌, ◌↔◌, refl, sym, ap, subst, ◌∙◌, arith, inl,
  inr, Bool-cases, ==→eq, misses, agree,
}
use libpeco.Base.Masks.{floor, pow-pos, bit_and-high, bit_or-low, floor-between}
use native.Mathlib.Nat.{mul-div_cancel, div-lt_iff_lt-mul, mul-le-mul_right}
use libpeco.Text.Number.{to_string}
use libpeco.Text.Number.RoundTrip.{stoi-to_string}
use libpeco.Net.Ip.{ipstring2inaddr, htonl, ntohl, ip_of_number, ip_of_string, less_equal}
use libpeco.Net.Ip.Laws.{ReadsDotted, ntohl-ntohl, ntohl-lt, to_uint32-ip_of_number}
use libpeco.Net.IpRange.{parsed, cut, masked, parse_mask, parse_range, is_ip_in_range}

-- The mask of the high bits, as the shift makes it.
shifted : (k : ℕ) → k < 32 → (2 ^ 32 - 1) * 2 ^ k % 2 ^ 32 ≡ 2 ^ 32 - 2 ^ k
unfolding misses
shifted k h = agree (λ j. (2 ^ 32 - 1) * 2 ^ j % 2 ^ 32) (λ j. 2 ^ 32 - 2 ^ j) 32 k refl h

others : (k : ℕ) → k < 32 → 2 ^ 32 - 1 - (2 ^ 32 - 2 ^ k) ≡ 2 ^ k - 1
unfolding misses
others k h = agree (λ j. 2 ^ 32 - 1 - (2 ^ 32 - 2 ^ j)) (λ j. 2 ^ j - 1) 32 k refl h

blocks : (k : ℕ) → k < 32 → 2 ^ (32 - k) * 2 ^ k ≡ 2 ^ 32
unfolding misses
blocks k h = agree (λ j. 2 ^ (32 - j) * 2 ^ j) (λ j. 2 ^ 32) 32 k refl h

-- A mask of two digits at most is read as a number.
length-mask : (m : ℕ) → m < 33 → ltb 2 (length (to_string m)) ≡ false
unfolding misses to_string
length-mask m h =
    let short = agree (λ j. length (to_string j)) (λ j. if ltb j 10 then 1 else 2) 33 m refl h in
    ground (arith, short)

floor-floor : (k n : ℕ) → floor k (floor k n) ≡ floor k n
floor-floor k n = ap (λ q. q * 2 ^ k) (mul-div_cancel (n / 2 ^ k) (pow-pos k))

-- The last number of a block is below 2 ^ 32 as well.
block-lt : (k n : ℕ) → k < 32 → n < 2 ^ 32 → floor k n + (2 ^ k - 1) < 2 ^ 32
block-lt k n hk hn =
    let q : n / 2 ^ k < 2 ^ (32 - k) =
      (div-lt_iff_lt-mul (pow-pos k)).1 (subst (λ t. n < t) (sym (blocks k hk)) hn) in
    let le : suc (n / 2 ^ k) * 2 ^ k ≤ 2 ^ (32 - k) * 2 ^ k = mul-le-mul_right (2 ^ k) q in
    omega (arith, le, blocks k hk, pow-pos k)

-- What masked computes, in host order.
masked-floor :
    (m n : ℕ)
    → 0 < m
    → m ≤ 32
    → masked m n ≡ record {
      low = ip_of_number (htonl (floor (32 - m) (ntohl n)));
      high = ip_of_number (htonl (floor (32 - m) (ntohl n) + (2 ^ (32 - m) - 1)));
      mask = some m;
    }
unfolding masked
masked-floor m n hm hm' =
    let k = 32 - m in
    let low = bit_and-high 32 k (ntohl n) (ntohl-lt n) (omega arith) in
    rw
      (
        shifted k (omega arith),
        low,
        others k (omega arith),
        bit_or-low k (floor k (ntohl n)),
        floor-floor k (ntohl n),
      )
      refl

apart : (p q : ℕ) → (p == q) ≡ false → p ≡ q → ⊥
apart p q e h = ground (arith, e, h)

same_test : (a b x p q : ℕ) → ((a ≤ x) × (x ≤ b)) ↔ (p ≡ q) → (leb a x && leb x b) ≡ (p == q)
same_test a b x p q h = elim (Bool-cases (p == q)) [
  | inl e ↦ let inside = h.1 (==→eq p q e) in ground (arith, inside, e)
  | inr e ↦ elim (Bool-cases (leb a x && leb x b)) [
    | inl t ↦ absurd (apart p q e (h.0 (ground (arith, t), ground (arith, t))))
    | inr t ↦ t ∙ sym e
  ]
]

module _ (inet_addr : Bytes → ℕ) (reads : ReadsDotted inet_addr) where
  in_range :
      (low high x : ℕ)
      → low < 2 ^ 32
      → high < 2 ^ 32
      → x < 2 ^ 32
      → (m : Option ℕ)
      → is_ip_in_range inet_addr
          (ip_of_number x)
          (record { low = ip_of_number (htonl low); high = ip_of_number (htonl high); mask = m })
        ≡ (leb low (ntohl x) && leb (ntohl x) high)
  unfolding is_ip_in_range less_equal
  in_range low high x hl hh hx m =
      rw
        (
          to_uint32-ip_of_number inet_addr reads x hx,
          to_uint32-ip_of_number inet_addr reads (htonl low) (ntohl-lt low),
          to_uint32-ip_of_number inet_addr reads (htonl high) (ntohl-lt high),
          ntohl-ntohl low hl,
          ntohl-ntohl high hh,
        )
        refl

  in_masked :
      (m n x : ℕ)
      → 0 < m
      → m ≤ 32
      → x < 2 ^ 32
      → is_ip_in_range inet_addr (ip_of_number x) (masked m n)
        ≡ (ntohl x / 2 ^ (32 - m) == ntohl n / 2 ^ (32 - m))
  in_masked m n x hm hm' hx =
      let k = 32 - m in
      let low = floor k (ntohl n) in
      let last = block-lt k (ntohl n) (omega arith) (ntohl-lt n) in
      rw
        (
          masked-floor m n hm hm',
          in_range low (low + (2 ^ k - 1)) x (omega (arith, last)) last hx (some m),
        )
        (same_test low (low + (2 ^ k - 1)) (ntohl x) (ntohl x / 2 ^ k) (ntohl n / 2 ^ k)
          (floor-between k (ntohl n) (ntohl x)))

cut-slash : (ip s : Bytes) → All (λ c. c ≢ b'/') ip → cut (ip ++ b'/' ∷ s) ≡ (ip, some s)
unfolding cut
cut-slash [] s h = refl
cut-slash (c ∷ ip) s h =
    let other : (c == b'/') ≡ false = ground (arith, h.0) in rw (other, cut-slash ip s h.1) refl

module _ (inet_addr : Bytes → ℕ) (reads : ReadsDotted inet_addr) where
  parse_mask-to_string :
      (m n : ℕ)
      → 0 < m
      → m ≤ 32
      → n < 2 ^ 32
      → parse_mask inet_addr (ip_of_number n) (to_string m) ≡ parsed (masked m n)
  unfolding parse_mask
  parse_mask-to_string m n hm hm' hn =
      let read = to_uint32-ip_of_number inet_addr reads n hn in
      let small : ltb 32 (m % 2 ^ 32) ≡ false = ground arith in
      let whole : m % 2 ^ 32 ≡ m = omega arith in
      let some_mask : (m == 0) ≡ false = ground arith in
      rw (parse_mask, stoi-to_string m (omega arith), small, whole, some_mask, read) refl

  -- A range that is written as an address, a slash and a decimal mask from 1 to 32 is parsed, and
  -- holds exactly the addresses whose first bits, as many as the mask says, are those of the
  -- address. The part before the slash holds no slash, and inet_addr reads it as a number other
  -- than 0.
  pub parse_range-in :
      (ip : Bytes) (m n x : ℕ)
      → All (λ c. c ≢ b'/') ip
      → 0 < m
      → m ≤ 32
      → inet_addr ip ≡ n
      → 0 < n
      → n < 2 ^ 32
      → x < 2 ^ 32
      → (parse_range inet_addr (ip ++ b'/' ∷ to_string m) ≡ parsed (masked m n))
        × (is_ip_in_range inet_addr (ip_of_number x) (masked m n)
            ≡ (ntohl x / 2 ^ (32 - m) == ntohl n / 2 ^ (32 - m)))
  unfolding parse_range ip_of_string ip_of_number ipstring2inaddr
  parse_range-in ip m n x h hm hm' e hn hn' hx =
      let here : ip_of_string inet_addr ip ≡ ip_of_number n = ap ip_of_number e in
      let read = to_uint32-ip_of_number inet_addr reads n hn' in
      let some_ip : (n == 0) ≡ false = ground arith in
      (
        rw
            (
              parse_range,
              cut-slash ip (to_string m) h,
              here,
              read,
              some_ip,
              length-mask m (omega arith),
            )
            (parse_mask-to_string m n hm hm' hn'),
        in_masked inet_addr reads m n x hm hm' hx,
      )
