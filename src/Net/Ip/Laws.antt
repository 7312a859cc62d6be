-- ===== src/Net/Ip/Laws.antt =====
-- Addresses made from numbers. What is relied on of inet_addr is what POSIX says of it: it reads
-- four decimal numbers below 256 that are parted by dots, the first as the lowest byte.
use libpeco.Base.{ℕ, ◌+◌, ◌*◌, ◌/◌, ◌%◌, ◌^◌, ◌<◌, Bytes, ◌≡◌, ◌∙◌, arith}
use libpeco.Net.Ip.{dotted, ntohl, inaddr2ipstring, ip_of_number, ipstring2inaddr, to_uint32}

abbrev pub ReadsDotted : (Bytes → ℕ) → Type 0
ReadsDotted inet_addr =
    (a b c d : ℕ)
    → a < 256
    → b < 256
    → c < 256
    → d < 256
    → inet_addr (dotted a b c d) ≡ a + b * 256 + c * 2 ^ 16 + d * 2 ^ 24

pub ntohl-ntohl : (n : ℕ) → n < 2 ^ 32 → ntohl (ntohl n) ≡ n
unfolding ntohl
ntohl-ntohl n h = omega arith

pub ntohl-lt : (n : ℕ) → ntohl n < 2 ^ 32
unfolding ntohl
ntohl-lt n = omega arith

module _ (inet_addr : Bytes → ℕ) (reads : ReadsDotted inet_addr) where
  pub to_uint32-ip_of_number : (n : ℕ) → n < 2 ^ 32 → to_uint32 inet_addr (ip_of_number n) ≡ n
  unfolding to_uint32 ipstring2inaddr ip_of_number inaddr2ipstring
  to_uint32-ip_of_number n h =
      reads (n % 256) (n / 256 % 256) (n / 2 ^ 16 % 256) (n / 2 ^ 24 % 256) (omega arith)
        (omega arith) (omega arith) (omega arith)
      ∙ omega arith
