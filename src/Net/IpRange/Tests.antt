-- ===== src/Net/IpRange/Tests.antt =====
-- Ranges in private networks, with the reader of dotted decimal addresses.
use libpeco.Base.{
  ℕ, ◌+◌, ◌/◌, ◌^◌, ◌-◌, ◌∷◌, ◌++◌, codes, ◌==◌, All, avoids-All, ◌≢◌, ◌≡◌, refl, arith,
}
use libpeco.Text.Number.{to_string}
use libpeco.Net.Ip.{ntohl, ip_of_number}
use libpeco.Net.Ip.Reader.{read_dotted, read_dotted-ReadsDotted}
use libpeco.Net.IpRange.{parsed, masked, parse_range, is_ip_in_range}
use libpeco.Net.IpRange.Laws.{parse_range-in}

-- 10.0.0.1 and 10.1.2.3 as inet_addr gives them.
abbrev first_ip : ℕ
first_ip = 10 + 2 ^ 24

abbrev other_ip : ℕ
other_ip = 0x0302010a

no_slash : All (λ c. c ≢ b'/') (codes "10.0.0.1")
no_slash = avoids-All b'/' (codes "10.0.0.1") refl

parse_range-in_example :
    (parse_range read_dotted (codes "10.0.0.1" ++ b'/' ∷ to_string 8) ≡ parsed (masked 8 first_ip))
    × (is_ip_in_range read_dotted (ip_of_number other_ip) (masked 8 first_ip)
        ≡ (ntohl other_ip / 2 ^ (32 - 8) == ntohl first_ip / 2 ^ (32 - 8)))
unfolding read_dotted
parse_range-in_example =
    parse_range-in read_dotted read_dotted-ReadsDotted (codes "10.0.0.1") 8 first_ip other_ip
      no_slash (omega arith) (omega arith) refl (omega arith) (omega arith) (omega arith)
