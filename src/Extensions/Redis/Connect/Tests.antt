-- ===== src/Extensions/Redis/Connect/Tests.antt =====
-- Connection strings with and without a scheme.
use libpeco.Base.{
  ℕ, ◌+◌, ◌^◌, Bool, false, ◌∷◌, ◌++◌, none, some, Bytes, codes, length, avoids, avoids-All, ◌≡◌,
  refl, pos, arith,
}
use mathlib.Core.List.{cons-ne-nil}
use libpeco.Text.Split.{find, find_in}
use libpeco.Text.Number.{to_string}
use libpeco.Text.Number.RoundTrip.{length-to_string}
use libpeco.Net.Ip.{ip_of_number}
use libpeco.Net.Ip.Reader.{read_dotted, read_dotted-ReadsDotted}
use libpeco.Net.Peer.{peer_of}
use libpeco.Extensions.Redis.Connect.{redis_connector, connect_info}
use libpeco.Extensions.Redis.Connect.Parts.{IsPart}
use libpeco.Extensions.Redis.Connect.Printed.{ReadsNumbers, redis_connector-print}

abbrev read_all : Bytes → ℕ × Bool
read_all s = (length s, false)

read_all-ReadsNumbers : ReadsNumbers read_all
read_all-ReadsNumbers n h = (length-to_string n, refl)

-- 10.0.0.1
abbrev ten : ℕ
ten = 10 + 2 ^ 24

part :
    (c : ℕ) (s : Bytes)
    → avoids b'/' (c ∷ s) ≡ Bool.true
    → avoids b'@' (c ∷ s) ≡ Bool.true
    → avoids 0 (c ∷ s) ≡ Bool.true
    → IsPart (c ∷ s)
part c s h k l = (
  cons-ne-nil c s,
  (avoids-All b'/' (c ∷ s) h, (avoids-All b'@' (c ∷ s) k, avoids-All 0 (c ∷ s) l)),
)

redis_connector-print_example :
    (redis_connector read_dotted read_all (
        codes "redis://"
        ++ ((codes "'secret'" ++ b'@' ∷ (peer_of (ip_of_number ten) 6380).format)
            ++ b'/' ∷ to_string 2))
      ≡ some (record {
        server_info = peer_of (ip_of_number ten) 6380;
        password = codes "'secret'";
        db = pos 2;
      }))
    × (redis_connector read_dotted read_all (
          codes "redis://" ++ ((codes "'secret'" ++ b'@' ∷ ip_of_number ten) ++ b'/' ∷ to_string 2))
        ≡ some (record {
          server_info = peer_of (ip_of_number ten) 6379;
          password = codes "'secret'";
          db = pos 2;
        }))
redis_connector-print_example =
    redis_connector-print read_dotted read_dotted-ReadsDotted read_all read_all-ReadsNumbers
      (codes "'secret'") ten 6380 2 (part b'\'' (codes "secret'") refl refl refl) (omega arith)
      (omega arith) (omega arith)

-- Without a scheme the constructor throws.
no_scheme : redis_connector read_dotted read_all (codes "10.0.0.1:6379") ≡ none
unfolding redis_connector connect_info find find_in
no_scheme = refl
