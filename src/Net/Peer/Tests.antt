-- ===== src/Net/Peer/Tests.antt =====
-- A peer, with the reader of dotted decimal addresses and a strtod that reads to the end.
use libpeco.Base.{ℕ, ◌+◌, ◌^◌, Bool, false, some, Bytes, length, ◌≡◌, refl, arith}
use libpeco.Text.Number.RoundTrip.{length-to_string}
use libpeco.Net.Ip.{ip_of_number}
use libpeco.Net.Ip.Reader.{read_dotted, read_dotted-ReadsDotted}
use libpeco.Net.Peer.{peer_of, peer_of_sockaddr, to_sockaddr, parse_peer}
use libpeco.Net.Peer.Laws.{ReadsPorts, peer_of-back}

abbrev read_all : Bytes → ℕ × Bool
read_all s = (length s, false)

read_all-ReadsPorts : ReadsPorts read_all
read_all-ReadsPorts n h = (length-to_string n, refl)

-- 127.0.0.1
abbrev localhost : ℕ
localhost = 127 + 2 ^ 24

peer_of-back_example :
    (parse_peer read_dotted read_all ((peer_of (ip_of_number localhost) 6379).format)
      ≡ some (peer_of (ip_of_number localhost) 6379))
    × (peer_of_sockaddr (to_sockaddr read_dotted (peer_of (ip_of_number localhost) 6379))
        ≡ peer_of (ip_of_number localhost) 6379)
peer_of-back_example =
    peer_of-back read_all read_all-ReadsPorts read_dotted read_dotted-ReadsDotted localhost 6379
      (omega arith) (omega arith)
