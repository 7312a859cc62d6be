-- ===== src/Extensions/Dns/Tests.antt =====
-- A resolver and a server at concrete names: www.peco.io is an alias of peco.io, whose addresses are
-- sent over TCP.
use libpeco.Base.{
  ℕ, zero, suc, ◌+◌, ◌<◌, Bool, List, [], ◌∷◌, none, some, Bytes, codes, same_string, avoids-All,
  All, length, if◌then◌else◌, ◌≡◌, refl, arith,
}
use libpeco.Net.Ip.Reader.{read_dotted, read_dotted-ReadsDotted}
use libpeco.Net.Peer.{Peer, peer_of, is_set}
use libpeco.Extensions.Dns.Laws.{IsLabel, dotted}
use libpeco.Extensions.Dns.Packet.Question.{IsName}
use libpeco.Extensions.Dns.Answer.Records.{a_records}
use libpeco.Extensions.Dns.Resolver.{query, resolv}
use libpeco.Extensions.Dns.Resolver.Server.{Answer, addresses, alias, udp_server, tcp_server}
use libpeco.Extensions.Dns.Resolver.Chain.{direct, follow, resolv-Leads}
use libpeco.Extensions.Dns.Resolver.Overrun.{query-none}

abbrev peco_io : Bytes
peco_io = dotted (codes "peco") (codes "io" ∷ [])

abbrev www_peco_io : Bytes
www_peco_io = dotted (codes "www") (codes "peco" ∷ codes "io" ∷ [])

abbrev zone : Bytes → Answer
zone name =
    if same_string name www_peco_io then alias peco_io else addresses (16777343 ∷ 33554560 ∷ [])

abbrev is_long : Bytes → Bool
is_long name = same_string name peco_io

abbrev zeros : ℕ → Bytes
zeros zero = []
zeros (suc n) = 0 ∷ zeros n

length-zeros : (n : ℕ) → length (zeros n) ≡ n
length-zeros zero = refl
length-zeros (suc n) = omega (arith, length-zeros n)

abbrev clock : ℕ → ℕ
clock i = 1000 + i

server : Peer
server = peer_of (codes "127.0.0.1") 53

peco_io-IsName : IsName peco_io
peco_io-IsName = (
  codes "peco",
  codes "io" ∷ [],
  refl,
  (
    (omega arith, (omega arith, avoids-All b'.' (codes "peco") refl)),
    ((omega arith, (omega arith, avoids-All b'.' (codes "io") refl)), tt),
  ),
  (omega arith, (omega arith, tt)),
)

www_peco_io-IsName : IsName www_peco_io
www_peco_io-IsName = (
  codes "www",
  codes "peco" ∷ codes "io" ∷ [],
  refl,
  (
    (omega arith, (omega arith, avoids-All b'.' (codes "www") refl)),
    (
      (omega arith, (omega arith, avoids-All b'.' (codes "peco") refl)),
      ((omega arith, (omega arith, avoids-All b'.' (codes "io") refl)), tt),
    ),
  ),
  (omega arith, (omega arith, (omega arith, tt))),
)

resolv-Leads_example :
    resolv
      (udp_server read_dotted zone is_long (zeros 500) 7)
      (tcp_server read_dotted zone is_long (zeros 500) 7)
      clock
      clock
      (λ f. zeros 500)
      7
      (2 + 1)
      server
      www_peco_io
    ≡ some (a_records clock (16777343 ∷ 33554560 ∷ []))
resolv-Leads_example =
    resolv-Leads read_dotted read_dotted-ReadsDotted zone is_long clock clock (λ f. zeros 500) 7
      (λ f. length-zeros 500) server www_peco_io (16777343 ∷ 33554560 ∷ []) 2 1
      (unfold server peer_of is_set in refl)
      (follow www_peco_io-IsName (peco_io-IsName, omega arith) refl
        (direct peco_io-IsName ((omega arith, (omega arith, tt)), omega arith, omega arith) refl))

abbrev sixty : ℕ → Bytes
sixty zero = []
sixty (suc n) = b'a' ∷ sixty n

-- A name of nine labels with sixty bytes each.
abbrev labels_of : ℕ → List Bytes
labels_of zero = []
labels_of (suc n) = sixty 60 ∷ labels_of n

labels_of-IsLabel : (n : ℕ) → All IsLabel (labels_of n)
labels_of-IsLabel zero = tt
labels_of-IsLabel (suc n) =
    ((omega arith, (omega arith, avoids-All b'.' (sixty 60) refl)), labels_of-IsLabel n)

labels_of-length : (n : ℕ) → All (λ l. length l < 64) (labels_of n)
labels_of-length zero = tt
labels_of-length (suc n) = (omega arith, labels_of-length n)

long_name : Bytes
long_name = dotted (sixty 60) (labels_of 8)

query-none_example : query (zeros 500) 7 9 long_name ≡ none
query-none_example =
    query-none (zeros 500) 7 9 long_name
      (sixty 60, labels_of 8, unfold long_name in refl, labels_of-IsLabel 9, labels_of-length 9)
      (length-zeros 500) (unfold long_name in omega arith)
