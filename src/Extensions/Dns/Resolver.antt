-- ===== src/Extensions/Dns/Resolver.antt =====
-- The class dns_resolver of src/extensions/dns.cpp and its queries. The sockets are parameters: each
-- takes what is sent and gives what is read, or `none` where connecting or writing fails. `clock` is
-- time(), `ticks` the clock of the transaction id and `memory` what malloc leaves, by the rounds left.
pub mod Server
pub mod Exchange
pub mod Steps
pub mod Replies
pub mod Chain
pub mod Overrun
use libpeco.Base.{
  ℕ, zero, suc, ◌+◌, ◌%◌, ◌^◌, Bool, true, false, List, [], ◌∷◌, ◌++◌, Option, none, some, Bytes,
  length, take, drop, ltb, ◌==◌, if◌then◌else◌, ◌>>=◌,
}
use libpeco.Net.Peer.{Peer, is_set}
use libpeco.Extensions.Dns.Packet.{
  load16, store16, header_of, Header, Packet, init_dns_packet, pkt_begin, prepare_for_reading,
  prepare_for_sending, set_packet_domain, set_qtype, set_qclass,
}
use libpeco.Extensions.Dns.Answer.{ARecord, CnameRecord, ips, cname}

-- The calls that write a question in a packet.
unfoldable pub asked : Bytes → ℕ → ℕ → Packet → Option Packet
unfolding set_packet_domain set_qtype set_qclass
asked name type class new = do
  p ← set_packet_domain name new
  q ← set_qtype type p
  set_qclass class q

-- The packet that asks for the address of a name.
unfoldable pub query : Bytes → ℕ → ℕ → Bytes → Option Packet
unfolding init_dns_packet asked prepare_for_sending
query memory junk tick name =
    let new = init_dns_packet memory junk in
    do
      p ← asked name 1 1 (record new { header = record (new.header) { trans_id = tick % 2 ^ 16 } })
      some (prepare_for_sending p)

-- The bytes that are sent over UDP, and over TCP with the length first.
unfoldable pub udp_bytes : Packet → Bytes
unfolding pkt_begin
udp_bytes p = take p.pkt_length (pkt_begin p)

unfoldable pub tcp_bytes : Packet → Bytes
unfolding pkt_begin
tcp_bytes p = elim p.lead [
  | some n ↦ take (p.pkt_length + 2) (store16 n ++ pkt_begin p)
  | none ↦ take (p.pkt_length + 2) (pkt_begin p)
]

-- A packet laid over what was read.
unfoldable pub udp_packet : Bytes → Option Packet
unfolding header_of
udp_packet d = header_of d >>= λ h. some (record {
  lead = none;
  header = h;
  body = drop 12 d;
  pkt_length = length d % 2 ^ 16;
  dsize = 0;
})

unfoldable pub tcp_packet : Bytes → Option Packet
unfolding header_of
tcp_packet d = do
  n ← load16 0 d
  h ← header_of (drop 2 d)
  some (record {
    lead = some n;
    header = h;
    body = drop 14 d;
    pkt_length = length d % 2 ^ 16;
    dsize = 0;
  })

-- What parse_dns_packet does with an alias, and with the addresses that it found.
unfoldable pub followed :
    (Bytes → Option (List ARecord)) → Option CnameRecord → Option (List ARecord)
followed resolv none = some []
followed resolv (some c) = if ltb 0 (length c.domain) then resolv c.domain else some []

unfoldable pub parsed_ips :
    (Bytes → Option (List ARecord)) → Packet → List ARecord → Option (List ARecord)
unfolding cname followed
parsed_ips resolv p (a ∷ more) = some (a ∷ more)
parsed_ips resolv p [] = cname p >>= λ r. followed resolv (r.1)

-- parse_dns_packet, with the query that it makes for an alias as an argument.
unfoldable pub parse_dns_packet :
    (Bytes → Option (List ARecord)) → (ℕ → ℕ) → Packet → Option (List ARecord)
unfolding prepare_for_reading ips parsed_ips
parse_dns_packet resolv clock p =
    ips clock (prepare_for_reading p) >>= λ r. parsed_ips resolv (r.0) (r.1)

-- What resolv_by_tcp does with what it read, if it did.
unfoldable pub read_by_tcp :
    (Bytes → Option (List ARecord)) → (ℕ → ℕ) → Option Bytes → Option (List ARecord)
unfolding tcp_packet parse_dns_packet
read_by_tcp resolv clock none = some []
read_by_tcp resolv clock (some r) = tcp_packet r >>= λ p. parse_dns_packet resolv clock p

-- What resolv_by_udp does with a packet, where `again` is the query over TCP.
unfoldable pub parse_or_again :
    Option (List ARecord)
    → (Bytes → Option (List ARecord))
    → (ℕ → ℕ)
    → Packet
    → Option (List ARecord)
unfolding parse_dns_packet
parse_or_again again resolv clock p =
    if p.header.is_truncation == 1 then again else parse_dns_packet resolv clock p

-- What it does with what it read, if it did.
unfoldable pub read_by_udp :
    Option (List ARecord)
    → (Bytes → Option (List ARecord))
    → (ℕ → ℕ)
    → Option Bytes
    → Option (List ARecord)
unfolding udp_packet parse_or_again
read_by_udp again resolv clock none = some []
read_by_udp again resolv clock (some r) = udp_packet r >>= λ p. parse_or_again again resolv clock p

module _ (udp tcp : Bytes → Option Bytes) (clock ticks : ℕ → ℕ) (memory : ℕ → Bytes)
    (junk : ℕ) where
  unfoldable pub resolv_by_tcp : (Bytes → Option (List ARecord)) → ℕ → Bytes → Option (List ARecord)
  unfolding query tcp_bytes read_by_tcp
  resolv_by_tcp resolv f name =
      query (memory f) junk (ticks f) name >>= λ q. read_by_tcp resolv clock (tcp (tcp_bytes q))

  -- resolv_by_udp, which makes at most as many queries as the number says; `none` stands for too
  -- few of them also.
  unfoldable pub resolv_by_udp : ℕ → Bytes → Option (List ARecord)
  unfolding query udp_bytes read_by_udp resolv_by_tcp
  resolv_by_udp zero name = none
  resolv_by_udp (suc f) name = query (memory (suc f)) junk (ticks (suc f)) name >>= λ q.
      read_by_udp (resolv_by_tcp (λ n. resolv_by_udp f n) f name) (λ n. resolv_by_udp f n) clock
        (udp (udp_bytes q))

  unfoldable pub resolv : ℕ → Peer → Bytes → Option (List ARecord)
  unfolding resolv_by_udp is_set
  resolv f dns_server name = if is_set dns_server then resolv_by_udp f name else some []
