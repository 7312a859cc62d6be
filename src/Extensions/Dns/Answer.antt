-- ===== src/Extensions/Dns/Answer.antt =====
-- The records of an answer in src/extensions/dns.cpp. An address is its text, as in ip_t, and
-- inet_addr of the system a parameter.
pub mod Records
pub mod Alias
use libpeco.Base.{
  ℕ, zero, suc, ◌+◌, ◌*◌, ◌%◌, ◌^◌, bit_or, Bool, true, false, List, [], ◌∷◌, ◌++◌, Option, none,
  some, Bytes, length, drop, ◌==◌, if◌then◌else◌, ◌>>=◌,
}
use libpeco.Net.Ip.{Ip, ntohl, ip_of_number, to_uint32}
use libpeco.Net.Peer.{ntohs}
use libpeco.Extensions.Dns.{count_domain_part, get_domain, set_domain}
use libpeco.Extensions.Dns.Packet.{
  store16, store32, load16, load32, Packet, pkt_begin, write_at, domain,
}

pub record ARecord : Type 0 where
  pub ip : Ip
  pub qclass : ℕ
  pub ttl : ℕ

pub record CnameRecord : Type 0 where
  pub domain : Bytes
  pub qclass : ℕ
  pub ttl : ℕ

-- dns_record_map_basic in memory: the offset of the question's name, a type, the class IN, 30
-- minutes and the length of the data.
abbrev pub record_map_basic : ℕ → ℕ → Bytes
record_map_basic type rlen =
    store16 (ntohs (bit_or 12 0xc000))
    ++ (store16 (ntohs type)
        ++ (store16 (ntohs 1) ++ (store32 (ntohl (30 * 60)) ++ store16 (ntohs rlen))))

-- dns_arecord_map in memory.
abbrev pub arecord_map : ℕ → Bytes
arecord_map address = record_map_basic 1 4 ++ store32 address

-- What set_ips and set_cname set in the header.
abbrev pub with_answers : ℕ → Packet → Packet
with_answers n p = record p {
  header = record (p.header) { qrcode = 0; respcode = 0; ancount = n % 2 ^ 16 };
}

module _ (inet_addr : Bytes → ℕ) where
  -- The loop of set_ips, from a place behind the header on.
  unfoldable pub put_ips : ℕ → List Ip → Bytes → Option Bytes
  unfolding write_at
  put_ips n [] body = some body
  put_ips n (ip ∷ rest) body =
      write_at n (arecord_map (to_uint32 inet_addr ip)) body >>= λ b. put_ips (n + 16) rest b

  unfoldable pub set_ips : List Ip → Packet → Option Packet
  unfolding put_ips
  set_ips ips p = if p.dsize == 0 then some p else (do
    body ← put_ips (p.dsize + 4) ips p.body
    some (record (with_answers (length ips) p) {
      body = body;
      pkt_length = (p.pkt_length + length ips * 16) % 2 ^ 16;
    }))

unfoldable pub set_cname : Bytes → Packet → Option Packet
unfolding write_at set_domain
set_cname name p = if p.dsize == 0 then some p else (do
  basic ← write_at (p.dsize + 4) (record_map_basic 5 (length name + 2)) p.body
  body ← write_at (p.dsize + 16) (set_domain name) basic
  some (record (with_answers 1 p) {
    body = body;
    pkt_length = (p.pkt_length + (12 + length name + 2)) % 2 ^ 16;
  }))

-- dns_map_basic of a record, with the bytes of its data and all behind them.
pub record MapBasic : Type 0 where
  pub qtype : ℕ
  pub qclass : ℕ
  pub ttl : ℕ
  pub rlen : ℕ
  pub data_on : Bytes

-- A record, whose name is skipped and whose basic part is read.
unfoldable pub map_basic : Bytes → Option MapBasic
unfolding count_domain_part
map_basic p = do
  ds ← count_domain_part (suc (length p)) p 0
  t ← load16 0 (drop ds p)
  c ← load16 2 (drop ds p)
  ttl ← load32 4 (drop ds p)
  r ← load16 8 (drop ds p)
  some (record {
    qtype = ntohs t;
    qclass = ntohs c;
    ttl = ntohl ttl;
    rlen = ntohs r;
    data_on = drop (ds + 10) p;
  })

-- The A record in a record, if it is one.
unfoldable pub a_record_of : ℕ → MapBasic → Option (List ARecord)
a_record_of now m =
    if m.qtype == 1
    then (do
      a ← load32 0 m.data_on
      some (record { ip = ip_of_number a; qclass = m.qclass; ttl = now + m.ttl } ∷ []))
    else some []

-- The loop of ips over as many records as the first number says; `clock` tells the time by the
-- number of the records left.
unfoldable pub read_ips : (ℕ → ℕ) → ℕ → Bytes → Option (List ARecord)
unfolding map_basic a_record_of
read_ips clock zero p = some []
read_ips clock (suc c) p = do
  m ← map_basic p
  a ← a_record_of (clock c) m
  rest ← read_ips clock c (drop m.rlen m.data_on)
  some (a ++ rest)

-- How the reading of records begins: the packet with its dsize, and the records.
unfoldable pub records_of : Packet → Option (Packet × Bytes)
unfolding domain
records_of p =
    let sized = if p.dsize == 0 then (domain p >>= λ r. some (r.0)) else some p in
    sized >>= λ q. some (q, drop (q.dsize + 4) q.body)

abbrev pub record_count : Packet → ℕ
record_count p = (p.header.ancount + p.header.nscount) % 2 ^ 16

unfoldable pub ips : (ℕ → ℕ) → Packet → Option (Packet × List ARecord)
unfolding records_of read_ips
ips clock p = do
  r ← records_of p
  found ← read_ips clock (record_count (r.0)) (r.1)
  some (r.0, found)

-- The loop of cname: the first CNAME record, or none.
unfoldable pub read_cname : Bytes → ℕ → Bytes → Option (Option CnameRecord)
unfolding map_basic get_domain
read_cname b zero p = some none
read_cname b (suc c) p = map_basic p >>= λ m.
    let rest = read_cname b c (drop m.rlen m.data_on) in
    if m.qtype == 5
    then (do
      d ← get_domain (suc (length m.data_on)) b m.data_on []
      some (some (record { domain = d; qclass = m.qclass; ttl = m.ttl })))
    else rest

unfoldable pub cname : Packet → Option (Packet × Option CnameRecord)
unfolding records_of read_cname pkt_begin
cname p = do
  r ← records_of p
  c ← read_cname (pkt_begin (r.0)) (record_count (r.0)) (r.1)
  some (r.0, c)
