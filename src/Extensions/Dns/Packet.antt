-- ===== src/Extensions/Dns/Packet.antt =====
-- The packets of src/extensions/dns.h and dns.cpp. The host is little-endian, and the compiler puts
-- the first bit field of a byte in its low bits. `none` is a read or a write outside of the buffer.
pub mod Layout
pub mod Transfer
pub mod Question
use libpeco.Base.{
  ℕ, zero, suc, ◌+◌, ◌-◌, ◌*◌, ◌/◌, ◌%◌, ◌^◌, List, [], ◌∷◌, ◌++◌, Option, none, some, Bytes,
  length, take, drop, get_elem?, ltb, leb, if◌then◌else◌, ◌>>=◌,
}
use libpeco.Net.Peer.{ntohs}
use libpeco.Extensions.Dns.{get_domain_basic, set_domain}

-- A number of two or four bytes in memory.
abbrev pub store16 : ℕ → Bytes
store16 n = n % 256 ∷ n / 256 % 256 ∷ []

abbrev pub store32 : ℕ → Bytes
store32 n = n % 256 ∷ n / 256 % 256 ∷ n / 2 ^ 16 % 256 ∷ n / 2 ^ 24 % 256 ∷ []

abbrev pub load16 : ℕ → Bytes → Option ℕ
load16 i d = do a ← get_elem? d i; b ← get_elem? d (i + 1); some (a + 256 * b)

abbrev pub load32 : ℕ → Bytes → Option ℕ
load32 i d = do a ← load16 i d; b ← load16 (i + 2) d; some (a + 2 ^ 16 * b)

-- dns_packet_header, with the numbers as the host reads them from memory.
pub record Header : Type 0 where
  pub trans_id : ℕ
  pub is_recursive_desired : ℕ
  pub is_truncation : ℕ
  pub is_authoritative : ℕ
  pub opcode : ℕ
  pub qrcode : ℕ
  pub respcode : ℕ
  pub checking_disabled : ℕ
  pub authenticated : ℕ
  pub reserved : ℕ
  pub is_recursive_available : ℕ
  pub qdcount : ℕ
  pub ancount : ℕ
  pub nscount : ℕ
  pub arcount : ℕ

abbrev pub flags2 : Header → ℕ
flags2 h =
    h.is_recursive_desired
    + 2 * h.is_truncation
    + 4 * h.is_authoritative
    + 8 * h.opcode
    + 128 * h.qrcode

abbrev pub flags3 : Header → ℕ
flags3 h =
    h.respcode
    + 16 * h.checking_disabled
    + 32 * h.authenticated
    + 64 * h.reserved
    + 128 * h.is_recursive_available

-- The twelve bytes of a header in memory.
unfoldable pub header_bytes : Header → Bytes
header_bytes h =
    store16 h.trans_id
    ++ (flags2 h
        ∷ (flags3 h
            ∷ (store16 h.qdcount
                ++ (store16 h.ancount ++ (store16 h.nscount ++ store16 h.arcount)))))

unfoldable pub header_of : Bytes → Option Header
header_of d = do
  id ← load16 0 d
  f ← get_elem? d 2
  g ← get_elem? d 3
  qd ← load16 4 d
  an ← load16 6 d
  ns ← load16 8 d
  ar ← load16 10 d
  some (record {
    trans_id = id;
    is_recursive_desired = f % 2;
    is_truncation = f / 2 % 2;
    is_authoritative = f / 4 % 2;
    opcode = f / 8 % 16;
    qrcode = f / 128 % 2;
    respcode = g % 16;
    checking_disabled = g / 16 % 2;
    authenticated = g / 32 % 2;
    reserved = g / 64 % 2;
    is_recursive_available = g / 128 % 2;
    qdcount = qd;
    ancount = an;
    nscount = ns;
    arcount = ar;
  })

-- dns_packet: `lead` is the number in the two bytes before the header, if the packet begins with
-- them, and `body` the buffer behind the header.
pub record Packet : Type 0 where
  pub lead : Option ℕ
  pub header : Header
  pub body : Bytes
  pub pkt_length : ℕ
  pub dsize : ℕ

abbrev pub zero_header : Header
zero_header = record {
  trans_id = 0;
  is_recursive_desired = 0;
  is_truncation = 0;
  is_authoritative = 0;
  opcode = 0;
  qrcode = 0;
  respcode = 0;
  checking_disabled = 0;
  authenticated = 0;
  reserved = 0;
  is_recursive_available = 0;
  qdcount = 0;
  ancount = 0;
  nscount = 0;
  arcount = 0;
}

-- A new buffer of 514 bytes, of which `memory` is what malloc leaves behind the header; dsize is not
-- set, and has the value `junk`.
unfoldable pub init_dns_packet : Bytes → ℕ → Packet
init_dns_packet memory junk = record {
  lead = some 0;
  header = zero_header;
  body = memory;
  pkt_length = 12;
  dsize = junk;
}

-- The bytes from pkt_begin on.
unfoldable pub pkt_begin : Packet → Bytes
unfolding header_bytes
pkt_begin p = header_bytes p.header ++ p.body

unfoldable pub prepare_for_reading : Packet → Packet
unfolding ntohs
prepare_for_reading p = record p {
  header = record (p.header) {
    trans_id = ntohs p.header.trans_id;
    qdcount = ntohs p.header.qdcount;
    ancount = ntohs p.header.ancount;
    nscount = ntohs p.header.nscount;
    arcount = ntohs p.header.arcount;
  };
}

-- The length is written in the packet's first two bytes, which are the header's where it is first.
unfoldable pub write_length : ℕ → Packet → Packet
write_length n p = elim p.lead [
  | some m ↦ record p { lead = some n }
  | none ↦ record p { header = record (p.header) { trans_id = n } }
]

unfoldable pub prepare_for_sending : Packet → Packet
unfolding write_length prepare_for_reading
prepare_for_sending p = prepare_for_reading (write_length (ntohs p.pkt_length) p)

-- Bytes written at a place behind the header.
unfoldable pub write_at : ℕ → Bytes → Bytes → Option Bytes
write_at n bs d =
    if leb (n + length bs) (length d)
    then some (take n d ++ (bs ++ drop (n + length bs) d))
    else none

-- set_domain of a packet.
unfoldable pub set_packet_domain : Bytes → Packet → Option Packet
unfolding write_at set_domain
set_packet_domain name p = if ltb p.pkt_length 12 then none else (do
  body ← write_at (p.pkt_length - 12) (set_domain name) p.body
  some (record p {
    header = record (p.header) { qrcode = 0; is_recursive_desired = 1; qdcount = 1 };
    body = body;
    pkt_length = (p.pkt_length + (length name + 2)) % 2 ^ 16;
    dsize = (length name + 2) % 2 ^ 16;
  }))

unfoldable pub domain : Packet → Option (Packet × Bytes)
unfolding get_domain_basic
domain p = do
  d ← (if ltb 16 p.pkt_length then get_domain_basic (suc (length p.body)) p.body [] else some [])
  some (record p { dsize = (length d + 2) % 2 ^ 16 }, d)

unfoldable pub qtype : Packet → Option ℕ
qtype p = load16 p.dsize p.body >>= λ n. some (ntohs n)

unfoldable pub set_qtype : ℕ → Packet → Option Packet
unfolding write_at
set_qtype t p = do
  body ← write_at p.dsize (store16 (ntohs t)) p.body
  some (record p { body = body; pkt_length = (p.pkt_length + 2) % 2 ^ 16 })

unfoldable pub qclass : Packet → Option ℕ
qclass p = load16 (p.dsize + 2) p.body >>= λ n. some (ntohs n)

unfoldable pub set_qclass : ℕ → Packet → Option Packet
unfolding write_at
set_qclass c p = do
  body ← write_at (p.dsize + 2) (store16 (ntohs c)) p.body
  some (record p { body = body; pkt_length = (p.pkt_length + 2) % 2 ^ 16 })
