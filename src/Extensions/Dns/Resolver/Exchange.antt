-- ===== src/Extensions/Dns/Resolver/Exchange.antt =====
-- The packets that the resolver and a server send each other.
use libpeco.Base.{
  ℕ, ◌+◌, ◌^◌, ◌≤◌, ◌<◌, [], ◌++◌, append_assoc, Option, none, some, Bytes, length, length-append,
  ◌≡◌, refl, sym, ap, ◌∙◌, arith,
}
use libpeco.Net.Peer.{ntohs}
use libpeco.Extensions.Dns.{set_domain}
use libpeco.Extensions.Dns.Packet.{
  store16, Header, zero_header, Packet, init_dns_packet, prepare_for_reading, prepare_for_sending,
}
use libpeco.Extensions.Dns.Packet.Layout.{IsHeader}
use libpeco.Extensions.Dns.Packet.Transfer.{
  swapped, arrived, prepare_for_reading-swapped, udp_packet-udp_bytes, tcp_packet-tcp_bytes,
}
use libpeco.Extensions.Dns.Packet.Question.{IsName, IsName-size, asked-with_question}
use libpeco.Extensions.Dns.Resolver.{asked, udp_bytes, tcp_bytes, udp_packet, tcp_packet}
use libpeco.Extensions.Dns.Resolver.Server.{new_packet}

-- A packet with a question, some records and what is left of its buffer.
abbrev pub header_with : ℕ → ℕ → ℕ → Header
header_with id truncated n = record zero_header {
  trans_id = id;
  is_recursive_desired = 1;
  is_truncation = truncated;
  qdcount = 1;
  ancount = n;
}

abbrev pub question_bytes : Bytes → Bytes
question_bytes name = set_domain name ++ (store16 (ntohs 1) ++ store16 (ntohs 1))

abbrev pub packet_with : ℕ → Bytes → ℕ → ℕ → Bytes → Bytes → Packet
packet_with id name truncated n records rest = record {
  lead = some 0;
  header = header_with id truncated n;
  body = question_bytes name ++ (records ++ rest);
  pkt_length = 18 + length name + length records;
  dsize = length name + 2;
}

pub header_with-IsHeader :
    (id truncated n : ℕ)
    → id < 2 ^ 16
    → truncated < 2
    → n < 2 ^ 16
    → IsHeader (header_with id truncated n)
header_with-IsHeader id truncated n h k l = (
  h,
  (
    omega arith,
    (
      k,
      (
        omega arith,
        (
          omega arith,
          (
            omega arith,
            (
              omega arith,
              (
                omega arith,
                (
                  omega arith,
                  (omega arith, (omega arith, (omega arith, (l, (omega arith, omega arith))))),
                ),
              ),
            ),
          ),
        ),
      ),
    ),
  ),
)

pub asked-packet_with :
    (memory : Bytes) (junk id : ℕ) (name : Bytes)
    → IsName name
    → length memory ≡ 500
    → length name ≤ 494
    → (rest : Bytes) × (asked name 1 1 (new_packet memory junk id)
        ≡ some (packet_with id name 0 0 [] rest))
      × (length rest + (length name + 6) ≡ 500)
unfolding init_dns_packet
asked-packet_with memory junk id name n h k =
    let exact : 18 + length name + 0 ≡ 18 + length name = omega arith in
    let (rest, e, s) =
      asked-with_question name 1 1 (new_packet memory junk id) (IsName-size name n) refl
        (omega (arith, h, k)) (omega (arith, h)) in
    (
      rest,
      e
          ∙ rw (append_assoc (set_domain name) (store16 (ntohs 1) ++ store16 (ntohs 1)) rest, exact)
              refl,
      s ∙ h,
    )

-- A packet with a question and records arrives as it was, and its parts are read.
module _ (id truncated n : ℕ) (name records rest : Bytes) (proper : IsName name)
    (id_fits : id < 2 ^ 16) (flag : truncated < 2) (count : n < 2 ^ 16)
    (short : length name + length records ≤ 494) where
  abbrev sent_bytes : Bytes
  sent_bytes = question_bytes name ++ records

  size : length (question_bytes name ++ records) ≡ 6 + length name + length records
  size = omega (
    arith,
    IsName-size name proper,
    length-append (question_bytes name) records,
    length-append (set_domain name) (store16 (ntohs 1) ++ store16 (ntohs 1)),
  )

  pub udp_packet-packet_with :
      (d : Packet) × (udp_packet
          (udp_bytes (prepare_for_sending (packet_with id name truncated n records rest)))
        ≡ some d)
      × (prepare_for_reading d
          ≡ arrived none
              (18 + length name + length records)
              (packet_with id name truncated n records rest)
              (question_bytes name ++ records))
      × (d.header.is_truncation ≡ truncated)
  udp_packet-packet_with =
      let p = packet_with id name truncated n records rest in
      let d = question_bytes name ++ records in
      let fits = header_with-IsHeader id truncated n id_fits flag count in
      (
        record (arrived none (12 + length d) p d) { header = swapped p.header },
        udp_packet-udp_bytes p d rest fits (sym (append_assoc (question_bytes name) records rest))
            (omega (arith, size)) (omega (arith, size, short)) 0 refl,
        prepare_for_reading-swapped none (12 + length d) p d fits
            ∙ ap (λ k. arrived none k p d) (omega (arith, size)),
        refl,
      )

  pub tcp_packet-packet_with :
      (d : Packet) × (lead : Option ℕ) × (tcp_packet
          (tcp_bytes (prepare_for_sending (packet_with id name truncated n records rest)))
        ≡ some d)
      × (prepare_for_reading d
          ≡ arrived lead
              (20 + length name + length records)
              (packet_with id name truncated n records rest)
              (question_bytes name ++ records))
  tcp_packet-packet_with =
      let p = packet_with id name truncated n records rest in
      let d = question_bytes name ++ records in
      let lead = some (ntohs (12 + length d)) in
      let fits = header_with-IsHeader id truncated n id_fits flag count in
      (
        record (arrived lead (14 + length d) p d) { header = swapped p.header },
        lead,
        tcp_packet-tcp_bytes p d rest fits (sym (append_assoc (question_bytes name) records rest))
            (omega (arith, size)) (omega (arith, size, short)) 0 refl,
        prepare_for_reading-swapped lead (14 + length d) p d fits
            ∙ ap (λ k. arrived lead k p d) (omega (arith, size)),
      )
