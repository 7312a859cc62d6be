-- ===== src/Extensions/Dns/Packet/Transfer.antt =====
-- What is written in a packet, and what arrives of it.
use libpeco.Base.{
  ℕ, suc, ◌+◌, ◌*◌, ◌/◌, ◌%◌, ◌^◌, ◌≤◌, ◌<◌, true, ◌∷◌, ◌++◌, Option, none, some, Bytes, length,
  length-append, length-drop, take, drop, take_append, take-append, drop-append, leb, ◌>>=◌, ◌≡◌,
  refl, ap, ◌∙◌, arith,
}
use libpeco.Net.Peer.{ntohs}
use libpeco.Extensions.Dns.Packet.{
  Header, header_bytes, header_of, Packet, pkt_begin, prepare_for_reading, prepare_for_sending,
  write_length, write_at,
}
use libpeco.Extensions.Dns.Packet.Layout.{IsHeader, stored16, header_of-header_bytes}
use libpeco.Extensions.Dns.Resolver.{udp_bytes, tcp_bytes, udp_packet, tcp_packet}

-- Bytes that are written behind `a` stand there, before what is left of the rest.
pub write_at-append :
    (n : ℕ) (bs a m : Bytes)
    → n ≡ length a
    → length bs ≤ length m
    → (rest : Bytes) × (write_at n bs (a ++ m) ≡ some (a ++ (bs ++ rest)))
      × (length rest + length bs ≡ length m)
unfolding write_at
write_at-append n bs a m e h =
    let fits : leb (length a + length bs) (length (a ++ m)) ≡ true =
      ground (arith, length-append a m) in
    let behind : drop (length a + length bs) (a ++ m) ≡ drop (length bs) m =
      drop-append (length a + length bs) (length bs) a m refl in
    (
      drop (length bs) m,
      rw (e, fits, take_append a m, behind) refl,
      omega (arith, length-drop (length bs) m),
    )

pub ntohs-ntohs : (n : ℕ) → n < 2 ^ 16 → ntohs (ntohs n) ≡ n
unfolding ntohs
ntohs-ntohs n h = omega arith

pub ntohs-lt : (n : ℕ) → ntohs n < 2 ^ 16
unfolding ntohs
ntohs-lt n = omega arith

-- A header with the numbers of two bytes as they are sent.
abbrev pub swapped : Header → Header
swapped h = record h {
  trans_id = ntohs h.trans_id;
  qdcount = ntohs h.qdcount;
  ancount = ntohs h.ancount;
  nscount = ntohs h.nscount;
  arcount = ntohs h.arcount;
}

swapped-IsHeader : (h : Header) → IsHeader h → IsHeader (swapped h)
swapped-IsHeader h (a, (b, (c, (d, (e, (f, (g, (i, (j, (k, (l, (m, (n, (o, p)))))))))))))) = (
  ntohs-lt h.trans_id,
  (
    b,
    (
      c,
      (
        d,
        (
          e,
          (
            f,
            (
              g,
              (
                i,
                (
                  j,
                  (
                    k,
                    (
                      l,
                      (
                        ntohs-lt h.qdcount,
                        (ntohs-lt h.ancount, (ntohs-lt h.nscount, ntohs-lt h.arcount)),
                      ),
                    ),
                  ),
                ),
              ),
            ),
          ),
        ),
      ),
    ),
  ),
)

swapped-swapped : (h : Header) → IsHeader h → swapped (swapped h) ≡ h
swapped-swapped h (a, (b, (c, (d, (e, (f, (g, (i, (j, (k, (l, (m, (n, (o, p)))))))))))))) =
    rw
      (
        ntohs-ntohs h.trans_id a,
        ntohs-ntohs h.qdcount m,
        ntohs-ntohs h.ancount n,
        ntohs-ntohs h.nscount o,
        ntohs-ntohs h.arcount p,
      )
      refl

udp_packet-header_of :
    (d : Bytes) (h : Header)
    → header_of d ≡ some h
    → udp_packet d
      ≡ some (record {
        lead = none;
        header = h;
        body = drop 12 d;
        pkt_length = length d % 2 ^ 16;
        dsize = 0;
      })
unfolding udp_packet
udp_packet-header_of d h e =
    ap
      (λ o. o >>= λ k. some (record {
        lead = none;
        header = k;
        body = drop 12 d;
        pkt_length = length d % 2 ^ 16;
        dsize = 0;
      }))
      e

tcp_packet-header_of :
    (a b : ℕ) (d : Bytes) (h : Header)
    → header_of d ≡ some h
    → tcp_packet (a ∷ b ∷ d)
      ≡ some (record {
        lead = some (a + 256 * b);
        header = h;
        body = drop 12 d;
        pkt_length = length (a ∷ b ∷ d) % 2 ^ 16;
        dsize = 0;
      })
unfolding tcp_packet
tcp_packet-header_of a b d h e =
    ap
      (λ o. o >>= λ k. some (record {
        lead = some (a + 256 * b);
        header = k;
        body = drop 12 d;
        pkt_length = length (a ∷ b ∷ d) % 2 ^ 16;
        dsize = 0;
      }))
      e

-- A packet as it arrives: nothing is left behind its length, and the size of its name is not known.
abbrev pub arrived : Option ℕ → ℕ → Packet → Bytes → Packet
arrived lead n p d = record { lead = lead; header = p.header; body = d; pkt_length = n; dsize = 0 }

-- Reading turns the numbers of an arrived header back.
pub prepare_for_reading-swapped :
    (lead : Option ℕ) (n : ℕ) (p : Packet) (d : Bytes)
    → IsHeader p.header
    → prepare_for_reading (record (arrived lead n p d) { header = swapped p.header })
      ≡ arrived lead n p d
unfolding prepare_for_reading
prepare_for_reading-swapped lead n p d h = rw (swapped-swapped p.header h) refl

module _ (p : Packet) (d rest : Bytes) (header_fits : IsHeader p.header)
    (holds : p.body ≡ d ++ rest) (size : p.pkt_length ≡ 12 + length d)
    (short : length d + 14 < 2 ^ 16) (m : ℕ) (behind_length : p.lead ≡ some m) where
  sent :
      prepare_for_sending p
      ≡ record p { lead = some (ntohs p.pkt_length); header = swapped p.header }
  unfolding prepare_for_sending write_length prepare_for_reading
  sent = rw behind_length refl

  sent_bytes :
      take (12 + length d) (header_bytes (swapped p.header) ++ p.body)
      ≡ header_bytes (swapped p.header) ++ d
  unfolding header_bytes
  sent_bytes =
      ap (λ b. take (12 + length d) (header_bytes (swapped p.header) ++ b)) holds
      ∙ take-append (12 + length d) (length d) (header_bytes (swapped p.header)) (d ++ rest) refl
      ∙ ap (λ b. header_bytes (swapped p.header) ++ b) (take_append d rest)

  header_read : header_of (header_bytes (swapped p.header) ++ d) ≡ some (swapped p.header)
  header_read = header_of-header_bytes (swapped p.header) d (swapped-IsHeader p.header header_fits)

  pub udp_packet-udp_bytes :
      udp_packet (udp_bytes (prepare_for_sending p))
      ≡ some (record (arrived none (12 + length d) p d) { header = swapped p.header })
  unfolding udp_bytes pkt_begin
  udp_packet-udp_bytes =
      let kept : length (header_bytes (swapped p.header) ++ d) % 2 ^ 16 ≡ 12 + length d =
        unfold header_bytes in omega (arith, short) in
      let same : udp_bytes (prepare_for_sending p) ≡ header_bytes (swapped p.header) ++ d =
        rw (sent, size) sent_bytes in
      rw
        (
          same,
          udp_packet-header_of (header_bytes (swapped p.header) ++ d) (swapped p.header)
              header_read,
          kept,
        )
        (unfold header_bytes in refl)

  pub tcp_packet-tcp_bytes :
      tcp_packet (tcp_bytes (prepare_for_sending p))
      ≡ some (record (arrived (some (ntohs (12 + length d))) (14 + length d) p d) {
        header = swapped p.header;
      })
  unfolding tcp_bytes pkt_begin
  tcp_packet-tcp_bytes =
      let n = ntohs (12 + length d) in
      let kept : suc (suc (length (header_bytes (swapped p.header) ++ d))) % 2 ^ 16
          ≡ 14 + length d =
        unfold header_bytes in omega (arith, short) in
      let two_more : 12 + length d + 2 ≡ suc (suc (12 + length d)) = omega arith in
      let same : tcp_bytes (prepare_for_sending p)
          ≡ n % 256 ∷ n / 256 % 256 ∷ (header_bytes (swapped p.header) ++ d) =
        rw (sent, size, two_more) (ap (λ b. n % 256 ∷ n / 256 % 256 ∷ b) sent_bytes) in
      rw
        (
          same,
          tcp_packet-header_of (n % 256) (n / 256 % 256) (header_bytes (swapped p.header) ++ d)
              (swapped p.header) header_read,
          stored16 n (ntohs-lt (12 + length d)),
          kept,
        )
        (unfold header_bytes in refl)
