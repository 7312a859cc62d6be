-- ===== src/Extensions/Dns/Resolver/Overrun.antt =====
-- Queries for names that the buffer does not hold.
use libpeco.Base.{
  ℕ, ◌+◌, ◌-◌, ◌%◌, ◌^◌, ◌≤◌, ◌<◌, false, Bool-cases, inl, inr, [], ◌++◌, none, some, Bytes, length,
  length-append, length-take-le, length-drop, take, drop, ltb, leb, ◌>>=◌, ◌≡◌, refl, ap, ◌∙◌,
  arith,
}
use libpeco.Net.Peer.{ntohs}
use libpeco.Extensions.Dns.{set_domain}
use libpeco.Extensions.Dns.Packet.{
  store16, Packet, init_dns_packet, write_at, set_packet_domain, set_qtype, set_qclass,
  prepare_for_sending,
}
use libpeco.Extensions.Dns.Packet.Transfer.{write_at-append}
use libpeco.Extensions.Dns.Packet.Question.{IsName, IsName-size}
use libpeco.Extensions.Dns.Resolver.{asked, query}
use libpeco.Extensions.Dns.Resolver.Server.{new_packet}

write_at-none : (n : ℕ) (bs d : Bytes) → length d < n + length bs → write_at n bs d ≡ none
unfolding write_at
write_at-none n bs d h = ground (arith, h)

set_packet_domain-none :
    (name : Bytes) (p : Packet)
    → length p.body < p.pkt_length - 12 + length (set_domain name)
    → set_packet_domain name p ≡ none
unfolding set_packet_domain
set_packet_domain-none name p h =
    rw (write_at-none (p.pkt_length - 12) (set_domain name) p.body h) (ground arith)

set_packet_domain-some :
    (name : Bytes) (p : Packet)
    → length (set_domain name) ≡ length name + 2
    → p.pkt_length ≡ 12
    → length name + 2 ≤ length p.body
    → length name < 2 ^ 15
    → (q : Packet) × (set_packet_domain name p ≡ some q)
      × (q.dsize ≡ length name + 2)
      × (length q.body ≡ length p.body)
unfolding set_packet_domain
set_packet_domain-some name p proper empty room short =
    let w = set_domain name in
    let (rest, e, n) = write_at-append 0 w [] p.body refl (omega (arith, proper, room)) in
    let size : (length name + 2) % 2 ^ 16 ≡ length name + 2 = omega (arith, short) in
    (
      record p {
        header = record (p.header) { qrcode = 0; is_recursive_desired = 1; qdcount = 1 };
        body = w ++ rest;
        pkt_length = (12 + (length name + 2)) % 2 ^ 16;
        dsize = length name + 2;
      },
      rw (empty, e, size) refl,
      refl,
      omega (arith, n, length-append w rest),
    )

-- Behind the name the type or the class does not fit.
set_qtype-set_qclass-none :
    (p : Packet) → length p.body < p.dsize + 4 → (set_qtype 1 p >>= λ q. set_qclass 1 q) ≡ none
unfolding set_qtype set_qclass
set_qtype-set_qclass-none p h =
    let st = store16 (ntohs 1) in
    let n = p.dsize in
    let d = p.body in
    elim (Bool-cases (leb (n + 2) (length d))) [
      | inl k ↦
          let later : leb (n + 2 + 2) (length (take n d ++ (st ++ drop (n + 2) d))) ≡ false =
            ground (
              arith,
              h,
              k,
              length-append (take n d) (st ++ drop (n + 2) d),
              length-take-le n d,
              length-drop (n + 2) d,
            ) in
          rw (k, later) refl
      | inr k ↦ rw k refl
    ]

asked-none :
    (name : Bytes) (p : Packet)
    → length (set_domain name) ≡ length name + 2
    → p.pkt_length ≡ 12
    → length p.body ≡ 500
    → 494 < length name
    → asked name 1 1 p ≡ none
unfolding asked
asked-none name p proper empty size long = elim (Bool-cases (ltb 498 (length name))) [
  | inl h ↦
      ap (λ o. o >>= λ q. set_qtype 1 q >>= λ r. set_qclass 1 r)
        (set_packet_domain-none name p (ground (arith, h, proper, empty, size)))
  | inr h ↦
      let short : length name ≤ 498 = ground (arith, h) in
      let (q, e, d, k) =
        set_packet_domain-some name p proper empty (omega (arith, short, size))
          (omega (arith, short)) in
      ap (λ o. o >>= λ q. set_qtype 1 q >>= λ r. set_qclass 1 r) e
      ∙ set_qtype-set_qclass-none q (omega (arith, d, k, size, long))
]

-- The query for a name of proper labels that is longer than 494 bytes is written behind the buffer.
pub query-none :
    (memory : Bytes) (junk tick : ℕ) (name : Bytes)
    → IsName name
    → length memory ≡ 500
    → 494 < length name
    → query memory junk tick name ≡ none
unfolding query
query-none memory junk tick name n h k =
    ap (λ o. o >>= λ p. some (prepare_for_sending p))
      (unfold init_dns_packet in
        asked-none name (new_packet memory junk (tick % 2 ^ 16)) (IsName-size name n) refl h k)
