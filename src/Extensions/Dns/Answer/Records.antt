-- ===== src/Extensions/Dns/Answer/Records.antt =====
-- The A records that are written in a packet are read back.
use libpeco.Base.{
  ℕ, ◌+◌, ◌*◌, ◌%◌, ◌^◌, ◌≤◌, ◌<◌, false, List, [], ◌∷◌, ◌++◌, append_assoc, map, some, Bytes, All,
  length, length-append, length-map, drop, drop_append, ◌==◌, ◌>>=◌, ◌≡◌, refl, sym, ap, ◌∙◌, arith,
}
use libpeco.Net.Ip.{ntohl, ip_of_number}
use libpeco.Net.Ip.Laws.{ReadsDotted, to_uint32-ip_of_number}
use libpeco.Net.Peer.{ntohs}
use libpeco.Extensions.Dns.{count_domain_part, set_domain}
use libpeco.Extensions.Dns.Packet.{store16, store32, Packet}
use libpeco.Extensions.Dns.Packet.Layout.{stored16, stored32}
use libpeco.Extensions.Dns.Packet.Transfer.{write_at-append, ntohs-ntohs, ntohs-lt}
use libpeco.Extensions.Dns.Packet.Question.{IsName, IsName-size, domain-with_question}
use libpeco.Extensions.Dns.Answer.{
  ARecord, record_map_basic, arecord_map, with_answers, put_ips, set_ips, map_basic, a_record_of,
  read_ips, records_of, record_count, ips,
}

abbrev pub address_bytes : List ℕ → Bytes
address_bytes [] = []
address_bytes (a ∷ us) = arecord_map a ++ address_bytes us

-- The records that are read for some addresses.
abbrev pub a_records : (ℕ → ℕ) → List ℕ → List ARecord
a_records clock [] = []
a_records clock (a ∷ more) =
    record { ip = ip_of_number a; qclass = 1; ttl = clock (length more) + 1800 }
    ∷ a_records clock more

pub length-address_bytes : (us : List ℕ) → length (address_bytes us) ≡ length us * 16
length-address_bytes [] = refl
length-address_bytes (a ∷ more) = omega (arith, length-address_bytes more)

record_map_basic_bytes :
    (type rlen : ℕ)
    → record_map_basic type rlen
      ≡ 192 ∷ 12 ∷ (store16 (ntohs type) ++ (0 ∷ 1 ∷ 0 ∷ 0 ∷ 7 ∷ 8 ∷ store16 (ntohs rlen)))
unfolding ntohs ntohl
record_map_basic_bytes type rlen = refl

-- The basic part of a record that the code writes.
pub map_basic-record_map_basic :
    (type rlen : ℕ) (s : Bytes)
    → type < 2 ^ 16
    → rlen < 2 ^ 16
    → map_basic (record_map_basic type rlen ++ s)
      ≡ some (record { qtype = type; qclass = 1; ttl = 1800; rlen = rlen; data_on = s })
unfolding map_basic count_domain_part
map_basic-record_map_basic type rlen s ht hr =
    let one : ntohs 256 ≡ 1 = unfold ntohs in refl in
    let half_an_hour : ntohl 134676480 ≡ 1800 = unfold ntohl in refl in
    ap (λ t. map_basic (t ++ s)) (record_map_basic_bytes type rlen)
    ∙ rw
        (
          one,
          half_an_hour,
          stored16 (ntohs type) (ntohs-lt type),
          stored16 (ntohs rlen) (ntohs-lt rlen),
          ntohs-ntohs type ht,
          ntohs-ntohs rlen hr,
        )
        refl

module _ (inet_addr : Bytes → ℕ) (reads : ReadsDotted inet_addr) where
  put_ips-append :
      (us : List ℕ) (n : ℕ) (a m : Bytes)
      → All (λ x. x < 2 ^ 32) us
      → n ≡ length a
      → length us * 16 ≤ length m
      → (rest : Bytes) × (put_ips inet_addr n (map ip_of_number us) (a ++ m)
          ≡ some (a ++ (address_bytes us ++ rest)))
        × (length rest + length us * 16 ≡ length m)
  unfolding put_ips
  put_ips-append [] n a m h e k = (m, refl, omega arith)
  put_ips-append (x ∷ more) n a m h e k =
      let (r1, e1, n1) = write_at-append n (arecord_map x) a m e (omega (arith, k)) in
      let (r2, e2, n2) =
        put_ips-append more (n + 16) (a ++ arecord_map x) r1 h.1
          (omega (arith, e, length-append a (arecord_map x))) (omega (arith, k, n1)) in
      let later : put_ips inet_addr (n + 16) (map ip_of_number more) (a ++ (arecord_map x ++ r1))
          ≡ some (a ++ (arecord_map x ++ (address_bytes more ++ r2))) =
        ap (put_ips inet_addr (n + 16) (map ip_of_number more))
          (sym (append_assoc a (arecord_map x) r1))
        ∙ e2
        ∙ ap some (append_assoc a (arecord_map x) (address_bytes more ++ r2)) in
      (r2, rw (to_uint32-ip_of_number inet_addr reads x h.0, e1) later, omega (arith, n1, n2))

  -- The records of the addresses are appended to the bytes that a packet has.
  pub set_ips-append :
      (us : List ℕ) (p : Packet) (a m : Bytes)
      → All (λ x. x < 2 ^ 32) us
      → 0 < p.dsize
      → p.body ≡ a ++ m
      → length a ≡ p.dsize + 4
      → length us * 16 ≤ length m
      → p.pkt_length + length us * 16 < 2 ^ 16
      → (rest : Bytes) × (set_ips inet_addr (map ip_of_number us) p
          ≡ some (record (with_answers (length us) p) {
            body = a ++ (address_bytes us ++ rest);
            pkt_length = p.pkt_length + length us * 16;
          }))
  unfolding set_ips
  set_ips-append us p a m h d b e k short =
      let (rest, e1, n1) = put_ips-append us (p.dsize + 4) a m h (sym e) k in
      let sized : (p.dsize == 0) ≡ false = ground (arith, d) in
      let kept : (p.pkt_length + length us * 16) % 2 ^ 16 ≡ p.pkt_length + length us * 16 =
        omega (arith, short) in
      (rest, rw (sized, b, e1, length-map ip_of_number us, kept) refl)

-- The loop of ips reads the records of the addresses.
read_ips-address_bytes :
    (clock : ℕ → ℕ) (us : List ℕ) (s : Bytes)
    → All (λ x. x < 2 ^ 32) us
    → read_ips clock (length us) (address_bytes us ++ s) ≡ some (a_records clock us)
unfolding read_ips a_record_of
read_ips-address_bytes clock [] s h = refl
read_ips-address_bytes clock (a ∷ more) s h =
    let basic =
      map_basic-record_map_basic 1 4 (store32 a ++ (address_bytes more ++ s)) (omega arith)
        (omega arith) in
    ap
      (λ o. o >>= λ m. a_record_of (clock (length more)) m >>= λ found.
        read_ips clock (length more) (drop m.rlen m.data_on) >>= λ rest. some (found ++ rest))
      basic
    ∙ rw (stored32 a h.0, read_ips-address_bytes clock more s h.1) refl

-- Behind a question stand the records.
behind_question :
    (name : Bytes) (type class : ℕ) (d s : Bytes)
    → IsName name
    → d ≡ set_domain name ++ (store16 (ntohs type) ++ (store16 (ntohs class) ++ s))
    → drop (length name + 2 + 4) d ≡ s
behind_question name type class d s n b =
    let w = set_domain name in
    let q = store16 (ntohs type) ++ store16 (ntohs class) in
    ap (drop (length name + 2 + 4)) (b ∙ sym (append_assoc w q s))
    ∙ ap (λ i. drop i ((w ++ q) ++ s)) (omega (arith, IsName-size name n, length-append w q))
    ∙ drop_append (w ++ q) s

-- A packet that has arrived with a question and records is read up to them; a second time the size of
-- the name is known.
pub records_of-with_question :
    (name : Bytes) (type class : ℕ) (p : Packet) (s : Bytes)
    → IsName name
    → p.dsize ≡ 0
    → 16 < p.pkt_length
    → length name < 2 ^ 15
    → type < 2 ^ 16
    → class < 2 ^ 16
    → p.body ≡ set_domain name ++ (store16 (ntohs type) ++ (store16 (ntohs class) ++ s))
    → (records_of p ≡ some (record p { dsize = length name + 2 }, s))
      × (records_of (record p { dsize = length name + 2 })
          ≡ some (record p { dsize = length name + 2 }, s))
unfolding records_of
records_of-with_question name type class p s n z l k ht hc b =
    let (d, _, _) = domain-with_question name type class s p n l k ht hc b in
    let behind = behind_question name type class p.body s n b in
    let sized : (length name + 2 == 0) ≡ false = ground arith in
    (rw (z, d, behind) refl, rw (sized, behind) refl)

pub ips-with_question :
    (clock : ℕ → ℕ) (name : Bytes) (type class : ℕ) (us : List ℕ) (p : Packet) (s : Bytes)
    → IsName name
    → p.dsize ≡ 0
    → 16 < p.pkt_length
    → length name < 2 ^ 15
    → type < 2 ^ 16
    → class < 2 ^ 16
    → record_count p ≡ length us
    → All (λ x. x < 2 ^ 32) us
    → p.body
      ≡ set_domain name
        ++ (store16 (ntohs type) ++ (store16 (ntohs class) ++ (address_bytes us ++ s)))
    → ips clock p ≡ some (record p { dsize = length name + 2 }, a_records clock us)
unfolding ips
ips-with_question clock name type class us p s n z l k ht hc c h b =
    rw
      (
        (records_of-with_question name type class p (address_bytes us ++ s) n z l k ht hc b).0,
        c,
        read_ips-address_bytes clock us s h,
      )
      refl
