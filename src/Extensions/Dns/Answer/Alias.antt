-- ===== src/Extensions/Dns/Answer/Alias.antt =====
-- The CNAME record that is written in a packet is read back.
use libpeco.Base.{
  ℕ, zero, suc, ◌+◌, ◌%◌, ◌^◌, ◌≤◌, ◌<◌, bit_and, false, List, [], ◌∷◌, ◌++◌, append_assoc, some,
  Bytes, All, length, length-append, take_append, drop_append, drop, ltb, ◌==◌, if◌then◌else◌,
  ◌>>=◌, ◌≡◌, refl, sym, ap, subst, ◌∙◌, arith, misses, agree,
}
use libpeco.Net.Peer.{ntohs}
use libpeco.Extensions.Dns.{add_label, label, get_domain, set_domain}
use libpeco.Extensions.Dns.Laws.{
  IsLabel, dotted, labels, join_dots, join_dots-first, set_labels-dotted,
}
use libpeco.Extensions.Dns.Packet.{store16, Packet, pkt_begin, write_at}
use libpeco.Extensions.Dns.Packet.Transfer.{write_at-append}
use libpeco.Extensions.Dns.Packet.Question.{IsName, IsName-size}
use libpeco.Extensions.Dns.Answer.{
  record_map_basic, with_answers, a_record_of, read_ips, set_cname, record_count, ips, read_cname,
  cname,
}
use libpeco.Extensions.Dns.Answer.Records.{map_basic-record_map_basic, records_of-with_question}

no_offset : (n : ℕ) → n < 64 → bit_and n 0xc0 ≡ 0
unfolding misses
no_offset n h = agree (λ a. bit_and a 0xc0) (λ a. 0) 64 n refl h

get_domain-label :
    (f : ℕ) (b l s name : Bytes)
    → 0 < length l
    → length l < 64
    → get_domain (suc f) b (label l ++ s) name ≡ get_domain f b s (add_label name l)
unfolding get_domain
get_domain-label f b l s name h k =
    let size : length l % 256 ≡ length l = omega arith in
    let plain : (bit_and (length l) 0xc0 == 0xc0) ≡ false =
      ground (arith, no_offset (length l) k) in
    let some_bytes : (length l == 0) ≡ false = ground arith in
    let whole : ltb (length (l ++ s)) (length l) ≡ false = ground (arith, length-append l s) in
    rw (size, plain, some_bytes, whole, take_append l s, drop_append l s) refl

get_domain-labels :
    (f : ℕ) (b : Bytes) (ls : List Bytes) (s name : Bytes)
    → All IsLabel ls
    → All (λ l. length l < 64) ls
    → length (labels ls) < f
    → get_domain f b (labels ls ++ 0 ∷ s) name ≡ some (join_dots name ls)
unfolding get_domain join_dots
get_domain-labels zero b ls s name h k hf = absurd (omega arith)
get_domain-labels (suc f) b [] s name h k hf = refl
get_domain-labels (suc f) b (l ∷ ls) s name h k hf =
    ap (λ t. get_domain (suc f) b t name) (append_assoc (label l) (labels ls) (0 ∷ s))
    ∙ get_domain-label f b l (labels ls ++ 0 ∷ s) name h.0.0 k.0
    ∙ get_domain-labels f b ls s (add_label name l) h.1 k.1
        (omega (arith, hf, length-append (label l) (labels ls)))

pub get_domain-set_domain :
    (b name s : Bytes)
    → IsName name
    → get_domain (suc (length (set_domain name ++ s))) b (set_domain name ++ s) [] ≡ some name
unfolding set_domain
get_domain-set_domain b name s (l, ls, e, h, k) =
    let all : set_domain (dotted l ls) ++ s ≡ labels (l ∷ ls) ++ 0 ∷ s =
      ap (λ t. (t ++ 0 ∷ []) ++ s) (set_labels-dotted l ls h)
      ∙ append_assoc (labels (l ∷ ls)) (0 ∷ []) s in
    let t = labels (l ∷ ls) ++ 0 ∷ s in
    let read : get_domain (suc (length t)) b t [] ≡ some (dotted l ls) =
      get_domain-labels (suc (length t)) b (l ∷ ls) s [] h k
        (omega (arith, length-append (labels (l ∷ ls)) (0 ∷ s)))
      ∙ ap some (join_dots-first l ls h.0.0) in
    subst (λ n. get_domain (suc (length (set_domain n ++ s))) b (set_domain n ++ s) [] ≡ some n)
      (sym e) (subst (λ u. get_domain (suc (length u)) b u [] ≡ some (dotted l ls)) (sym all) read)

-- The bytes of a CNAME record.
abbrev pub cname_bytes : Bytes → Bytes
cname_bytes name = record_map_basic 5 (length name + 2) ++ set_domain name

-- The record is appended to the bytes that a packet has.
pub set_cname-append :
    (name : Bytes) (p : Packet) (a m : Bytes)
    → IsName name
    → 0 < p.dsize
    → p.body ≡ a ++ m
    → length a ≡ p.dsize + 4
    → length name + 14 ≤ length m
    → p.pkt_length + length name + 14 < 2 ^ 16
    → (rest : Bytes) × (set_cname name p
        ≡ some (record (with_answers 1 p) {
          body = a ++ (cname_bytes name ++ rest);
          pkt_length = p.pkt_length + (14 + length name);
        }))
unfolding set_cname
set_cname-append name p a m n d b e k short =
    let size = IsName-size name n in
    let basic = record_map_basic 5 (length name + 2) in
    let (r1, e1, n1) = write_at-append (p.dsize + 4) basic a m (sym e) (omega (arith, k)) in
    let (r2, e2, n2) =
      write_at-append (p.dsize + 16) (set_domain name) (a ++ basic) r1
        (omega (arith, e, length-append a basic)) (omega (arith, k, n1, size)) in
    let second : write_at (p.dsize + 16) (set_domain name) (a ++ (basic ++ r1))
        ≡ some (a ++ (basic ++ (set_domain name ++ r2))) =
      ap (write_at (p.dsize + 16) (set_domain name)) (sym (append_assoc a basic r1))
      ∙ e2
      ∙ ap some (append_assoc a basic (set_domain name ++ r2)) in
    let sized : (p.dsize == 0) ≡ false = ground (arith, d) in
    let kept : (p.pkt_length + (12 + length name + 2)) % 2 ^ 16
        ≡ p.pkt_length + (14 + length name) =
      omega (arith, short) in
    (r2, rw (sized, b, e1, second, kept) refl)

read_ips-cname_bytes :
    (clock : ℕ → ℕ) (target s : Bytes)
    → length target < 2 ^ 15
    → read_ips clock 1 (cname_bytes target ++ s) ≡ some []
unfolding read_ips a_record_of
read_ips-cname_bytes clock target s j =
    let basic =
      map_basic-record_map_basic 5 (length target + 2) (set_domain target ++ s) (omega arith)
        (omega (arith, j)) in
    ap
      (λ o. o >>= λ m. a_record_of (clock 0) m >>= λ found.
        read_ips clock 0 (drop m.rlen m.data_on) >>= λ rest. some (found ++ rest))
      basic

read_cname-cname_bytes :
    (b target s : Bytes)
    → IsName target
    → length target < 2 ^ 15
    → read_cname b 1 (cname_bytes target ++ s)
      ≡ some (some (record { domain = target; qclass = 1; ttl = 1800 }))
unfolding read_cname
read_cname-cname_bytes b target s n j =
    let basic =
      map_basic-record_map_basic 5 (length target + 2) (set_domain target ++ s) (omega arith)
        (omega (arith, j)) in
    ap
      (λ o. o >>= λ m.
        if m.qtype == 5
        then (do
          d ← get_domain (suc (length m.data_on)) b m.data_on []
          some (some (record { domain = d; qclass = m.qclass; ttl = m.ttl })))
        else read_cname b 0 (drop m.rlen m.data_on))
      basic
    ∙ rw (get_domain-set_domain b target s n) refl

-- A packet that has arrived with a question and this record only has no address, and the record's
-- name is read.
pub cname-with_question :
    (clock : ℕ → ℕ) (name : Bytes) (type class : ℕ) (target : Bytes) (p : Packet) (s : Bytes)
    → IsName name
    → IsName target
    → p.dsize ≡ 0
    → 16 < p.pkt_length
    → length name < 2 ^ 15
    → length target < 2 ^ 15
    → type < 2 ^ 16
    → class < 2 ^ 16
    → record_count p ≡ 1
    → p.body
      ≡ set_domain name
        ++ (store16 (ntohs type) ++ (store16 (ntohs class) ++ (cname_bytes target ++ s)))
    → (ips clock p ≡ some (record p { dsize = length name + 2 }, []))
      × (cname (record p { dsize = length name + 2 })
          ≡ some (
            record p { dsize = length name + 2 },
            some (record { domain = target; qclass = 1; ttl = 1800 }),
          ))
unfolding ips cname
cname-with_question clock name type class target p s n m z l k j ht hc c b =
    let (first, second) =
      records_of-with_question name type class p (cname_bytes target ++ s) n z l k ht hc b in
    let q = record p { dsize = length name + 2 } in
    (
      rw (first, c, read_ips-cname_bytes clock target s j) refl,
      rw (second, c, read_cname-cname_bytes (pkt_begin q) target s m j) refl,
    )
