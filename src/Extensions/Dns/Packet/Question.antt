-- ===== src/Extensions/Dns/Packet/Question.antt =====
-- A question that is written in a packet is read back.
use libpeco.Base.{
  ℕ, zero, suc, ◌+◌, ◌*◌, ◌/◌, ◌%◌, ◌^◌, ◌≤◌, ◌<◌, true, List, [], ◌∷◌, ◌++◌, append_assoc, some,
  Bytes, All, length, length-append, get_elem?, ltb, ◌≡◌, refl, sym, ap, subst, ◌∙◌, arith,
}
use libpeco.Net.Peer.{ntohs}
use libpeco.Extensions.Dns.{get_domain_basic, set_domain}
use libpeco.Extensions.Dns.Laws.{IsLabel, dotted, get_domain_basic-set_domain}
use libpeco.Extensions.Dns.Packet.{
  store16, load16, Packet, write_at, set_packet_domain, domain, qtype, set_qtype, qclass,
  set_qclass,
}
use libpeco.Extensions.Dns.Packet.Layout.{stored16}
use libpeco.Extensions.Dns.Packet.Transfer.{write_at-append, ntohs-ntohs, ntohs-lt}
use libpeco.Extensions.Dns.Resolver.{asked}

-- A name of labels, each with at most 63 bytes.
abbrev pub IsName : Bytes → Type 0
IsName name =
    (l : Bytes) × (ls : List Bytes) × (name ≡ dotted l ls)
    × All IsLabel (l ∷ ls)
    × All (λ m. length m < 64) (l ∷ ls)

pub IsName-size : (name : Bytes) → IsName name → length (set_domain name) ≡ length name + 2
IsName-size name (l, ls, e, h, k) = rw e ((get_domain_basic-set_domain l ls [] h).1)

-- A packet with a question and room behind it.
abbrev pub with_question : Bytes → ℕ → ℕ → Bytes → Packet → Packet
with_question name type class rest p = record p {
  header = record (p.header) { qrcode = 0; is_recursive_desired = 1; qdcount = 1 };
  body = set_domain name ++ (store16 (ntohs type) ++ (store16 (ntohs class) ++ rest));
  pkt_length = 18 + length name;
  dsize = length name + 2;
}

module _ (name : Bytes) (type class : ℕ) (p : Packet)
    (proper : length (set_domain name) ≡ length name + 2) (empty : p.pkt_length ≡ 12)
    (room : length name + 6 ≤ length p.body) (short : length p.body < 2 ^ 15) where
  pub asked-with_question :
      (rest : Bytes) × (asked name type class p ≡ some (with_question name type class rest p))
      × (length rest + (length name + 6) ≡ length p.body)
  unfolding asked set_packet_domain set_qtype set_qclass
  asked-with_question =
      let w = set_domain name in
      let st = store16 (ntohs type) in
      let sc = store16 (ntohs class) in
      let (r1, e1, n1) = write_at-append 0 w [] p.body refl (omega (arith, proper, room)) in
      let (r2, e2, n2) =
        write_at-append (length name + 2) st w r1 (sym proper) (omega (arith, proper, room, n1)) in
      let (r3, e3, n3) =
        write_at-append (length name + 2 + 2) sc (w ++ st) r2
          (omega (arith, proper, length-append w st)) (omega (arith, proper, room, n1, n2)) in
      let third : write_at (length name + 2 + 2) sc (w ++ (st ++ r2))
          ≡ some (w ++ (st ++ (sc ++ r3))) =
        ap (write_at (length name + 2 + 2) sc) (sym (append_assoc w st r2))
        ∙ e3
        ∙ ap some (append_assoc w st (sc ++ r3)) in
      let l1 : (12 + (length name + 2)) % 2 ^ 16 ≡ 14 + length name = omega (arith, room, short) in
      let l2 : (14 + length name + 2) % 2 ^ 16 ≡ 16 + length name = omega (arith, room, short) in
      let l3 : (16 + length name + 2) % 2 ^ 16 ≡ 18 + length name = omega (arith, room, short) in
      let d1 : (length name + 2) % 2 ^ 16 ≡ length name + 2 = omega (arith, room, short) in
      (r3, rw (empty, e1, d1, e2, third, l1, l2, l3) refl, omega (arith, n1, n2, n3, proper))

get_elem?-append : (n k : ℕ) (a s : Bytes) → n ≡ length a + k → get_elem? (a ++ s) n ≡ get_elem? s k
get_elem?-append n k [] s h = ap (get_elem? s) (omega arith)
get_elem?-append zero k (x ∷ a) s h = absurd (omega arith)
get_elem?-append (suc n) k (x ∷ a) s h = get_elem?-append n k a s (omega arith)

pub load16-append :
    (n : ℕ) (a : Bytes) (x y : ℕ) (s : Bytes)
    → n ≡ length a
    → load16 n (a ++ (x ∷ y ∷ s)) ≡ some (x + 256 * y)
load16-append n a x y s e =
    rw
      (
        get_elem?-append n 0 a (x ∷ y ∷ s) (omega arith),
        get_elem?-append (n + 1) 1 a (x ∷ y ∷ s) (omega arith),
      )
      refl

-- The name, the type and the class of a question.
pub domain-with_question :
    (name : Bytes) (type class : ℕ) (rest : Bytes) (p : Packet)
    → IsName name
    → 16 < p.pkt_length
    → length name < 2 ^ 15
    → type < 2 ^ 16
    → class < 2 ^ 16
    → p.body ≡ set_domain name ++ (store16 (ntohs type) ++ (store16 (ntohs class) ++ rest))
    → (domain p ≡ some (record p { dsize = length name + 2 }, name))
      × (qtype (record p { dsize = length name + 2 }) ≡ some type)
      × (qclass (record p { dsize = length name + 2 }) ≡ some class)
unfolding domain qtype qclass
domain-with_question name type class rest p (l, ls, e, h, k) long short ht hc b =
    let w = set_domain name in
    let st = store16 (ntohs type) in
    let sc = store16 (ntohs class) in
    let proper = IsName-size name (l, ls, e, h, k) in
    let read : get_domain_basic (suc (length p.body)) p.body [] ≡ some name =
      subst (λ t. get_domain_basic (suc (length t)) t [] ≡ some name) (sym b)
        (subst
          (λ n.
            get_domain_basic (suc (length (set_domain n ++ (st ++ (sc ++ rest)))))
              (set_domain n ++ (st ++ (sc ++ rest))) []
            ≡ some n)
          (sym e) ((get_domain_basic-set_domain l ls (st ++ (sc ++ rest)) h).0)) in
    let is_long : ltb 16 p.pkt_length ≡ true = ground (arith, long) in
    let size : (length name + 2) % 2 ^ 16 ≡ length name + 2 = omega (arith, short) in
    let t : load16 (length name + 2) (w ++ (st ++ (sc ++ rest))) ≡ some (ntohs type) =
      load16-append (length name + 2) w (ntohs type % 256) (ntohs type / 256 % 256) (sc ++ rest)
        (sym proper)
      ∙ ap some (stored16 (ntohs type) (ntohs-lt type)) in
    let c : load16 (length name + 2 + 2) (w ++ (st ++ (sc ++ rest))) ≡ some (ntohs class) =
      ap (load16 (length name + 2 + 2)) (sym (append_assoc w st (sc ++ rest)))
      ∙ load16-append (length name + 2 + 2) (w ++ st) (ntohs class % 256) (ntohs class / 256 % 256)
          rest (omega (arith, proper, length-append w st))
      ∙ ap some (stored16 (ntohs class) (ntohs-lt class)) in
    (
      rw (is_long, read, size) refl,
      rw (b, t, ntohs-ntohs type ht) refl,
      rw (b, c, ntohs-ntohs class hc) refl,
    )
