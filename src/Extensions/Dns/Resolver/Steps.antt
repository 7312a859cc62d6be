-- ===== src/Extensions/Dns/Resolver/Steps.antt =====
-- What the server answers to a query, and what the resolver makes of it.
use libpeco.Base.{
  ℕ, suc, ◌+◌, ◌*◌, ◌%◌, ◌^◌, ◌≤◌, ◌<◌, Bool, true, false, Bool-cases, inl, inr, List, [], ◌∷◌,
  ◌++◌, append_assoc, append-nil, Option, some, Bytes, All, length, length-append, ltb,
  if◌then◌else◌, ◌>>=◌, ◌≡◌, refl, sym, ap, subst, ◌∙◌, arith,
}
use libpeco.Net.Ip.Laws.{ReadsDotted}
use libpeco.Net.Peer.{ntohs}
use libpeco.Extensions.Dns.{set_domain}
use libpeco.Extensions.Dns.Laws.{length-dotted}
use libpeco.Extensions.Dns.Packet.{store16, Packet, prepare_for_reading}
use libpeco.Extensions.Dns.Packet.Transfer.{arrived}
use libpeco.Extensions.Dns.Packet.Question.{IsName, IsName-size, domain-with_question}
use libpeco.Extensions.Dns.Answer.{ARecord, ips}
use libpeco.Extensions.Dns.Answer.Records.{
  address_bytes, a_records, length-address_bytes, set_ips-append, ips-with_question,
}
use libpeco.Extensions.Dns.Answer.Alias.{cname_bytes, set_cname-append, cname-with_question}
use libpeco.Extensions.Dns.Resolver.{followed, parsed_ips, parse_dns_packet}
use libpeco.Extensions.Dns.Resolver.Server.{Answer, addresses, alias, put_answer, reply}
use libpeco.Extensions.Dns.Resolver.Exchange.{question_bytes, packet_with, asked-packet_with}

-- The records of an answer in memory, and their number.
abbrev pub answer_bytes : Answer → Bytes
answer_bytes (addresses us) = address_bytes us
answer_bytes (alias target) = cname_bytes target

abbrev pub answer_count : Answer → ℕ
answer_count (addresses us) = length us
answer_count (alias target) = 1

-- An answer that a buffer holds behind the question for a name.
abbrev pub Fits : Bytes → Answer → Type 0
Fits name (addresses us) =
    All (λ u. u < 2 ^ 32) us × (0 < length us) × (length name + length us * 16 ≤ 494)
Fits name (alias target) = IsName target × (length name + length target ≤ 480)

pub Fits-length :
    (name : Bytes) (a : Answer) → Fits name a → length name + length (answer_bytes a) ≤ 494
Fits-length name (addresses us) (h, k, l) = omega (arith, length-address_bytes us, l)
Fits-length name (alias target) (h, l) = omega (arith, IsName-size target h, l)

pub Fits-count : (name : Bytes) (a : Answer) → Fits name a → answer_count a < 2 ^ 16
Fits-count name (addresses us) (h, k, l) = omega (arith, l)
Fits-count name (alias target) h = omega arith

-- What the resolver does with an answer.
abbrev pub outcome : (Bytes → Option (List ARecord)) → (ℕ → ℕ) → Answer → Option (List ARecord)
outcome resolv clock (addresses us) = some (a_records clock us)
outcome resolv clock (alias target) = resolv target

IsName-positive : (name : Bytes) → IsName name → 0 < length name
IsName-positive name (l, ls, e, h, k) = subst (λ n. 0 < length n) (sym e) (length-dotted l ls h)

question_split :
    (name records : Bytes)
    → question_bytes name ++ records
      ≡ set_domain name ++ (store16 (ntohs 1) ++ (store16 (ntohs 1) ++ records))
question_split name records =
    append_assoc (set_domain name) (store16 (ntohs 1) ++ store16 (ntohs 1)) records

question_size : (name : Bytes) → IsName name → length (question_bytes name) ≡ length name + 2 + 4
question_size name n = omega (
  arith,
  IsName-size name n,
  length-append (set_domain name) (store16 (ntohs 1) ++ store16 (ntohs 1)),
)

module _ (inet_addr : Bytes → ℕ) (reads : ReadsDotted inet_addr) where
  put_answer-packet_with :
      (id : ℕ) (name rest : Bytes) (a : Answer)
      → IsName name
      → Fits name a
      → length rest + (length name + 6) ≡ 500
      → (rest' : Bytes) × (put_answer inet_addr a (packet_with id name 0 0 [] rest)
          ≡ some (packet_with id name 0 (answer_count a) (answer_bytes a) rest'))
  unfolding put_answer
  put_answer-packet_with id name rest (addresses us) n (h, k, l) s =
      let (rest', e) =
        set_ips-append inet_addr reads us (packet_with id name 0 0 [] rest) (question_bytes name)
          rest h (omega arith) refl (question_size name n) (omega (arith, s, l))
          (omega (arith, s, l)) in
      let size : 18 + length name + 0 + length us * 16
          ≡ 18 + length name + length (address_bytes us) =
        omega (arith, length-address_bytes us) in
      let count : length us % 2 ^ 16 ≡ length us = omega (arith, l) in
      (rest', e ∙ rw (size, count) refl)
  put_answer-packet_with id name rest (alias target) n (h, l) s =
      let (rest', e) =
        set_cname-append target (packet_with id name 0 0 [] rest) (question_bytes name) rest h
          (omega arith) refl (question_size name n) (omega (arith, s, l)) (omega (arith, s, l)) in
      let size : 18 + length name + 0 + (14 + length target)
          ≡ 18 + length name + length (cname_bytes target) =
        omega (arith, IsName-size target h) in
      (rest', e ∙ rw size refl)

  module _ (zone : Bytes → Answer) (is_long : Bytes → Bool) (memory : Bytes) (junk : ℕ) where
    -- The server's reply to a query that has arrived.
    pub reply-packet_with :
        (is_udp : Bool) (lead : Option ℕ) (k id : ℕ) (name rest : Bytes)
        → IsName name
        → Fits name (zone name)
        → length memory ≡ 500
        → 16 < k
        → let q = arrived lead k (packet_with id name 0 0 [] rest) (question_bytes name ++ []) in
          (rest' : Bytes) × (reply inet_addr zone is_long memory junk is_udp q ≡ (
            if (if is_udp then is_long name else false)
            then some (packet_with id name 1 0 [] rest')
            else some (
                packet_with id name 0 (answer_count (zone name)) (answer_bytes (zone name)) rest')))
    unfolding reply
    reply-packet_with is_udp lead k id name rest n f m l =
        let q = arrived lead k (packet_with id name 0 0 [] rest) (question_bytes name ++ []) in
        let short = Fits-length name (zone name) f in
        let (dq, _, _) =
          domain-with_question name 1 1 [] q n l (omega (arith, short)) (omega arith) (omega arith)
            (question_split name []) in
        let (rest1, ea, sa) = asked-packet_with memory junk id name n m (omega (arith, short)) in
        let (rest2, ep) = put_answer-packet_with id name rest1 (zone name) n f sa in
        elim (Bool-cases (if is_udp then is_long name else false)) [
          | inl h ↦ (rest1, rw (dq, ea, h) refl)
          | inr h ↦ (rest2, rw (dq, ea, h, ep) refl)
        ]

-- The packet that the resolver reads.
pub parse_dns_packet-packet_with :
    (resolv : Bytes → Option (List ARecord)) (clock : ℕ → ℕ) (d : Packet) (lead : Option ℕ)
    (k id : ℕ) (name rest : Bytes) (a : Answer)
    → IsName name
    → Fits name a
    → 16 < k
    → prepare_for_reading d
      ≡ arrived lead k
          (packet_with id name 0 (answer_count a) (answer_bytes a) rest)
          (question_bytes name ++ answer_bytes a)
    → parse_dns_packet resolv clock d ≡ outcome resolv clock a
unfolding parse_dns_packet
parse_dns_packet-packet_with resolv clock d lead k id name rest (addresses []) n f l e =
    absurd (omega (arith, f.1))
parse_dns_packet-packet_with resolv clock d lead k id name rest (addresses (u ∷ us)) n (h, z, j) l
      e =
    let p =
      arrived lead k (packet_with id name 0 (suc (length us)) (address_bytes (u ∷ us)) rest)
        (question_bytes name ++ address_bytes (u ∷ us)) in
    let count : (suc (length us) + 0) % 2 ^ 16 ≡ suc (length us) = omega (arith, j) in
    let read =
      ips-with_question clock name 1 1 (u ∷ us) p [] n refl l (omega (arith, j)) (omega arith)
        (omega arith) count h
        (question_split name (address_bytes (u ∷ us))
          ∙ ap (λ t. set_domain name ++ (store16 (ntohs 1) ++ (store16 (ntohs 1) ++ t)))
              (sym (append-nil (address_bytes (u ∷ us))))) in
    ap (λ o. o >>= λ r. parsed_ips resolv (r.0) (r.1)) (ap (ips clock) e ∙ read)
parse_dns_packet-packet_with resolv clock d lead k id name rest (alias target) n (h, j) l e =
    let p =
      arrived lead k (packet_with id name 0 1 (cname_bytes target) rest)
        (question_bytes name ++ cname_bytes target) in
    let (none_found, target_found) =
      cname-with_question clock name 1 1 target p [] n h refl l (omega (arith, j))
        (omega (arith, j)) (omega arith) (omega arith) refl
        (question_split name (cname_bytes target)
          ∙ ap (λ t. set_domain name ++ (store16 (ntohs 1) ++ (store16 (ntohs 1) ++ t)))
              (sym (append-nil (cname_bytes target)))) in
    let proper : ltb 0 (length target) ≡ true = ground (arith, IsName-positive target h) in
    ap (λ o. o >>= λ r. parsed_ips resolv (r.0) (r.1)) (ap (ips clock) e ∙ none_found)
    ∙ ap (λ o. o >>= λ r. followed resolv (r.1)) target_found
    ∙ rw proper refl
