-- ===== src/Extensions/Dns/Resolver/Replies.antt =====
-- What the server replies to a query, and what the resolver reads of it.
use libpeco.Base.{
  ℕ, ◌+◌, ◌%◌, ◌^◌, ◌≤◌, ◌<◌, Bool, true, false, Bool-cases, inl, inr, List, [], ◌++◌, Option, none,
  some, Bytes, length, ◌==◌, if◌then◌else◌, ◌>>=◌, ◌≡◌, refl, ap, ◌∙◌, arith,
}
use libpeco.Net.Ip.Laws.{ReadsDotted}
use libpeco.Extensions.Dns.Packet.{Packet, prepare_for_reading, prepare_for_sending}
use libpeco.Extensions.Dns.Packet.Transfer.{arrived}
use libpeco.Extensions.Dns.Packet.Question.{IsName}
use libpeco.Extensions.Dns.Answer.{ARecord}
use libpeco.Extensions.Dns.Resolver.{
  query, udp_bytes, tcp_bytes, parse_dns_packet, parse_or_again, read_by_tcp, read_by_udp,
  resolv_by_tcp,
}
use libpeco.Extensions.Dns.Resolver.Server.{Answer, reply, udp_server, tcp_server}
use libpeco.Extensions.Dns.Resolver.Exchange.{
  question_bytes, packet_with, asked-packet_with, udp_packet-packet_with, tcp_packet-packet_with,
}
use libpeco.Extensions.Dns.Resolver.Steps.{
  answer_bytes, answer_count, Fits, Fits-length, Fits-count, outcome, reply-packet_with,
  parse_dns_packet-packet_with,
}

pub query-packet_with :
    (memory : Bytes) (junk tick : ℕ) (name : Bytes)
    → IsName name
    → length memory ≡ 500
    → length name ≤ 494
    → (rest : Bytes) × (query memory junk tick name
        ≡ some (prepare_for_sending (packet_with (tick % 2 ^ 16) name 0 0 [] rest)))
unfolding query
query-packet_with memory junk tick name n h k =
    let (rest, e, _) = asked-packet_with memory junk (tick % 2 ^ 16) name n h k in
    (rest, ap (λ o. o >>= λ p. some (prepare_for_sending p)) e)

module _ (inet_addr : Bytes → ℕ) (reads : ReadsDotted inet_addr) (zone : Bytes → Answer)
    (is_long : Bytes → Bool) (clock ticks : ℕ → ℕ) (memory : ℕ → Bytes) (junk : ℕ)
    (room : (f : ℕ) → length (memory f) ≡ 500) where
  -- The packet with which the server replies.
  pub reply_packet : Bool → ℕ → Bytes → Bytes → Packet
  reply_packet is_cut id name rest =
      if is_cut
      then packet_with id name 1 0 [] rest
      else packet_with id name 0 (answer_count (zone name)) (answer_bytes (zone name)) rest

  replied :
      (is_udp : Bool) (lead : Option ℕ) (k id : ℕ) (name rest : Bytes)
      → IsName name
      → Fits name (zone name)
      → 16 < k
      → let q = arrived lead k (packet_with id name 0 0 [] rest) (question_bytes name ++ []) in
        (rest' : Bytes) × (reply inet_addr zone is_long (memory 0) junk is_udp q
          ≡ some (reply_packet (if is_udp then is_long name else false) id name rest'))
  unfolding reply_packet
  replied is_udp lead k id name rest n t l =
      let (rest', e) =
        reply-packet_with inet_addr reads zone is_long (memory 0) junk is_udp lead k id name rest n
          t (room 0) l in
      (
        rest',
        elim (Bool-cases (if is_udp then is_long name else false)) [
          | inl h ↦ e ∙ rw (h) refl
          | inr h ↦ e ∙ rw (h) refl
        ],
      )

  served_by_tcp :
      (id : ℕ) (name rest : Bytes)
      → IsName name
      → Fits name (zone name)
      → id < 2 ^ 16
      → (rest' : Bytes) × (tcp_server inet_addr zone is_long
            (memory 0)
            junk
            (tcp_bytes (prepare_for_sending (packet_with id name 0 0 [] rest)))
          ≡ some (tcp_bytes (prepare_for_sending (reply_packet false id name rest'))))
  unfolding tcp_server
  served_by_tcp id name rest n t h =
      let short = Fits-length name (zone name) t in
      let (d, lead, e1, e2) =
        tcp_packet-packet_with id 0 0 name [] rest n h (omega arith) (omega arith)
          (omega (arith, short)) in
      let (rest', e3) = replied false lead (20 + length name + 0) id name rest n t (omega arith) in
      (
        rest',
        ap
              (λ o. o >>= λ q.
                reply inet_addr zone is_long (memory 0) junk false (prepare_for_reading q) >>= λ p.
                some (tcp_bytes (prepare_for_sending p)))
              e1
            ∙ ap
                (λ q. reply inet_addr zone is_long (memory 0) junk false q >>= λ p.
                  some (tcp_bytes (prepare_for_sending p)))
                e2
            ∙ ap (λ o. o >>= λ p. some (tcp_bytes (prepare_for_sending p))) e3,
      )

  pub served_by_udp :
      (id : ℕ) (name rest : Bytes)
      → IsName name
      → Fits name (zone name)
      → id < 2 ^ 16
      → (rest' : Bytes) × (udp_server inet_addr zone is_long
            (memory 0)
            junk
            (udp_bytes (prepare_for_sending (packet_with id name 0 0 [] rest)))
          ≡ some (udp_bytes (prepare_for_sending (reply_packet (is_long name) id name rest'))))
  unfolding udp_server
  served_by_udp id name rest n t h =
      let short = Fits-length name (zone name) t in
      let (d, e1, e2, _) =
        udp_packet-packet_with id 0 0 name [] rest n h (omega arith) (omega arith)
          (omega (arith, short)) in
      let (rest', e3) = replied true none (18 + length name + 0) id name rest n t (omega arith) in
      (
        rest',
        ap
              (λ o. o >>= λ q.
                reply inet_addr zone is_long (memory 0) junk true (prepare_for_reading q) >>= λ p.
                some (udp_bytes (prepare_for_sending p)))
              e1
            ∙ ap
                (λ q. reply inet_addr zone is_long (memory 0) junk true q >>= λ p.
                  some (udp_bytes (prepare_for_sending p)))
                e2
            ∙ ap (λ o. o >>= λ p. some (udp_bytes (prepare_for_sending p))) e3,
      )

  pub over_tcp :
      (resolv : Bytes → Option (List ARecord)) (f : ℕ) (name : Bytes)
      → IsName name
      → Fits name (zone name)
      → resolv_by_tcp
          (udp_server inet_addr zone is_long (memory 0) junk)
          (tcp_server inet_addr zone is_long (memory 0) junk)
          clock
          ticks
          memory
          junk
          resolv
          f
          name
        ≡ outcome resolv clock (zone name)
  unfolding resolv_by_tcp reply_packet
  over_tcp resolv f name n t =
      let short = Fits-length name (zone name) t in
      let id = ticks f % 2 ^ 16 in
      let (rest, eq) =
        query-packet_with (memory f) junk (ticks f) name n (room f) (omega (arith, short)) in
      let (rest', es) = served_by_tcp id name rest n t (omega arith) in
      let (d, lead, e1, e2) =
        tcp_packet-packet_with id 0 (answer_count (zone name)) name (answer_bytes (zone name)) rest'
          n (omega arith) (omega arith) (Fits-count name (zone name) t) short in
      ap
        (λ o. o >>= λ q.
          read_by_tcp resolv clock
            (tcp_server inet_addr zone is_long (memory 0) junk (tcp_bytes q)))
        eq
      ∙ ap (read_by_tcp resolv clock) es
      ∙ ap (λ o. o >>= λ p. parse_dns_packet resolv clock p) e1
      ∙ parse_dns_packet-packet_with resolv clock d lead
          (20 + length name + length (answer_bytes (zone name))) id name rest' (zone name) n t
          (omega arith) e2

  pub read_reply :
      (resolv : Bytes → Option (List ARecord)) (again : Option (List ARecord)) (id : ℕ)
      (name rest : Bytes)
      → IsName name
      → Fits name (zone name)
      → id < 2 ^ 16
      → again ≡ outcome resolv clock (zone name)
      → read_by_udp again resolv clock
          (some (udp_bytes (prepare_for_sending (reply_packet (is_long name) id name rest))))
        ≡ outcome resolv clock (zone name)
  unfolding read_by_udp reply_packet
  read_reply resolv again id name rest n t h e = elim (Bool-cases (is_long name)) [
    | inl l ↦
        let (d, e1, _, e3) =
          udp_packet-packet_with id 1 0 name [] rest n h (omega arith) (omega arith)
            (omega (arith, Fits-length name (zone name) t)) in
        let cut : (d.header.is_truncation == 1) ≡ true = ground (arith, e3) in
        ap
          (λ b.
            read_by_udp again resolv clock
              (some (udp_bytes (prepare_for_sending (reply_packet b id name rest)))))
          l
        ∙ ap (λ o. o >>= λ p. parse_or_again again resolv clock p) e1
        ∙ rw cut e
    | inr l ↦
        let (d, e1, e2, e3) =
          udp_packet-packet_with id 0 (answer_count (zone name)) name (answer_bytes (zone name))
            rest n h (omega arith) (Fits-count name (zone name) t)
            (Fits-length name (zone name) t) in
        let whole : (d.header.is_truncation == 1) ≡ false = ground (arith, e3) in
        ap
          (λ b.
            read_by_udp again resolv clock
              (some (udp_bytes (prepare_for_sending (reply_packet b id name rest)))))
          l
        ∙ ap (λ o. o >>= λ p. parse_or_again again resolv clock p) e1
        ∙ ap (λ b. if b then again else parse_dns_packet resolv clock d) whole
        ∙ parse_dns_packet-packet_with resolv clock d none
            (18 + length name + length (answer_bytes (zone name))) id name rest (zone name) n t
            (omega arith) e2
  ]
