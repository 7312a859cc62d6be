-- ===== src/Extensions/Dns/Resolver/Chain.antt =====
-- The resolver follows aliases to the addresses.
use libpeco.Base.{
  ℕ, suc, ◌+◌, ◌%◌, ◌^◌, Bool, true, List, Option, some, Bytes, length, ◌>>=◌, ◌≡◌, ap, ◌∙◌, arith,
}
use libpeco.Net.Ip.Laws.{ReadsDotted}
use libpeco.Net.Peer.{Peer, is_set}
use libpeco.Extensions.Dns.Packet.Question.{IsName}
use libpeco.Extensions.Dns.Answer.{ARecord}
use libpeco.Extensions.Dns.Answer.Records.{a_records}
use libpeco.Extensions.Dns.Resolver.{udp_bytes, read_by_udp, resolv_by_tcp, resolv_by_udp, resolv}
use libpeco.Extensions.Dns.Resolver.Server.{Answer, addresses, alias, udp_server, tcp_server}
use libpeco.Extensions.Dns.Resolver.Steps.{Fits, Fits-length, outcome}
use libpeco.Extensions.Dns.Resolver.Replies.{query-packet_with, served_by_udp, over_tcp, read_reply}

module _ (inet_addr : Bytes → ℕ) (reads : ReadsDotted inet_addr) (zone : Bytes → Answer)
    (is_long : Bytes → Bool) (clock ticks : ℕ → ℕ) (memory : ℕ → Bytes) (junk : ℕ)
    (room : (f : ℕ) → length (memory f) ≡ 500) where
  abbrev pub asks : ℕ → Bytes → Option (List ARecord)
  asks f name =
      resolv_by_udp (udp_server inet_addr zone is_long (memory 0) junk)
        (tcp_server inet_addr zone is_long (memory 0) junk) clock ticks memory junk f name

  -- One query follows what the name stands for.
  asks_step :
      (f : ℕ) (name : Bytes)
      → IsName name
      → Fits name (zone name)
      → asks (suc f) name ≡ outcome (λ m. asks f m) clock (zone name)
  unfolding resolv_by_udp
  asks_step f name n t =
      let short = Fits-length name (zone name) t in
      let id = ticks (suc f) % 2 ^ 16 in
      let go : Bytes → Option (List ARecord) = λ m. asks f m in
      let again =
        resolv_by_tcp (udp_server inet_addr zone is_long (memory 0) junk)
          (tcp_server inet_addr zone is_long (memory 0) junk) clock ticks memory junk go f name in
      let (rest, eq) =
        query-packet_with (memory (suc f)) junk (ticks (suc f)) name n (room (suc f))
          (omega (arith, short)) in
      let (rest', es) =
        served_by_udp inet_addr reads zone is_long clock ticks memory junk room id name rest n t
          (omega arith) in
      ap
        (λ o. o >>= λ q.
          read_by_udp again go clock
            (udp_server inet_addr zone is_long (memory 0) junk (udp_bytes q)))
        eq
      ∙ ap (read_by_udp again go clock) es
      ∙ read_reply inet_addr reads zone is_long clock ticks memory junk room go again id name rest'
          n t (omega arith)
          (over_tcp inet_addr reads zone is_long clock ticks memory junk room go f name n t)

  -- A name leads to these addresses, with as many queries over UDP as the number says.
  pub data Leads : Bytes → List ℕ → ℕ → Type 0 where
    direct :
        {name : Bytes} {us : List ℕ}
        → IsName name
        → Fits name (zone name)
        → zone name ≡ addresses us
        → Leads name us 1
    follow :
        {name target : Bytes} {us : List ℕ} {k : ℕ}
        → IsName name
        → Fits name (zone name)
        → zone name ≡ alias target
        → Leads target us k
        → Leads name us (suc k)

  resolv_by_udp-Leads :
      (name : Bytes) (us : List ℕ) (k spare : ℕ)
      → Leads name us k
      → asks (k + spare) name ≡ some (a_records clock us)
  resolv_by_udp-Leads name us _ spare (direct n t e) =
      let one : 1 + spare ≡ suc spare = omega arith in
      ap (λ i. asks i name) one
      ∙ asks_step spare name n t
      ∙ ap (outcome (λ m. asks spare m) clock) e
  resolv_by_udp-Leads name us _ spare (follow {target = target} {k = k} n t e l) =
      let more : suc k + spare ≡ suc (k + spare) = omega arith in
      ap (λ i. asks i name) more
      ∙ asks_step (k + spare) name n t
      ∙ ap (outcome (λ m. asks (k + spare) m) clock) e
      ∙ resolv_by_udp-Leads target us k spare l

  -- A server answers what is asked with dns.cpp's own functions, over UDP with a truncated packet
  -- where the answer is called too long. Where each name on the way from a name to its addresses is
  -- an alias of the next, all names have proper labels of at most 63 bytes and each answer fits into
  -- the buffer, the resolver of a valid server finds the addresses in their order, of class IN and
  -- valid for half an hour from the clock on, within as many queries as there are names on the way.
  pub resolv-Leads :
      (dns_server : Peer) (name : Bytes) (us : List ℕ) (k spare : ℕ)
      → is_set dns_server ≡ true
      → Leads name us k
      → resolv
          (udp_server inet_addr zone is_long (memory 0) junk)
          (tcp_server inet_addr zone is_long (memory 0) junk)
          clock
          ticks
          memory
          junk
          (k + spare)
          dns_server
          name
        ≡ some (a_records clock us)
  unfolding resolv
  resolv-Leads dns_server name us k spare h l = rw h (resolv_by_udp-Leads name us k spare l)
