-- ===== src/Extensions/Dns/Resolver/Server.antt =====
-- A name server for the resolver, which writes its replies with the functions of dns.cpp that it has
-- for them.
use libpeco.Base.{ℕ, Bool, true, false, List, map, Option, some, Bytes, if◌then◌else◌, ◌>>=◌}
use libpeco.Net.Ip.{ip_of_number}
use libpeco.Extensions.Dns.Packet.{
  Packet, init_dns_packet, prepare_for_reading, prepare_for_sending, domain,
}
use libpeco.Extensions.Dns.Answer.{set_ips, set_cname}
use libpeco.Extensions.Dns.Resolver.{asked, udp_bytes, tcp_bytes, udp_packet, tcp_packet}

-- What a name stands for.
pub data Answer : Type 0 where
  addresses : List ℕ → Answer
  alias : Bytes → Answer

-- A new packet with a transaction id.
abbrev pub new_packet : Bytes → ℕ → ℕ → Packet
new_packet memory junk id =
    let new = init_dns_packet memory junk in
    record new { header = record (new.header) { trans_id = id } }

module _ (inet_addr : Bytes → ℕ) where
  unfoldable pub put_answer : Answer → Packet → Option Packet
  put_answer (addresses us) p = set_ips inet_addr (map ip_of_number us) p
  put_answer (alias target) p = set_cname target p

  module _ (zone : Bytes → Answer) (is_long : Bytes → Bool) (memory : Bytes) (junk : ℕ) where
    -- The reply to a query that was made ready for reading; over UDP one that is too long is only
    -- marked as truncated.
    unfoldable pub reply : Bool → Packet → Option Packet
    unfolding put_answer
    reply is_udp q = do
      r ← domain q
      p ← asked (r.1) 1 1 (new_packet memory junk q.header.trans_id)
      if (if is_udp then is_long (r.1) else false)
          then some (record p { header = record (p.header) { is_truncation = 1 } })
          else put_answer (zone (r.1)) p

    unfoldable pub udp_server : Bytes → Option Bytes
    unfolding reply
    udp_server d = do
      q ← udp_packet d
      p ← reply true (prepare_for_reading q)
      some (udp_bytes (prepare_for_sending p))

    unfoldable pub tcp_server : Bytes → Option Bytes
    unfolding reply
    tcp_server d = do
      q ← tcp_packet d
      p ← reply false (prepare_for_reading q)
      some (tcp_bytes (prepare_for_sending p))
