-- ===== src/Extensions/Dns/Packet/Layout.antt =====
-- A header is read back from its bytes.
use libpeco.Base.{ℕ, ◌+◌, ◌*◌, ◌/◌, ◌%◌, ◌^◌, ◌<◌, ◌++◌, some, Bytes, ◌≡◌, refl, arith}
use libpeco.Extensions.Dns.Packet.{Header, flags2, flags3, header_bytes, header_of}

-- The fields fit in their bits.
abbrev pub IsHeader : Header → Type 0
IsHeader h =
    (h.trans_id < 2 ^ 16)
    × ((h.is_recursive_desired < 2)
        × ((h.is_truncation < 2)
            × ((h.is_authoritative < 2)
                × ((h.opcode < 16)
                    × ((h.qrcode < 2)
                        × ((h.respcode < 16)
                            × ((h.checking_disabled < 2)
                                × ((h.authenticated < 2)
                                    × ((h.reserved < 2)
                                        × ((h.is_recursive_available < 2)
                                            × ((h.qdcount < 2 ^ 16)
                                                × ((h.ancount < 2 ^ 16)
                                                    × ((h.nscount < 2 ^ 16)
                                                        × (h.arcount < 2 ^ 16))))))))))))))

pub stored16 : (n : ℕ) → n < 2 ^ 16 → n % 256 + 256 * (n / 256 % 256) ≡ n
stored16 n h = omega arith

pub stored32 :
    (n : ℕ)
    → n < 2 ^ 32
    → n % 256 + 256 * (n / 256 % 256) + 2 ^ 16 * (n / 2 ^ 16 % 256 + 256 * (n / 2 ^ 24 % 256)) ≡ n
stored32 n h = omega arith

pub header_of-header_bytes :
    (h : Header) (s : Bytes) → IsHeader h → header_of (header_bytes h ++ s) ≡ some h
unfolding header_of header_bytes
header_of-header_bytes h s (a, (b, (c, (d, (e, (f, (g, (i, (j, (k, (l, (m, (n, (o, p)))))))))))))) =
    let f0 : flags2 h % 2 ≡ h.is_recursive_desired = omega arith in
    let f1 : flags2 h / 2 % 2 ≡ h.is_truncation = omega arith in
    let f2 : flags2 h / 4 % 2 ≡ h.is_authoritative = omega arith in
    let f3 : flags2 h / 8 % 16 ≡ h.opcode = omega arith in
    let f4 : flags2 h / 128 % 2 ≡ h.qrcode = omega arith in
    let g0 : flags3 h % 16 ≡ h.respcode = omega arith in
    let g1 : flags3 h / 16 % 2 ≡ h.checking_disabled = omega arith in
    let g2 : flags3 h / 32 % 2 ≡ h.authenticated = omega arith in
    let g3 : flags3 h / 64 % 2 ≡ h.reserved = omega arith in
    let g4 : flags3 h / 128 % 2 ≡ h.is_recursive_available = omega arith in
    rw
      (
        stored16 h.trans_id a,
        stored16 h.qdcount m,
        stored16 h.ancount n,
        stored16 h.nscount o,
        stored16 h.arcount p,
        f0,
        f1,
        f2,
        f3,
        f4,
        g0,
        g1,
        g2,
        g3,
        g4,
      )
      refl
