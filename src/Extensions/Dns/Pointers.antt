-- ===== src/Extensions/Dns/Pointers.antt =====
-- Names that end in an offset.
use libpeco.Base.{
  ℕ, suc, ◌+◌, ◌<◌, true, [], ◌∷◌, Option, none, some, Bytes, length, drop, ◌==◌, if◌then◌else◌,
  bit_and, ◌≡◌, refl, arith, ◌>>=◌, misses, agree, misses_pairs, agree_pairs,
}
use libpeco.Extensions.Dns.{get_domain_basic, offset_of, get_domain}

-- An offset is read as a number of 14 bits only if its high six bits are 0; otherwise these six bits
-- alone are taken as the offset.
offset_of-if : (h k : ℕ) → h < 64 → k < 256 → offset_of (0xc0 + h) k ≡ (if h == 0 then k else h)
unfolding offset_of misses_pairs
offset_of-if h k hh hk =
    agree_pairs (λ a b. offset_of (0xc0 + a) b) (λ a b. if a == 0 then b else a) 64 256 h k refl hh
      hk

is_offset : (h : ℕ) → h < 64 → bit_and (0xc0 + h) 0xc0 ≡ 0xc0
unfolding misses
is_offset h hh = agree (λ a. bit_and (0xc0 + a) 0xc0) (λ a. 0xc0) 64 h refl hh

bind_some : (o : Option Bytes) → (o >>= λ r. some r) ≡ o
bind_some none = refl
bind_some (some r) = refl

-- A name that is only an offset of 14 bits, whose high six bits are `h` and low eight bits `k`, is
-- read at `k` if `h` is 0, and otherwise at `h`: an offset from 256 on leads elsewhere.
pub get_domain-offset :
    (h k : ℕ) (b p : Bytes)
    → h < 64
    → k < 256
    → get_domain 1 b ((0xc0 + h) ∷ k ∷ p) []
      ≡ get_domain_basic (suc (length b)) (drop (if h == 0 then k else h) b) []
unfolding get_domain
get_domain-offset h k b p hh hk =
    let at = offset_of-if h k hh hk in
    let offset : (bit_and (0xc0 + h) 0xc0 == 0xc0) ≡ true = ground (arith, is_offset h hh) in
    rw (offset, at)
      (bind_some (get_domain_basic (suc (length b)) (drop (if h == 0 then k else h) b) []))
