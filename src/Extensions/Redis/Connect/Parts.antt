-- ===== src/Extensions/Redis/Connect/Parts.antt =====
-- The parts of a connection string in its full form.
use libpeco.Base.{
  ℕ, ◌-◌, Bool, true, false, ◌&&◌, [], ◌∷◌, ◌++◌, some, Bytes, codes, length, length-append,
  take_append, get_or, ◌≡◌, ◌≢◌, refl, All, All-append, ◌==◌, ℤ, arith,
}
use mathlib.Core.List.{cons-ne-nil}
use libpeco.Text.Split.{find, find_in}
use libpeco.Text.Split.Laws.{split_pair}
use libpeco.Text.Number.{stoi}
use libpeco.Net.Peer.{Peer, is_number, parse_peer}
use libpeco.Extensions.Redis.Connect.{
  connect_info, with_port, password_of, database_of, redis_connector,
}

-- A text without the bytes that separate the parts of a connection string.
abbrev pub IsPart : Bytes → Type 0
IsPart t = (t ≢ []) × (All (λ x. x ≢ b'/') t × (All (λ x. x ≢ b'@') t × All (λ x. x ≢ 0) t))

joined : (w h : Bytes) → w ≢ [] → (w ++ b'@' ∷ h) ≢ []
joined [] h n = absurd (n refl)
joined (x ∷ w) h n = cons-ne-nil x (w ++ b'@' ∷ h)

-- No byte is both quotes.
one_quote : (c : ℕ) → (c == b'\'' && c == b'"') ≡ false
one_quote c = ground arith

password_of-append : (w h : Bytes) → password_of (w ++ b'@' ∷ h) h ≡ w
unfolding password_of
password_of-append w h =
    let n : length (w ++ b'@' ∷ h) - 1 - length h ≡ length w =
      omega (arith, length-append w (b'@' ∷ h)) in
    rw (one_quote (get_or (w ++ b'@' ∷ h) 0 0), n) (take_append w (b'@' ∷ h))

module _ (inet_addr : Bytes → ℕ) (strtod : Bytes → ℕ × Bool) where
  -- A connection string of a scheme, a password, an address and a number, by what the readers of the
  -- last two make of them.
  pub redis_connector-parts :
      (w h d : Bytes) (p : Peer) (z : ℤ)
      → IsPart w
      → IsPart h
      → IsPart d
      → is_number strtod d ≡ true
      → stoi d ≡ some z
      → parse_peer inet_addr strtod (with_port h) ≡ some p
      → redis_connector inet_addr strtod (codes "redis://" ++ ((w ++ b'@' ∷ h) ++ b'/' ∷ d))
        ≡ some (record { server_info = p; password = w; db = z })
  unfolding redis_connector connect_info find find_in database_of
  redis_connector-parts w h d p z pw ph pd n i e =
      rw
        (
          split_pair b'/' (w ++ b'@' ∷ h) d (λ q. absurd (omega (arith, q)))
              (
                joined w h pw.0,
                All-append (λ x. x ≢ b'/') w (b'@' ∷ h) pw.1.0
                    ((λ q. absurd (omega (arith, q))), ph.1.0),
              )
              (pd.0, pd.1.0)
              (All-append (λ x. x ≢ 0) w (b'@' ∷ h) pw.1.1.1
                ((λ q. absurd (omega (arith, q))), ph.1.1.1))
              pd.1.1.1,
          n,
          i,
          split_pair b'@' w h (λ q. absurd (omega (arith, q))) (pw.0, pw.1.1.0) (ph.0, ph.1.1.0)
              pw.1.1.1 ph.1.1.1,
          e,
          password_of-append w h,
        )
        refl
