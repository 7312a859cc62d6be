-- ===== src/Extensions/Redis/Connect.antt =====
-- The constructor of redis_connector from a connection string, in src/extensions/redis.cpp. `none`
-- stands for an exception or an access out of range. `strtod` and `inet_addr` are the parameters
-- that peers and is_number take.
pub mod Parts
pub mod Printed
mod Tests
use libpeco.Base.{
  ℕ, suc, ◌+◌, ◌-◌, ◌%◌, ◌^◌, Bool, ◌&&◌, List, [], ◌∷◌, ◌++◌, Option, none, some, Bytes, codes,
  length, get_elem?, get_or, take, drop, ltb, ◌==◌, if◌then◌else◌, ◌>>=◌, ℤ, pos,
}
use libpeco.Text.Split.{split, find}
use libpeco.Text.Number.{stoi}
use libpeco.Net.Peer.{Peer, is_number, parse_peer}

pub record Connector : Type 0 where
  pub server_info : Peer
  pub password : Bytes
  pub db : ℤ

abbrev pub last_part : List Bytes → Option Bytes
last_part [] = none
last_part (p ∷ []) = some p
last_part (p ∷ q ∷ ps) = last_part (q ∷ ps)

-- What is behind the scheme; without one the offset is out of range.
unfoldable pub connect_info : Bytes → Option Bytes
unfolding find
connect_info s = elim (find s (codes "://") 0) [ none ↦ none | some n ↦ some (drop (n + 3) s) ]

unfoldable pub with_port : Bytes → Bytes
unfolding find
with_port s = elim (find s (codes ":") 0) [ none ↦ s ++ codes ":6379" | some n ↦ s ]

-- The password before the last part of the text.
unfoldable pub password_of : Bytes → Bytes → Bytes
password_of text last =
    let n = length text - 1 - length last in
    let c = get_or text 0 0 in
    if c == b'\'' && c == b'"' then take ((n + 2 ^ 64 - 2) % 2 ^ 64) (drop 1 text) else take n text

module _ (inet_addr : Bytes → ℕ) (strtod : Bytes → ℕ × Bool) where
  -- The number of the database, from the second part if it is one.
  unfoldable pub database_of : List Bytes → Option ℤ
  unfolding is_number stoi
  database_of (p ∷ q ∷ ps) = if is_number strtod q then stoi q else some (pos 0)
  database_of _ = some (pos 0)

  unfoldable pub redis_connector : Bytes → Option Connector
  unfolding connect_info split database_of parse_peer with_port password_of
  redis_connector s = do
    conn ← connect_info s
    parts ← split conn (codes "/" ∷ (0 ∷ []) ∷ [])
    db ← database_of parts
    first ← get_elem? parts 0
    pass ← split first (codes "@" ∷ (0 ∷ []) ∷ [])
    last ← last_part pass
    peer ← parse_peer inet_addr strtod (with_port last)
    some (record {
      server_info = peer;
      password = if length pass == 1 then [] else password_of first last;
      db = db;
    })
