-- ===== src/Text/Affix.antt =====
-- The tests for the start and the end of a string in src/basic/stringutil.cpp, and the functions
-- that remove them.
pub mod Laws
mod Tests
use libpeco.Base.{
  ℕ, ◌-◌, Bool, true, false, [], ◌∷◌, Bytes, length, take, drop, leb, ◌==◌, if◌then◌else◌,
}

-- The loop of both tests, over the bytes of `p`.
unfoldable pub same_bytes : Bytes → Bytes → Bool
same_bytes s [] = true
same_bytes [] (d ∷ p) = false
same_bytes (c ∷ s) (d ∷ p) = let rest = same_bytes s p in if c == d then rest else false

unfoldable pub is_string_start : Bytes → Bytes → Bool
unfolding same_bytes
is_string_start s p = if leb (length p) (length s) then same_bytes s p else false

pub check_string_start_and_remove : Bytes → Bytes → Bytes
unfolding is_string_start
check_string_start_and_remove s p = if is_string_start s p then drop (length p) s else s

pub is_string_end : Bytes → Bytes → Bool
unfolding same_bytes
is_string_end s p =
    if leb (length p) (length s) then same_bytes (drop (length s - length p) s) p else false

pub check_string_end_and_remove : Bytes → Bytes → Bytes
unfolding is_string_end
check_string_end_and_remove s p = if is_string_end s p then take (length s - length p) s else s
