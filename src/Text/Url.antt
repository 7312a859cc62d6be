-- ===== src/Text/Url.antt =====
-- url_encode and url_decode of src/basic/stringutil.cpp, with their two helpers. The loop over an
-- index becomes a recursion on the bytes that are left, and `_temp +=` becomes the list that the
-- rest of the loop returns.
pub mod RoundTrip
pub mod Alphabet
mod Tests
use libpeco.Base.{
  ℕ, suc, ◌+◌, ◌-◌, ◌*◌, ◌/◌, ◌%◌, List, Bool, ◌&&◌, ◌||◌, [], ◌∷◌, ◌++◌, Bytes, ltb, leb, ◌==◌,
  if◌then◌else◌,
}

-- std::isalnum in the C locale; a byte from 128 on is a negative `char` there, and no letter.
pub is_alnum : ℕ → Bool
is_alnum c = (leb b'0' c && leb c b'9') || (leb b'A' c && leb c b'Z') || (leb b'a' c && leb c b'z')

-- __url_encode_convert_to_hex, on an unsigned char.
pub to_hex : ℕ → ℕ
to_hex x = if ltb 9 x then (x + 55) % 256 else (x + 48) % 256

-- __url_encode_convert_from_hex: a byte that is no hexadecimal digit stands for itself, and every
-- letter counts, also those behind F.
pub from_hex : ℕ → ℕ
from_hex x =
    if leb b'A' x && leb x b'Z'
    then x - b'A' + 10
    else if leb b'a' x && leb x b'z'
    then x - b'a' + 10
    else if leb b'0' x && leb x b'9'
    then x - b'0'
    else x

-- The first test of url_encode: the byte is written as it is.
pub is_copied : ℕ → Bool
unfolding is_alnum
is_copied c = is_alnum c || c == b'-' || c == b'_' || c == b'.' || c == b'~'

-- What one round of the loop of url_encode appends.
pub encode_byte : ℕ → Bytes
encode_byte c =
    if is_copied c
    then c ∷ []
    else if c == b' '
    then b'+' ∷ []
    else b'%' ∷ to_hex (c / 16) ∷ to_hex (c % 16) ∷ []

pub url_encode : Bytes → Bytes
unfolding encode_byte
url_encode [] = []
url_encode (c ∷ s) = encode_byte c ++ url_encode s

-- `(_h << 4) + _l`, appended as one char.
pub join_hex : ℕ → ℕ → ℕ
unfolding from_hex
join_hex h l = (from_hex h * 16 + from_hex l) % 256

-- A percent sign with fewer than two bytes behind it ends the loop.
pub url_decode : Bytes → Bytes
unfolding join_hex
url_decode [] = []
url_decode (c ∷ []) = if c == b'+' then b' ' ∷ [] else if c == b'%' then [] else c ∷ []
url_decode (c ∷ d ∷ []) =
    let rest = url_decode (d ∷ []) in
    if c == b'+' then b' ' ∷ rest else if c == b'%' then [] else c ∷ rest
url_decode (c ∷ h ∷ l ∷ s) =
    let rest = url_decode (h ∷ l ∷ s) in
    let behind = url_decode s in
    if c == b'+' then b' ' ∷ rest else if c == b'%' then join_hex h l ∷ behind else c ∷ rest
