-- ===== src/Text/Base64.antt =====
-- base64_encode and base64_decode of src/basic/stringutil.cpp. The loop over an index becomes a
-- recursion on the bytes that are left, and the writes to `_output_str` append to a list;
-- `_wrap_width` is 0 in the source, so no line break is written.
pub mod Bits
pub mod RoundTrip
pub mod Bounds
mod Tests
use libpeco.Base.{
  ℕ, suc, ◌+◌, ◌*◌, ◌/◌, ◌%◌, bit_and, bit_or, List, [], ◌∷◌, ◌++◌, Bytes, codes, length, get_or,
  take, leb, ltb, ◌==◌, if◌then◌else◌,
}

-- _lookup_dict of base64_encode.
abbrev pub lookup_dict : Bytes
lookup_dict = codes "ABCDEFGHIJKLMNOPQRSTUVWXYZabcdefghijklmnopqrstuvwxyz0123456789+/"

pub symbol : ℕ → ℕ
symbol v = get_or lookup_dict v 0

-- The four indices that three bytes are cut into.
pub index0 : ℕ → ℕ
index0 a = bit_and a 0xfc / 4

pub index1 : ℕ → ℕ → ℕ
index1 a b = bit_or (bit_and a 0x03 * 16) (bit_and b 0xf0 / 16)

pub index2 : ℕ → ℕ → ℕ
index2 b c = bit_or (bit_and b 0x0f * 4) (bit_and c 0xc0 / 64)

pub index3 : ℕ → ℕ
index3 c = bit_and c 0x3f

-- The loop and the left-over data behind it; index1 and index2 of the left-over have one byte.
pub encode_loop : Bytes → Bytes
encode_loop [] = []
encode_loop (a ∷ []) = symbol (index0 a) ∷ symbol (bit_and a 0x03 * 16) ∷ b'=' ∷ b'=' ∷ []
encode_loop (a ∷ b ∷ []) =
    symbol (index0 a) ∷ symbol (index1 a b) ∷ symbol (bit_and b 0x0f * 4) ∷ b'=' ∷ []
encode_loop (a ∷ b ∷ c ∷ s) =
    symbol (index0 a)
    ∷ symbol (index1 a b)
    ∷ symbol (index2 b c)
    ∷ symbol (index3 c)
    ∷ encode_loop s

-- `_max_output_len`, the size of the buffer that the loop writes to.
pub encode_buffer_size : ℕ → ℕ
encode_buffer_size n = (n / 3 + 1) * 4

pub base64_encode : Bytes → Bytes
base64_encode s = let out = encode_loop s in if leb 4 (length out) then out else []

-- _loopup_dict of base64_decode; 99 marks a byte that is skipped.
abbrev pub loopup_dict : List ℕ
loopup_dict =
    99 ∷ 99 ∷ 99 ∷ 99 ∷ 99 ∷ 99 ∷ 99 ∷ 99 ∷ 99 ∷ 99 ∷ 99 ∷ 99 ∷ 99 ∷ 99 ∷ 99 ∷ 99 ∷ 99 ∷ 99 ∷ 99
    ∷ 99 ∷ 99 ∷ 99 ∷ 99 ∷ 99 ∷ 99 ∷ 99 ∷ 99 ∷ 99 ∷ 99 ∷ 99 ∷ 99 ∷ 99 ∷ 99 ∷ 99 ∷ 99 ∷ 99 ∷ 99 ∷ 99
    ∷ 99 ∷ 99 ∷ 99 ∷ 99 ∷ 99 ∷ 62 ∷ 99 ∷ 99 ∷ 99 ∷ 63 ∷ 52 ∷ 53 ∷ 54 ∷ 55 ∷ 56 ∷ 57 ∷ 58 ∷ 59 ∷ 60
    ∷ 61 ∷ 99 ∷ 99 ∷ 99 ∷ 99 ∷ 99 ∷ 99 ∷ 99 ∷ 0 ∷ 1 ∷ 2 ∷ 3 ∷ 4 ∷ 5 ∷ 6 ∷ 7 ∷ 8 ∷ 9 ∷ 10 ∷ 11 ∷ 12
    ∷ 13 ∷ 14 ∷ 15 ∷ 16 ∷ 17 ∷ 18 ∷ 19 ∷ 20 ∷ 21 ∷ 22 ∷ 23 ∷ 24 ∷ 25 ∷ 99 ∷ 99 ∷ 99 ∷ 99 ∷ 99 ∷ 99
    ∷ 26 ∷ 27 ∷ 28 ∷ 29 ∷ 30 ∷ 31 ∷ 32 ∷ 33 ∷ 34 ∷ 35 ∷ 36 ∷ 37 ∷ 38 ∷ 39 ∷ 40 ∷ 41 ∷ 42 ∷ 43 ∷ 44
    ∷ 45 ∷ 46 ∷ 47 ∷ 48 ∷ 49 ∷ 50 ∷ 51 ∷ 99 ∷ 99 ∷ 99 ∷ 99 ∷ 99 ∷ []

pub decoded : ℕ → ℕ
decoded c = get_or loopup_dict (bit_and c 0x7f) 0

-- `accumulator` and the array `accumulated`.
pub record Accumulated : Type 0 where
  pub accumulator : ℕ
  pub a0 : ℕ
  pub a1 : ℕ
  pub a2 : ℕ
  pub a3 : ℕ

abbrev pub start : Accumulated
start = record { accumulator = 0; a0 = 0; a1 = 0; a2 = 0; a3 = 0 }

-- The three bytes that four indices make, each stored in an unsigned char.
pub byte0 : ℕ → ℕ → ℕ
byte0 v0 v1 = bit_or (v0 * 4) (v1 / 16) % 256

pub byte1 : ℕ → ℕ → ℕ
byte1 v1 v2 = bit_or (v1 * 16) (v2 / 4) % 256

pub byte2 : ℕ → ℕ → ℕ
byte2 v2 v3 = bit_or (v2 * 64) v3 % 256

-- `accumulated[accumulator] = decoded`
pub store : Accumulated → ℕ → Accumulated
store s v =
    if s.accumulator == 0
    then record s { a0 = v }
    else if s.accumulator == 1
    then record s { a1 = v }
    else if s.accumulator == 2
    then record s { a2 = v }
    else record s { a3 = v }

-- What the fourth index writes.
pub emitted : Accumulated → Bytes
emitted s =
    if s.accumulator == 3 then byte0 s.a0 s.a1 ∷ byte1 s.a1 s.a2 ∷ byte2 s.a2 s.a3 ∷ [] else []

pub decode_loop : Bytes → Accumulated → Bytes → Accumulated × Bytes
unfolding store emitted
decode_loop [] s out = (s, out)
decode_loop (c ∷ r) s out =
    let t = store s (decoded c) in
    let kept =
      decode_loop r (record t { accumulator = (t.accumulator + 1) % 4 }) (out ++ emitted t) in
    let skipped = decode_loop r s out in if decoded c == 99 then skipped else kept

-- The left-over data: one byte is written but not counted, and so on.
pub left_over : Accumulated → Bytes → Bytes
left_over s out =
    if s.accumulator == 0
    then out
    else if s.accumulator == 1
    then take (length out) (out ++ byte0 s.a0 s.a1 ∷ [])
    else if s.accumulator == 2
    then take (length out + 1) (out ++ byte0 s.a0 s.a1 ∷ byte1 s.a1 s.a2 ∷ [])
    else take (length out + 2) (out ++ byte0 s.a0 s.a1 ∷ byte1 s.a1 s.a2 ∷ [])

pub decode_buffer_size : ℕ → ℕ
decode_buffer_size n = (n / 4 + 1) * 3

pub base64_decode : Bytes → Bytes
unfolding decode_loop left_over
base64_decode s = let (t, out) = decode_loop s start [] in left_over t out
