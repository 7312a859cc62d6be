-- ===== src/Basic/Hexdump.antt =====
-- The class hexdump of src/basic/hexdump.cpp on a system of 64 bits. The data is the memory that may
-- be read from the pointer on, the address the pointer's value; `none` stands for a read behind that
-- memory. isprint of the C library is the parameter `is_print`. The formats of snprintf are the two
-- that the code uses.
pub mod Layout
pub mod Text
pub mod ReadBack
pub mod Overrun
pub mod Whole
mod Tests
use libpeco.Base.{
  ℕ, zero, suc, ◌+◌, ◌-◌, ◌*◌, ◌/◌, ◌%◌, ◌^◌, Bool, true, false, List, [], ◌∷◌, ◌++◌, Option, none,
  some, Bytes, codes, length, set, drop, ltb, ◌==◌, if◌then◌else◌, ◌>>=◌,
}

pub record Hexdump : Type 0 where
  pub bytes : Bytes
  pub address : ℕ
  pub length_of_data : ℕ
  pub line_count : ℕ

-- How many lines there are, at least one.
unfoldable pub calculate_data : ℕ → ℕ
calculate_data n = let k = n / 16 + (if ltb 0 (n % 16) then 1 else 0) in if k == 0 then 1 else k

unfoldable pub hexdump : Bytes → ℕ → ℕ → Hexdump
unfolding calculate_data
hexdump d address n = record {
  bytes = d;
  address = address;
  length_of_data = n;
  line_count = calculate_data n;
}

-- The bytes of a line, by its index.
unfoldable pub line_size : Hexdump → ℕ → ℕ
line_size h index =
    let ls = if h.length_of_data % 16 == 0 then 16 else h.length_of_data % 16 in
    if index == (h.line_count - 1) then (if h.line_count == 1 then h.length_of_data else ls) else 16

-- The line that stands for one behind the end.
abbrev pub last_of : ℕ → Hexdump → ℕ
last_of to h = if ltb (h.line_count - 1) to then h.line_count - 1 else to

-- The formats %02x and %016lx, with the number of digits.
abbrev pub hex_digit : ℕ → ℕ
hex_digit d = if ltb d 10 then 48 + d else 87 + d

unfoldable pub hex : ℕ → ℕ → Bytes
hex zero n = []
hex (suc k) n = hex k (n / 16) ++ hex_digit (n % 16) ∷ []

abbrev pub spaces : ℕ → Bytes
spaces zero = []
spaces (suc n) = 32 ∷ spaces n

-- A text put into the buffer from a place on, and with the zero that ends it.
unfoldable pub write : ℕ → Bytes → Bytes → Bytes
write i [] buf = buf
write i (c ∷ t) buf = write (suc i) t (set buf i c)

unfoldable pub snprintf : ℕ → Bytes → Bytes → Bytes
unfolding write
snprintf i t buf = write i (t ++ 0 ∷ []) buf

-- The text of a buffer, up to its first zero.
unfoldable pub c_str : Bytes → Bytes
c_str [] = []
c_str (c ∷ buf) = if c == 0 then [] else c ∷ c_str buf

-- The buffer with the address, and the text of a buffer with the marks that close a line.
abbrev pub begin_line : ℕ → Bytes
begin_line a = snprintf 0 (hex 16 a ++ codes ": ") (spaces 87)

abbrev pub end_line : Bytes → Bytes
end_line buf = c_str (set (set (set buf 67 b'|') 84 b'|') 85 0)

module _ (is_print : ℕ → Bool) where
  abbrev pub shown : ℕ → ℕ
  shown b = if is_print b then b else 46

  -- The body of the loop in `line`.
  unfoldable pub put_byte : ℕ → ℕ → Bytes → Bytes
  unfolding snprintf hex
  put_byte c b buf =
      set (set (snprintf (c * 3 + 18) (hex 2 b ++ 32 ∷ []) buf) ((c + 1) * 3 + 18) 32)
        (48 + 1 + c + 18 + 1) (shown b)

  -- The loop: from the byte `c` of the line, as many as the second number says.
  unfoldable pub put_bytes : ℕ → ℕ → Bytes → Bytes → Option Bytes
  unfolding put_byte
  put_bytes c zero d buf = some buf
  put_bytes c (suc n) [] buf = none
  put_bytes c (suc n) (b ∷ d) buf = put_bytes (suc c) n d (put_byte c b buf)

  unfoldable pub line : Hexdump → ℕ → Option Bytes
  unfolding put_bytes line_size c_str snprintf hex
  line h index = do
    buf ←
        put_bytes 0 (line_size h index) (drop (index * 16) h.bytes)
          (begin_line ((h.address + index * 16) % 2 ^ 64))
    some (end_line buf)

  -- The loops of print: the lines from an index on, each with its end.
  unfoldable pub print_from : ℕ → ℕ → Hexdump → Option Bytes
  unfolding line
  print_from i zero h = some []
  print_from i (suc n) h = do t ← line h i; rest ← print_from (suc i) n h; some (t ++ b'\n' ∷ rest)

  unfoldable pub print : Hexdump → Option Bytes
  unfolding print_from
  print h = print_from 0 h.line_count h

  unfoldable pub print_lines : ℕ → ℕ → Hexdump → Option Bytes
  unfolding print_from
  print_lines from to h = print_from from (suc (last_of to h) - from) h

-- The part of a dump from one line to another, with the arithmetic of size_t.
unfoldable pub lines : ℕ → ℕ → Hexdump → Hexdump
unfolding hexdump
lines from to h =
    let n = (last_of to h + 2 ^ 64 - from + 1) % 2 ^ 64 in
    let k = if ltb h.line_count n then h.line_count else n in
    hexdump (drop (from * 16) h.bytes) (h.address + from * 16) (k * 16)
