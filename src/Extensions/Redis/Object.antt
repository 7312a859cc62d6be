-- ===== src/Extensions/Redis/Object.antt =====
-- The class redis_object without its parser. The vector of sub objects is built by emplace_back,
-- with its last entry outermost.
use libpeco.Base.{
  ℕ, suc, Bool, true, false, ◌&&◌, ◌||◌, [], ◌∷◌, ◌++◌, Option, some, Bytes, codes, length, ◌==◌,
  if◌then◌else◌, ℤ, pos, negsuc,
}
use libpeco.Text.Number.{stoi}

pub data ReplyType : Type 0 where
  status error integer bulk multibulk unknown : ReplyType

mutual
  pub data RedisObject : Type 0 where
    -- reply_type_, reply_content_, content_length_, sub_object_count_ and sub_objects_.
    redis_object : ReplyType → Bytes → ℤ → ℕ → SubObjects → RedisObject

  pub data SubObjects : Type 0 where
    no_objects : SubObjects
    emplace_back : SubObjects → RedisObject → SubObjects

abbrev pub empty_object : RedisObject
empty_object = redis_object unknown [] (negsuc 0) 0 no_objects

abbrev pub size : SubObjects → ℕ
size no_objects = 0
size (emplace_back xs x) = suc (size xs)

-- all_get; of the sub objects only the last is asked.
unfoldable mutual
  pub all_get : RedisObject → Bool
  all_get (redis_object multibulk c n k xs) = k == size xs && last_get k xs
  all_get (redis_object status c n k xs) = true
  all_get (redis_object error c n k xs) = true
  all_get (redis_object integer c n k xs) = true
  all_get (redis_object bulk c n k xs) = true
  all_get (redis_object unknown c n k xs) = true

  pub last_get : ℕ → SubObjects → Bool
  last_get k no_objects = k == 0
  last_get k (emplace_back xs x) = k == 0 || all_get x

abbrev pub is_unknown : ReplyType → Bool
is_unknown unknown = true
is_unknown _ = false

unfoldable pub is_validate : RedisObject → Bool
is_validate (redis_object unknown c n k xs) = false
is_validate (redis_object _ c n k xs) = true

abbrev pub is_minus_one : ℤ → Bool
is_minus_one (negsuc n) = n == 0
is_minus_one (pos n) = false

unfoldable pub is_nil : RedisObject → Bool
is_nil (redis_object bulk c n k xs) = is_minus_one n
is_nil (redis_object multibulk c n k xs) = k == 0
is_nil (redis_object _ c n k xs) = false

unfoldable pub is_empty : RedisObject → Bool
is_empty (redis_object multibulk c n k xs) = k == 0
is_empty (redis_object _ c n k xs) = false

-- operator int; `none` if stoi throws.
unfoldable pub to_int : RedisObject → Option ℤ
to_int (redis_object integer c n k xs) = stoi c
to_int (redis_object _ c n k xs) = some (pos 0)

-- What join puts before each further string.
abbrev pub line_break : Bytes
line_break = 10 ∷ []

-- str; `lines` is the text of the sub objects, each behind a line break.
unfoldable mutual
  pub str : RedisObject → Bytes → Bytes
  str (redis_object status c n k xs) prefix = prefix ++ c
  str (redis_object error c n k xs) prefix = prefix ++ c
  str (redis_object integer c n k xs) prefix = prefix ++ (codes "(integer)" ++ c)
  str (redis_object bulk c n k xs) prefix =
      if is_minus_one n
      then prefix ++ codes "(nil)"
      else if length c == 0
      then prefix ++ codes "(empty_string)"
      else prefix ++ (codes "(string)" ++ c)
  str (redis_object multibulk c n k xs) prefix =
      (prefix ++ codes "(multibulk)") ++ lines xs (codes "  " ++ prefix)
  str (redis_object unknown c n k xs) prefix = codes "unknow"

  pub lines : SubObjects → Bytes → Bytes
  lines no_objects prefix = []
  lines (emplace_back xs x) prefix = lines xs prefix ++ (line_break ++ str x prefix)
