-- ===== src/Extensions/Redis/Parse.antt =====
-- parse_response_ of redis_object. `nopos` is `none`; `invalidate` is 0 in the source, and here.
use libpeco.Base.{
  ℕ, zero, suc, ◌+◌, Bool, true, false, not, ◌&&◌, ◌||◌, [], ◌∷◌, Option, none, some, Bytes, length,
  take, drop, ltb, ◌==◌, if◌then◌else◌, ℤ, pos, negsuc, ltb_ℤ, int_of, add_count,
}
use libpeco.Text.Number.{stoi}
use libpeco.Extensions.Redis.Object.{
  ReplyType, status, error, integer, bulk, multibulk, unknown, RedisObject, redis_object,
  no_objects, emplace_back, size, all_get, is_validate, empty_object,
}

-- A call throws, or returns a number of bytes and leaves an object. A call for which the depth
-- that it may descend to is too small runs out.
pub data Outcome : Type 0 where
  throws runs_out : Outcome
  returns : ℕ → RedisObject → Outcome

-- find_crlf_, for at least one byte.
unfoldable pub find_crlf : Bytes → Option ℕ
find_crlf [] = none
find_crlf (c ∷ []) = none
find_crlf (c ∷ d ∷ s) =
    if c == 13 && d == 10
    then some 0
    else elim (find_crlf (d ∷ s)) [ none ↦ none | some p ↦ some (suc p) ]

unfoldable pub reply_type_of : ℕ → ReplyType
reply_type_of c =
    if c == b'+'
    then status
    else if c == b'-'
    then error
    else if c == b':'
    then integer
    else if c == b'$'
    then bulk
    else if c == b'*'
    then multibulk
    else unknown

unfoldable pub starts_crlf : Bytes → Bool
starts_crlf [] = false
starts_crlf (c ∷ []) = false
starts_crlf (c ∷ d ∷ s) = c == 13 && d == 10

abbrev pub with_content : Bytes → RedisObject → RedisObject
with_content c (redis_object t _ n k xs) = redis_object t c n k xs

-- The body of a bulk; a negative length other than -1 is too long for a string.
unfoldable pub parse_body : ℤ → ℕ → Bytes → RedisObject → Outcome
unfolding starts_crlf
parse_body (negsuc m) shift body o =
    if m == 0
    then returns shift o
    else if ltb_ℤ (int_of (length body)) (negsuc m)
    then returns 0 o
    else throws
parse_body (pos n) shift body o =
    if ltb_ℤ (int_of (length body)) (pos n)
    then returns 0 o
    else if ltb (length (drop n body)) 2
    then returns 0 (with_content (take n body) o)
    else if starts_crlf (drop n body)
    then returns (shift + n + 2) (with_content (take n body) o)
    else returns 0 (with_content (take n body) o)

-- The loop over the sub objects. Each round that goes on takes a byte or more, so as many rounds
-- as there are bytes, and one more, are enough. `shift` is what was taken before.
unfoldable pub parse_subs : (Bytes → Outcome) → ℕ → ℕ → Bytes → RedisObject → Outcome
parse_subs parse_new zero shift body o = runs_out
parse_subs parse_new (suc f) shift body (redis_object t c n k xs) = elim (parse_new body) [
  | throws ↦ throws
  | runs_out ↦ runs_out
  | returns s x ↦
      let go_on =
        parse_subs parse_new f (shift + s) (drop s body)
          (redis_object t c n k (emplace_back xs x)) in
      if s == 0
      then returns shift (redis_object t c n k xs)
      else if not (all_get x) || suc (size xs) == k
      then returns (shift + s) (redis_object t c (add_count n (shift + s)) k (emplace_back xs x))
      else go_on
]

-- What follows for a multibulk.
unfoldable pub parse_more : (Bytes → Outcome) → ℕ → Bytes → RedisObject → Outcome
unfolding parse_subs
parse_more parse_new shift body (redis_object t c n k xs) =
    if k == size xs
    then returns shift (redis_object t c n k xs)
    else parse_subs parse_new (suc (length body)) shift body (redis_object t c n k xs)

abbrev pub count_of : ℤ → ℕ
count_of (pos n) = n
count_of (negsuc n) = 0

-- A new object of a known type: its first line, and what is behind it.
unfoldable pub parse_line : (Bytes → Outcome) → ReplyType → Bytes → Bytes → RedisObject → Outcome
unfolding parse_body parse_more
parse_line parse_new bulk text body (redis_object _ c n k xs) = elim (stoi text) [
  | none ↦ throws
  | some z ↦ parse_body z (3 + length text) body (redis_object bulk c z k xs)
]
parse_line parse_new multibulk text body (redis_object _ c n k xs) = elim (stoi text) [
  | none ↦ throws
  | some z ↦
      parse_more parse_new (3 + length text) body (redis_object multibulk c (pos 0) (count_of z) xs)
]
parse_line parse_new t text body (redis_object _ c n k xs) =
    returns (3 + length text) (redis_object t text (int_of (length text)) k xs)

-- A new object whose type is known from the first byte; the other bytes follow.
unfoldable pub parse_typed : (Bytes → Outcome) → ReplyType → Bytes → RedisObject → Outcome
unfolding find_crlf parse_line
parse_typed parse_new unknown d o = returns 0 o
parse_typed parse_new ty d (redis_object _ c n k xs) = elim (find_crlf d) [
  | none ↦ returns 0 (redis_object ty c n k xs)
  | some p ↦ parse_line parse_new ty (take p d) (drop (p + 2) d) (redis_object ty c n k xs)
]

unfoldable pub parse_first : (Bytes → Outcome) → Bytes → RedisObject → Outcome
unfolding reply_type_of parse_typed
parse_first parse_new [] o = returns 0 o
parse_first parse_new (b ∷ d) o = parse_typed parse_new (reply_type_of b) d o

-- An unfinished multibulk: first its last sub object, if that is unfinished.
unfoldable pub parse_rest :
    (Bytes → Outcome) → (RedisObject → Outcome) → Bytes → RedisObject → Outcome
unfolding parse_more
parse_rest parse_new parse_last d (redis_object t c n k no_objects) =
    parse_more parse_new 0 d (redis_object t c n k no_objects)
parse_rest parse_new parse_last d (redis_object t c n k (emplace_back xs x)) =
    if all_get x
    then parse_more parse_new 0 d (redis_object t c n k (emplace_back xs x))
    else elim (parse_last x) [
      | throws ↦ throws
      | runs_out ↦ runs_out
      | returns s y ↦
          if all_get y
          then parse_more parse_new s (drop s d) (redis_object t c n k (emplace_back xs y))
          else returns s (redis_object t c n k (emplace_back xs y))
    ]

abbrev pub is_multibulk : RedisObject → Bool
is_multibulk (redis_object multibulk c n k xs) = true
is_multibulk (redis_object _ c n k xs) = false

-- One call, given how it parses a new sub object and its last one.
unfoldable pub parse_step :
    (Bytes → Outcome) → (RedisObject → Outcome) → RedisObject → Bytes → Outcome
unfolding parse_first parse_rest all_get is_validate
parse_step parse_new parse_last o d =
    if ltb (length d) 3
    then returns 0 o
    else if not (is_validate o)
    then parse_first parse_new d o
    else if not (is_multibulk o) || all_get o
    then returns 0 o
    else parse_rest parse_new parse_last d o

-- What the constructor does with the result: the type of an unfinished object is forgotten.
abbrev pub constructed : Outcome → Outcome
constructed throws = throws
constructed runs_out = runs_out
constructed (returns zero (redis_object t c n k xs)) = returns 0 (redis_object unknown c n k xs)
constructed (returns (suc s) o) = returns (suc s) o

-- The first argument bounds how deep objects are nested.
unfoldable pub parse_response : ℕ → RedisObject → Bytes → Outcome
unfolding parse_step
parse_response zero o d = runs_out
parse_response (suc f) o d =
    parse_step (λ e. constructed (parse_response f empty_object e)) (λ x. parse_response f x d) o d

-- The constructor from data.
unfoldable pub parse_object : ℕ → Bytes → Outcome
unfolding parse_response
parse_object f d = constructed (parse_response f empty_object d)

unfoldable pub continue_parse : ℕ → RedisObject → Bytes → Outcome
unfolding parse_response
continue_parse f o d = parse_response f o d
