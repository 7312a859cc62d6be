-- ===== src/Extensions/Redis/Reply/Printed.antt =====
-- A line behind its first byte, and the whole replies but multibulks, when they are parsed.
use libpeco.Base.{
  ℕ, ◌+◌, ◌^◌, ◌<◌, false, [], ◌∷◌, ◌++◌, append_assoc, some, Bytes, All, length, length-append,
  take, drop, take_append, drop-append, drop_append, ltb, ◌≡◌, refl, arith, pos, negsuc, ltb_ℤ,
  int_of,
}
use libpeco.Text.Number.RoundTrip.{IsDigit}
use libpeco.Extensions.Redis.Command.{crlf}
use libpeco.Extensions.Redis.Object.{
  ReplyType, status, error, integer, bulk, multibulk, unknown, is_unknown, RedisObject,
  redis_object, empty_object, is_validate, no_objects,
}
use libpeco.Extensions.Redis.Parse.{
  Outcome, returns, find_crlf, starts_crlf, parse_body, with_content, parse_line, reply_type_of,
  parse_first, parse_typed, parse_step,
}
use libpeco.Extensions.Redis.Reply.{IsLine, print_line}

find_crlf-line : (c s : Bytes) → IsLine c → find_crlf ((c ++ crlf) ++ s) ≡ some (length c)
unfolding find_crlf
find_crlf-line [] s h = refl
find_crlf-line (x ∷ []) s h = ground arith
find_crlf-line (x ∷ y ∷ c) s h = ground (arith, find_crlf-line (y ∷ c) s h.1)

pub digits-IsLine : (c : Bytes) → All IsDigit c → IsLine c
digits-IsLine [] h = tt
digits-IsLine (x ∷ c) h = (λ e. ground (arith, h.0, e), digits-IsLine c h.1)

-- An empty object after its first byte.
abbrev pub typed : ReplyType → RedisObject
typed ty = redis_object ty [] (negsuc 0) 0 no_objects

module _ (parse_new : Bytes → Outcome) (parse_last : RedisObject → Outcome) where
  found :
      (ty : ReplyType) (c s : Bytes)
      → is_unknown ty ≡ false
      → find_crlf ((c ++ crlf) ++ s) ≡ some (length c)
      → take (length c) ((c ++ crlf) ++ s) ≡ c
      → drop (length c + 2) ((c ++ crlf) ++ s) ≡ s
      → parse_typed parse_new ty ((c ++ crlf) ++ s) empty_object
        ≡ parse_line parse_new ty c s (typed ty)
  unfolding parse_typed parse_line
  found unknown c s h e t d = ground arith
  found status c s h e t d = rw (e, parse_typed, t) refl
  found error c s h e t d = rw (e, parse_typed, t) refl
  found integer c s h e t d = rw (e, parse_typed, t) refl
  found bulk c s h e t d = rw (e, parse_typed, t, d) refl
  found multibulk c s h e t d = rw (e, parse_typed, t, d) refl

  parse_typed-line :
      (ty : ReplyType) (c s : Bytes)
      → is_unknown ty ≡ false
      → IsLine c
      → parse_typed parse_new ty ((c ++ crlf) ++ s) empty_object
        ≡ parse_line parse_new ty c s (typed ty)
  parse_typed-line ty c s h hc =
      found ty c s h (find_crlf-line c s hc) (rw (append_assoc) (take_append c (crlf ++ s)))
        (rw (append_assoc) (drop-append (length c + 2) 2 c (crlf ++ s) (omega arith)))

  pub parse_step-line :
      (b : ℕ) (ty : ReplyType) (c s : Bytes)
      → reply_type_of b ≡ ty
      → is_unknown ty ≡ false
      → IsLine c
      → parse_step parse_new parse_last empty_object (print_line b c ++ s)
        ≡ parse_line parse_new ty c s (typed ty)
  unfolding parse_step parse_first is_validate
  parse_step-line b ty c s e h hc =
      let long : ltb (length (print_line b c ++ s)) 3 ≡ false =
        ground (arith, length-append (c ++ crlf) s, length-append c crlf) in
      rw (long, e) (parse_typed-line ty c s h hc)

-- The body of a bulk.
pub parse_body-append :
    (shift : ℕ) (c s : Bytes) (o : RedisObject)
    → length ((c ++ crlf) ++ s) < 2 ^ 31
    → parse_body (pos (length c)) shift ((c ++ crlf) ++ s) o
      ≡ returns (shift + length c + 2) (with_content c o)
unfolding parse_body starts_crlf
parse_body-append shift c s o h =
    let size = length-append (c ++ crlf) s in
    let size' = length-append c crlf in
    let short : ltb_ℤ (int_of (length ((c ++ crlf) ++ s))) (pos (length c)) ≡ false =
      ground arith in
    let front : take (length c) ((c ++ crlf) ++ s) ≡ c =
      rw (append_assoc) (take_append c (crlf ++ s)) in
    let back : drop (length c) ((c ++ crlf) ++ s) ≡ crlf ++ s =
      rw (append_assoc) (drop_append c (crlf ++ s)) in
    rw (short, front, back) (ground arith)
