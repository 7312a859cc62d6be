-- ===== src/Extensions/Redis/Bounds/Depth.antt =====
-- The parser as a whole: enough depth, and no byte beyond the data.
use libpeco.Base.{ℕ, zero, suc, ◌+◌, ◌<◌, Bytes, length, ltb, inl, inr, Bool-cases, arith}
use libpeco.Extensions.Redis.Object.{
  status, error, integer, bulk, multibulk, unknown, RedisObject, redis_object, all_get, is_validate,
  empty_object,
}
use libpeco.Extensions.Redis.Parse.{Outcome, parse_step, constructed, parse_response}
use libpeco.Extensions.Redis.Bounds.{
  IsBounded, nesting, parse_first-IsBounded, parse_rest-IsBounded, IsBounded-constructed,
}

module _ (parse_new : Bytes → Outcome) (parse_last : RedisObject → Outcome) (m : ℕ)
    (bounded : (e : Bytes) → length e < m → IsBounded (length e) (parse_new e)) where
  parse_step-IsBounded :
      (o : RedisObject) (d : Bytes)
      → nesting o + length d < suc m
      → ((x : RedisObject) → nesting x < nesting o → IsBounded (length d) (parse_last x))
      → IsBounded (length d) (parse_step parse_new parse_last o d)
  unfolding parse_step IsBounded is_validate nesting
  parse_step-IsBounded (redis_object unknown c n k xs) d hm last =
      elim (Bool-cases (ltb (length d) 3)) [
        | inl e ↦ rw e (omega arith)
        | inr e ↦ rw e (
            parse_first-IsBounded parse_new m bounded d (redis_object unknown c n k xs)
              (omega arith))
      ]
  parse_step-IsBounded (redis_object multibulk c n k xs) d hm last =
      elim (Bool-cases (ltb (length d) 3)) [
        | inl e ↦ rw e (omega arith)
        | inr e ↦ elim (Bool-cases (all_get (redis_object multibulk c n k xs))) [
          | inl h ↦ rw (e, h) (omega arith)
          | inr h ↦
              rw (e, h)
                (parse_rest-IsBounded parse_new m bounded parse_last d multibulk c n k xs
                  (omega arith) (λ x le. last x (omega arith)))
        ]
      ]
  parse_step-IsBounded (redis_object status c n k xs) d hm last = ground arith
  parse_step-IsBounded (redis_object error c n k xs) d hm last = ground arith
  parse_step-IsBounded (redis_object integer c n k xs) d hm last = ground arith
  parse_step-IsBounded (redis_object bulk c n k xs) d hm last = ground arith

-- One call of the parser, with any object and any data: it throws, or returns at most the length of
-- the data. It does not run out of depth, if the depth that is given is above the length of the data
-- plus the number of objects that lie in each other, each last in the one around it.
pub parse_response-IsBounded :
    (f : ℕ) (o : RedisObject) (d : Bytes)
    → nesting o + length d < f
    → IsBounded (length d) (parse_response f o d)
unfolding parse_response nesting
parse_response-IsBounded zero o d h = absurd (omega arith)
parse_response-IsBounded (suc f) o d h =
    parse_step-IsBounded (λ e. constructed (parse_response f empty_object e))
      (λ x. parse_response f x d) f
      (λ e le.
        IsBounded-constructed (length e) (parse_response f empty_object e)
          (parse_response-IsBounded f empty_object e (omega arith)))
      o d h (λ x le. parse_response-IsBounded f x d (omega arith))
