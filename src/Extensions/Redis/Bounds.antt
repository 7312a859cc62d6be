-- ===== src/Extensions/Redis/Bounds.antt =====
-- How many bytes the parser takes, and how deep it descends.
pub mod Depth
use libpeco.Base.{
  ℕ, zero, suc, ◌+◌, ◌-◌, ◌≤◌, ◌<◌, Bool, true, false, not, ◌&&◌, ◌||◌, List, [], ◌∷◌, ◌++◌, Option,
  none, some, Bytes, length, take, drop, length-drop, length-take-le, ltb, ◌==◌, if◌then◌else◌, ◌≡◌,
  ◌⊎◌, inl, inr, Bool-cases, Option-cases, refl, sym, subst, arith, ℤ, pos, negsuc, ltb_ℤ, int_of,
  add_count,
}
use libpeco.Text.Number.{stoi}
use libpeco.Extensions.Redis.Object.{
  ReplyType, status, error, integer, bulk, multibulk, unknown, RedisObject, redis_object,
  SubObjects, no_objects, emplace_back, size, all_get, is_validate, empty_object,
}
use libpeco.Extensions.Redis.Parse.{
  Outcome, throws, runs_out, returns, find_crlf, reply_type_of, starts_crlf, parse_body, parse_subs,
  parse_more, count_of, parse_line, parse_typed, parse_first, parse_rest, parse_step, constructed,
  parse_response, is_multibulk,
}

-- A call that takes at most `n` bytes, and did not run out of depth.
unfoldable pub IsBounded : ℕ → Outcome → Type 0
IsBounded n throws = Unit
IsBounded n runs_out = ⊥
IsBounded n (returns s o) = s ≤ n

-- How many objects lie in each other, each last in the one around it.
unfoldable mutual
  pub nesting : RedisObject → ℕ
  nesting (redis_object unknown c n k xs) = 0
  nesting (redis_object _ c n k xs) = suc (nesting_last xs)

  pub nesting_last : SubObjects → ℕ
  nesting_last no_objects = 0
  nesting_last (emplace_back xs x) = nesting x

IsBounded-le : (n m : ℕ) (r : Outcome) → n ≤ m → IsBounded n r → IsBounded m r
unfolding IsBounded
IsBounded-le n m throws h b = tt
IsBounded-le n m runs_out h b = b
IsBounded-le n m (returns s o) h b = omega arith

pub IsBounded-constructed : (n : ℕ) (r : Outcome) → IsBounded n r → IsBounded n (constructed r)
unfolding IsBounded
IsBounded-constructed n throws b = tt
IsBounded-constructed n runs_out b = b
IsBounded-constructed n (returns zero (redis_object t c m k xs)) b = omega arith
IsBounded-constructed n (returns (suc s) o) b = b

parse_body-IsBounded :
    (z : ℤ) (shift : ℕ) (body : Bytes) (o : RedisObject)
    → IsBounded (shift + length body) (parse_body z shift body o)
unfolding parse_body IsBounded
parse_body-IsBounded (negsuc m) shift body o = ground arith
parse_body-IsBounded (pos n) shift body o = ground (arith, length-drop n body)

find_crlf-cases :
    (d : Bytes) → (find_crlf d ≡ none) ⊎ ((p : ℕ) × (find_crlf d ≡ some p) × (p + 2 ≤ length d))
unfolding find_crlf
find_crlf-cases [] = inl refl
find_crlf-cases (c ∷ []) = inl refl
find_crlf-cases (c ∷ d ∷ s) = elim (Bool-cases (c == 13 && d == 10)) [
  | inl e ↦ inr (0, rw e refl, omega arith)
  | inr e ↦ elim (find_crlf-cases (d ∷ s)) [
    | inl h ↦ inl (rw (e, h) refl)
    | inr q ↦ inr (suc q.0, rw (e, q.1) refl, omega (arith, q.2))
  ]
]

module _ (parse_new : Bytes → Outcome) (m : ℕ)
    (bounded : (e : Bytes) → length e < m → IsBounded (length e) (parse_new e)) where
  -- One round, by what the new object gave.
  round :
      (g shift k : ℕ) (body : Bytes) (t : ReplyType) (c : Bytes) (n : ℤ) (xs : SubObjects)
      (r : Outcome)
      → parse_new body ≡ r
      → IsBounded (length body) r
      → ((s : ℕ) (x : RedisObject)
          → (s == 0) ≡ false
          → s ≤ length body
          → IsBounded (shift + length body) (
              parse_subs parse_new g
                (shift + s)
                (drop s body)
                (redis_object t c n k (emplace_back xs x))))
      → IsBounded
          (shift + length body)
          (parse_subs parse_new (suc g) shift body (redis_object t c n k xs))
  unfolding parse_subs IsBounded
  round g shift k body t c n xs throws e b next = rw (e, parse_subs) tt
  round g shift k body t c n xs runs_out e b next = absurd b
  round g shift k body t c n xs (returns s x) e b next = elim (Bool-cases (s == 0)) [
    | inl h ↦ rw (e, parse_subs, h) (omega arith)
    | inr h ↦ elim (Bool-cases (not (all_get x) || suc (size xs) == k)) [
      | inl h' ↦ rw (e, parse_subs, h, h') (omega arith)
      | inr h' ↦ rw (e, parse_subs, h, h') (next s x h b)
    ]
  ]

  parse_subs-IsBounded :
      (g shift k : ℕ) (body : Bytes) (t : ReplyType) (c : Bytes) (n : ℤ) (xs : SubObjects)
      → length body < g
      → length body < m
      → IsBounded
          (shift + length body)
          (parse_subs parse_new g shift body (redis_object t c n k xs))
  unfolding parse_subs
  parse_subs-IsBounded zero shift k body t c n xs hg hm = absurd (omega arith)
  parse_subs-IsBounded (suc g) shift k body t c n xs hg hm =
      round g shift k body t c n xs (parse_new body) refl (bounded body hm) (λ s x some_bytes le.
        IsBounded-le (shift + s + length (drop s body)) (shift + length body)
          (parse_subs parse_new g (shift + s) (drop s body)
            (redis_object t c n k (emplace_back xs x)))
          (omega (arith, length-drop s body, le))
          (parse_subs-IsBounded g (shift + s) k (drop s body) t c n (emplace_back xs x)
            (ground (arith, length-drop s body, some_bytes, le))
            (omega (arith, length-drop s body))))

  parse_more-IsBounded :
      (shift : ℕ) (body : Bytes) (o : RedisObject)
      → length body < m
      → IsBounded (shift + length body) (parse_more parse_new shift body o)
  unfolding parse_more IsBounded
  parse_more-IsBounded shift body (redis_object t c n k xs) hm = elim (Bool-cases (k == size xs)) [
    | inl e ↦ rw e (omega arith)
    | inr e ↦ rw e (parse_subs-IsBounded (suc (length body)) shift k body t c n xs (omega arith) hm)
  ]

  parse_line-IsBounded :
      (ty : ReplyType) (text body : Bytes) (o : RedisObject)
      → length body < m
      → IsBounded (3 + length text + length body) (parse_line parse_new ty text body o)
  unfolding parse_line IsBounded
  parse_line-IsBounded status text body (redis_object t c n k xs) hm = omega arith
  parse_line-IsBounded error text body (redis_object t c n k xs) hm = omega arith
  parse_line-IsBounded integer text body (redis_object t c n k xs) hm = omega arith
  parse_line-IsBounded unknown text body (redis_object t c n k xs) hm = omega arith
  parse_line-IsBounded bulk text body (redis_object t c n k xs) hm =
      elim (Option-cases (stoi text)) [
        | inl e ↦ rw (e, parse_line) tt
        | inr q ↦
            rw (q.1, parse_line)
              (parse_body-IsBounded q.0 (3 + length text) body (redis_object bulk c q.0 k xs))
      ]
  parse_line-IsBounded multibulk text body (redis_object t c n k xs) hm =
      elim (Option-cases (stoi text)) [
        | inl e ↦ rw (e, parse_line) tt
        | inr q ↦
            rw (q.1, parse_line)
              (parse_more-IsBounded (3 + length text) body
                (redis_object multibulk c (pos 0) (count_of q.0) xs) hm)
      ]

  -- A line was found, or it was not.
  found :
      (p : ℕ) (ty : ReplyType) (d : Bytes) (o : RedisObject)
      → p + 2 ≤ length d
      → length d ≤ m
      → IsBounded (suc (length d)) (parse_line parse_new ty (take p d) (drop (p + 2) d) o)
  found p ty d o hp hm =
      let size = length-drop (p + 2) d in
      IsBounded-le (3 + length (take p d) + length (drop (p + 2) d)) (suc (length d))
        (parse_line parse_new ty (take p d) (drop (p + 2) d) o)
        (omega (arith, size, length-take-le p d))
        (parse_line-IsBounded ty (take p d) (drop (p + 2) d) o (omega (arith, size)))

  line_if_found :
      (ty : ReplyType) (d : Bytes) (o : RedisObject)
      → length d ≤ m
      → IsBounded (suc (length d)) (elim (find_crlf d) [
        | none ↦ returns 0 o
        | some p ↦ parse_line parse_new ty (take p d) (drop (p + 2) d) o
      ])
  unfolding IsBounded
  line_if_found ty d o hm = elim (find_crlf-cases d) [
    | inl e ↦ rw e (omega arith)
    | inr q ↦ rw q.1 (found q.0 ty d o q.2 hm)
  ]

  parse_typed-IsBounded :
      (ty : ReplyType) (d : Bytes) (o : RedisObject)
      → length d ≤ m
      → IsBounded (suc (length d)) (parse_typed parse_new ty d o)
  unfolding parse_typed IsBounded
  parse_typed-IsBounded unknown d o hm = omega arith
  parse_typed-IsBounded status d (redis_object t c n k xs) hm =
      line_if_found status d (redis_object status c n k xs) hm
  parse_typed-IsBounded error d (redis_object t c n k xs) hm =
      line_if_found error d (redis_object error c n k xs) hm
  parse_typed-IsBounded integer d (redis_object t c n k xs) hm =
      line_if_found integer d (redis_object integer c n k xs) hm
  parse_typed-IsBounded bulk d (redis_object t c n k xs) hm =
      line_if_found bulk d (redis_object bulk c n k xs) hm
  parse_typed-IsBounded multibulk d (redis_object t c n k xs) hm =
      line_if_found multibulk d (redis_object multibulk c n k xs) hm

  pub parse_first-IsBounded :
      (d : Bytes) (o : RedisObject)
      → length d ≤ suc m
      → IsBounded (length d) (parse_first parse_new d o)
  unfolding parse_first IsBounded
  parse_first-IsBounded [] o hm = omega arith
  parse_first-IsBounded (b ∷ d) o hm = parse_typed-IsBounded (reply_type_of b) d o (omega arith)

  more_behind :
      (s : ℕ) (d : Bytes) (o : RedisObject)
      → s ≤ length d
      → length d < m
      → IsBounded (length d) (parse_more parse_new s (drop s d) o)
  more_behind s d o hs hm =
      let size = length-drop s d in
      IsBounded-le (s + length (drop s d)) (length d) (parse_more parse_new s (drop s d) o)
        (omega (arith, size, hs)) (parse_more-IsBounded s (drop s d) o (omega (arith, size)))

  -- By what the last sub object gave.
  last_gave :
      (r : Outcome) (d : Bytes) (t : ReplyType) (c : Bytes) (n : ℤ) (k : ℕ) (xs : SubObjects)
      → length d < m
      → IsBounded (length d) r
      → IsBounded (length d) (elim r [
        | throws ↦ throws
        | runs_out ↦ runs_out
        | returns s y ↦
            if all_get y
            then parse_more parse_new s (drop s d) (redis_object t c n k (emplace_back xs y))
            else returns s (redis_object t c n k (emplace_back xs y))
      ])
  unfolding IsBounded
  last_gave throws d t c n k xs hm b = tt
  last_gave runs_out d t c n k xs hm b = b
  last_gave (returns s y) d t c n k xs hm b = elim (Bool-cases (all_get y)) [
    | inl e ↦ rw e (more_behind s d (redis_object t c n k (emplace_back xs y)) b hm)
    | inr e ↦ rw e b
  ]

  pub parse_rest-IsBounded :
      (parse_last : RedisObject → Outcome) (d : Bytes) (t : ReplyType) (c : Bytes) (n : ℤ) (k : ℕ)
      (xs : SubObjects)
      → length d < m
      → ((x : RedisObject) → nesting x ≤ nesting_last xs → IsBounded (length d) (parse_last x))
      → IsBounded (length d) (parse_rest parse_new parse_last d (redis_object t c n k xs))
  unfolding parse_rest nesting_last
  parse_rest-IsBounded parse_last d t c n k no_objects hm last =
      more_behind 0 d (redis_object t c n k no_objects) (omega arith) hm
  parse_rest-IsBounded parse_last d t c n k (emplace_back xs x) hm last =
      elim (Bool-cases (all_get x)) [
        | inl e ↦ rw e (more_behind 0 d (redis_object t c n k (emplace_back xs x)) (omega arith) hm)
        | inr e ↦ rw e (last_gave (parse_last x) d t c n k xs hm (last x (omega arith)))
      ]
