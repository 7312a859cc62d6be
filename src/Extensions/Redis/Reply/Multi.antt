-- ===== src/Extensions/Redis/Reply/Multi.antt =====
-- Printed multibulks when they are parsed: the loop over the sub objects, given that each of them
-- is parsed back.
use libpeco.Base.{
  sym, int_of, ℕ, zero, suc, ◌+◌, ◌^◌, ◌<◌, ◌≤◌, true, false, [], ◌++◌, append_assoc, append-nil,
  subst, Bytes, length, length-append, drop_append, ◌==◌, if◌then◌else◌, ◌≡◌, refl, ap, ◌∙◌, arith,
  pos,
}
use libpeco.Text.Number.{to_string}
use libpeco.Extensions.Redis.Command.{crlf}
use libpeco.Extensions.Redis.Object.{
  multibulk, redis_object, SubObjects, no_objects, emplace_back, size, all_get, last_get,
}
use libpeco.Extensions.Redis.Parse.{Outcome, returns, parse_subs}
use libpeco.Extensions.Redis.Reply.{
  Reply, multi_reply, status_reply, error_reply, integer_reply, bulk_reply, nil_reply, Replies,
  no_replies, reply_then, count, print_line, print, print_all, depth, depth_all, IsPrintable,
  ArePrintable, object_of, objects_of,
}

pub size-objects_of :
    (xs : SubObjects) (rs : Replies) → size (objects_of xs rs) ≡ size xs + count rs
unfolding objects_of
size-objects_of xs no_replies = omega arith
size-objects_of xs (reply_then r rs) =
    omega (arith, size-objects_of (emplace_back xs (object_of r)) rs)

length-print_line : (b : ℕ) (c s : Bytes) → 3 ≤ length (print_line b c ++ s)
length-print_line b c s = ground (arith, length-append (c ++ crlf) s, length-append c crlf)

pub length-print : (r : Reply) → 3 ≤ length (print r)
unfolding print
length-print (status_reply c) = ground (arith, length-append c crlf)
length-print (error_reply c) = ground (arith, length-append c crlf)
length-print (integer_reply c) = ground (arith, length-append c crlf)
length-print (bulk_reply c) = length-print_line b'$' (to_string (length c)) (c ++ crlf)
length-print nil_reply = omega arith
length-print (multi_reply rs) = length-print_line b'*' (to_string (count rs)) (print_all rs)

-- Every object is complete, also the last of a multibulk.
mutual
  unfolding all_get last_get object_of objects_of

  pub all_get-object_of : (r : Reply) → all_get (object_of r) ≡ true
  all_get-object_of (status_reply c) = refl
  all_get-object_of (error_reply c) = refl
  all_get-object_of (integer_reply c) = refl
  all_get-object_of (bulk_reply c) = refl
  all_get-object_of nil_reply = refl
  all_get-object_of (multi_reply rs) =
      let last = last_get-objects_of (count rs) no_objects rs (λ e. ground (arith, e)) in
      ground (arith, size-objects_of no_objects rs, last)

  last_get-objects_of :
      (k : ℕ) (xs : SubObjects) (rs : Replies)
      → (count rs ≡ 0 → last_get k xs ≡ true)
      → last_get k (objects_of xs rs) ≡ true
  last_get-objects_of k xs no_replies h = h refl
  last_get-objects_of k xs (reply_then r rs) h =
      last_get-objects_of k (emplace_back xs (object_of r)) rs
        (λ e. ground (arith, all_get-object_of r))

module _ (parse_new : Bytes → Outcome) (f : ℕ)
    (parsed : (r : Reply) (s : Bytes)
      → IsPrintable r
      → depth r < f
      → length (print r ++ s) < 2 ^ 31
      → parse_new (print r ++ s) ≡ returns (length (print r)) (object_of r)) where
  -- One round of the loop.
  round :
      (r : Reply) (g shift k n : ℕ) (s : Bytes) (xs : SubObjects)
      → IsPrintable r
      → depth r < f
      → length (print r ++ s) < 2 ^ 31
      → parse_subs parse_new (suc g) shift (print r ++ s) (redis_object multibulk [] (pos n) k xs)
        ≡ (if suc (size xs) == k
            then returns (shift + length (print r)) (
                redis_object multibulk []
                  (int_of (n + (shift + length (print r))))
                  k
                  (emplace_back xs (object_of r)))
            else parse_subs parse_new g
                (shift + length (print r))
                s
                (redis_object multibulk [] (pos n) k (emplace_back xs (object_of r))))
  unfolding parse_subs
  round r g shift k n s xs hp hd h =
      let some_bytes : (length (print r) == 0) ≡ false = ground (arith, length-print r) in
      rw (parsed r s hp hd h, parse_subs, some_bytes, all_get-object_of r, drop_append (print r) s)
        refl

  pub parse_subs-print_all :
      (r : Reply) (rs : Replies) (g shift t k n m : ℕ) (s : Bytes) (xs : SubObjects)
      → ArePrintable (reply_then r rs)
      → depth_all (reply_then r rs) < f
      → length (print_all (reply_then r rs) ++ s) < 2 ^ 31
      → k ≡ size xs + count (reply_then r rs)
      → count rs < g
      → t ≡ shift + length (print_all (reply_then r rs))
      → int_of (n + t) ≡ pos m
      → parse_subs parse_new g shift
          (print_all (reply_then r rs) ++ s)
          (redis_object multibulk [] (pos n) k xs)
        ≡ returns t (redis_object multibulk [] (pos m) k (objects_of xs (reply_then r rs)))
  unfolding print_all depth_all ArePrintable objects_of
  parse_subs-print_all r rs zero shift t k n m s xs hp hd h e hg ht hm = absurd (omega arith)
  parse_subs-print_all r no_replies (suc g) shift t k n m s xs hp hd h e hg ht hm =
      let nil : print r ++ [] ≡ print r = append-nil (print r) in
      let last : (suc (size xs) == k) ≡ true = ground arith in
      let total : t ≡ shift + length (print r) = ht ∙ ap (λ l. shift + length l) nil in
      rw
        (
          nil,
          round r g shift k n s xs hp.0 (ground arith)
              (subst (λ l. length (l ++ s) < 2 ^ 31) nil h),
          last,
          sym hm,
          total,
        )
        refl
  parse_subs-print_all r (reply_then q rs) (suc g) shift t k n m s xs hp hd h e hg ht hm =
      let rest = print_all (reply_then q rs) in
      let assoc : (print r ++ rest) ++ s ≡ print r ++ (rest ++ s) = append_assoc (print r) rest s in
      let h' : length (print r ++ (rest ++ s)) < 2 ^ 31 = subst (λ l. length l < 2 ^ 31) assoc h in
      let goes_on : (suc (size xs) == k) ≡ false = ground arith in
      rw (assoc, round r g shift k n (rest ++ s) xs hp.0 (ground arith) h', goes_on)
        (parse_subs-print_all q rs g (shift + length (print r)) t k n m s
          (emplace_back xs (object_of r)) hp.1 (ground arith)
          (omega (arith, h', length-append (print r) (rest ++ s))) (omega arith) (omega arith)
          (omega (arith, ht, length-append (print r) rest)) hm)
