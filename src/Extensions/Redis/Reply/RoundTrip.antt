-- ===== src/Extensions/Redis/Reply/RoundTrip.antt =====
-- Every printed reply is parsed back.
use libpeco.Base.{
  int_of, int_of-pos, pos, ap, ℕ, zero, suc, ◌+◌, ◌^◌, ◌<◌, ◌≤◌, false, ◌==◌, [], ◌++◌,
  append_assoc, Bytes, length, length-append, ◌≡◌, refl, ◌∙◌, arith,
}
use libpeco.Text.Number.{to_string, stoi, skip_spaces, signed, unsigned, scan, in_range}
use libpeco.Text.Number.RoundTrip.{to_string-IsDigit, stoi-to_string}
use libpeco.Extensions.Redis.Command.{crlf}
use libpeco.Extensions.Redis.Object.{
  ReplyType, status, error, integer, bulk, multibulk, RedisObject, redis_object, no_objects,
  empty_object, is_validate, is_unknown,
}
use libpeco.Extensions.Redis.Parse.{
  Outcome, returns, parse_line, parse_more, parse_step, constructed, parse_response, parse_object,
  reply_type_of, parse_first, parse_typed, find_crlf, parse_body,
}
use libpeco.Extensions.Redis.Reply.{
  Reply, multi_reply, status_reply, error_reply, integer_reply, bulk_reply, nil_reply, Replies,
  no_replies, reply_then, count, print_line, print, print_all, depth, depth_all, IsPrintable,
  ArePrintable, object_of, objects_of, taken, IsLine,
}
use libpeco.Extensions.Redis.Reply.Printed.{
  parse_step-line, parse_body-append, digits-IsLine, typed,
}
use libpeco.Extensions.Redis.Reply.Multi.{length-print, parse_subs-print_all}

count-length : (rs : Replies) → count rs ≤ length (print_all rs)
unfolding print_all
count-length no_replies = omega arith
count-length (reply_then r rs) =
    omega (arith, length-append (print r) (print_all rs), length-print r, count-length rs)

length-line : (b : ℕ) (c s : Bytes) → length (print_line b c ++ s) < 2 ^ 31 → length c < 2 ^ 31
length-line b c s h = omega (arith, h, length-append (c ++ crlf) s, length-append c crlf)

abbrev pub IsParsed : (Bytes → Outcome) → Reply → Bytes → Type 0
IsParsed parse r s = parse (print r ++ s) ≡ returns (length (print r)) (object_of r)

constructed-returns : (n : ℕ) (o : RedisObject) → 0 < n → constructed (returns n o) ≡ returns n o
constructed-returns zero o h = absurd (omega arith)
constructed-returns (suc n) o h = refl

module _ (parse_new : Bytes → Outcome) (parse_last : RedisObject → Outcome) where
  parse_step-simple :
      (b : ℕ) (ty : ReplyType) (c s : Bytes)
      → reply_type_of b ≡ ty
      → is_unknown ty ≡ false
      → IsLine c
      → parse_line parse_new ty c s (typed ty)
        ≡ returns (3 + length c) (redis_object ty c (pos (length c)) 0 no_objects)
      → parse_step parse_new parse_last empty_object (print_line b c ++ s)
        ≡ returns (length (print_line b c)) (redis_object ty c (pos (length c)) 0 no_objects)
  parse_step-simple b ty c s e h hc p =
      let total : length (print_line b c) ≡ 3 + length c = omega (arith, length-append c crlf) in
      parse_step-line parse_new parse_last b ty c s e h hc ∙ rw total p

  parse_step-bulk :
      (c s : Bytes)
      → length (print (bulk_reply c) ++ s) < 2 ^ 31
      → parse_step parse_new parse_last empty_object (print (bulk_reply c) ++ s)
        ≡ returns (length (print (bulk_reply c))) (object_of (bulk_reply c))
  unfolding print object_of parse_line reply_type_of
  parse_step-bulk c s h =
      let number = to_string (length c) in
      let assoc : print (bulk_reply c) ++ s ≡ print_line b'$' number ++ ((c ++ crlf) ++ s) =
        append_assoc (print_line b'$' number) (c ++ crlf) s in
      let size : length (print (bulk_reply c)) ≡ 3 + length number + length c + 2 = ground (
        arith,
        length-append (print_line b'$' number) (c ++ crlf),
        length-append number crlf,
        length-append c crlf,
      ) in
      let small = length-append (print (bulk_reply c)) s in
      let h' : length ((c ++ crlf) ++ s) < 2 ^ 31 =
        omega (arith, h, small, size, length-append (c ++ crlf) s, length-append c crlf) in
      rw
        (
          assoc,
          parse_step-line parse_new parse_last b'$' bulk number ((c ++ crlf) ++ s) refl refl
              (digits-IsLine number (to_string-IsDigit (length c))),
          parse_line,
          stoi-to_string (length c) (omega (arith, h, small, size)),
          parse_body-append (3 + length number) c s
              (redis_object bulk [] (pos (length c)) 0 no_objects) h',
          size,
        )
        refl

  parse_step-nil :
      (s : Bytes)
      → parse_step parse_new parse_last empty_object (print nil_reply ++ s)
        ≡ returns (length (print nil_reply)) (object_of nil_reply)
  unfolding print object_of parse_step parse_first reply_type_of parse_typed find_crlf parse_line
      stoi skip_spaces signed unsigned scan in_range parse_body is_validate
  parse_step-nil s = ground arith

  -- A multibulk up to its first sub object.
  header :
      (rs : Replies) (s : Bytes)
      → length (print (multi_reply rs) ++ s) < 2 ^ 31
      → parse_step parse_new parse_last empty_object (print (multi_reply rs) ++ s)
        ≡ parse_more parse_new
            (3 + length (to_string (count rs)))
            (print_all rs ++ s)
            (redis_object multibulk [] (pos 0) (count rs) no_objects)
  unfolding print parse_line reply_type_of
  header rs s h =
      let number = to_string (count rs) in
      let assoc = append_assoc (print_line b'*' number) (print_all rs) s in
      let small : count rs < 2 ^ 31 = omega (
        arith,
        h,
        count-length rs,
        length-append (print (multi_reply rs)) s,
        length-append (print_line b'*' number) (print_all rs),
      ) in
      rw
        (
          assoc,
          parse_step-line parse_new parse_last b'*' multibulk number (print_all rs ++ s) refl refl
              (digits-IsLine number (to_string-IsDigit (count rs))),
          parse_line,
          stoi-to_string (count rs) small,
        )
        refl

-- A whole multibulk, if whatever it holds is parsed back.
module _ (parse_new : Bytes → Outcome) (parse_last : RedisObject → Outcome) (f : ℕ)
    (parsed : (r : Reply) (s : Bytes)
      → IsPrintable r
      → depth r < f
      → length (print r ++ s) < 2 ^ 31
      → IsParsed parse_new r s) where
  length-multi :
      (rs : Replies)
      → length (print (multi_reply rs)) ≡ 3 + length (to_string (count rs)) + length (print_all rs)
  unfolding print
  length-multi rs =
      let number = to_string (count rs) in
      omega
        (arith, length-append (print_line b'*' number) (print_all rs), length-append number crlf)

  parse_step-multi :
      (rs : Replies) (s : Bytes)
      → ArePrintable rs
      → depth_all rs < f
      → length (print (multi_reply rs) ++ s) < 2 ^ 31
      → parse_step parse_new parse_last empty_object (print (multi_reply rs) ++ s)
        ≡ returns (length (print (multi_reply rs))) (object_of (multi_reply rs))
  unfolding object_of objects_of parse_more taken
  parse_step-multi no_replies s hp hd h =
      header parse_new parse_last no_replies s h ∙ rw (length-multi no_replies) (ground arith)
  parse_step-multi (reply_then r rs) s hp hd h =
      let all = reply_then r rs in
      let number = to_string (count all) in
      let total = length-multi all in
      let some_subs : (count all == 0) ≡ false = ground arith in
      header parse_new parse_last all s h
      ∙ rw some_subs (
          parse_subs-print_all parse_new f parsed r rs (suc (length (print_all all ++ s)))
            (3 + length number) (length (print (multi_reply all))) (count all) 0
            (length (print (multi_reply all))) s no_objects hp hd
            (omega (
              arith,
              h,
              total,
              length-append (print (multi_reply all)) s,
              length-append (print_all all) s,
            ))
            (omega arith) (omega (arith, count-length all, length-append (print_all all) s)) total
            (ap int_of (omega arith)
              ∙ int_of-pos (length (print (multi_reply all)))
                  (omega (arith, h, length-append (print (multi_reply all)) s))))

pub parse_response-print :
    (f : ℕ) (r : Reply) (s : Bytes)
    → IsPrintable r
    → depth r < f
    → length (print r ++ s) < 2 ^ 31
    → IsParsed (parse_response f empty_object) r s
unfolding parse_response depth IsPrintable print parse_line object_of reply_type_of
parse_response-print zero r s hp hd h = absurd (omega arith)
parse_response-print (suc f) (status_reply c) s hp hd h =
    parse_step-simple (λ e. constructed (parse_response f empty_object e))
      (λ x. parse_response f x (print (status_reply c) ++ s)) b'+' status c s refl refl hp
      (ap (λ z. returns (3 + length c) (redis_object status c z 0 no_objects))
        (int_of-pos (length c) (length-line b'+' c s h)))
parse_response-print (suc f) (error_reply c) s hp hd h =
    parse_step-simple (λ e. constructed (parse_response f empty_object e))
      (λ x. parse_response f x (print (error_reply c) ++ s)) b'-' error c s refl refl hp
      (ap (λ z. returns (3 + length c) (redis_object error c z 0 no_objects))
        (int_of-pos (length c) (length-line b'-' c s h)))
parse_response-print (suc f) (integer_reply c) s hp hd h =
    parse_step-simple (λ e. constructed (parse_response f empty_object e))
      (λ x. parse_response f x (print (integer_reply c) ++ s)) b':' integer c s refl refl hp
      (ap (λ z. returns (3 + length c) (redis_object integer c z 0 no_objects))
        (int_of-pos (length c) (length-line b':' c s h)))
parse_response-print (suc f) (bulk_reply c) s hp hd h =
    parse_step-bulk (λ e. constructed (parse_response f empty_object e))
      (λ x. parse_response f x (print (bulk_reply c) ++ s)) c s h
parse_response-print (suc f) nil_reply s hp hd h =
    parse_step-nil (λ e. constructed (parse_response f empty_object e))
      (λ x. parse_response f x (print nil_reply ++ s)) s
parse_response-print (suc f) (multi_reply rs) s hp hd h =
    parse_step-multi (λ e. constructed (parse_response f empty_object e))
      (λ x. parse_response f x (print (multi_reply rs) ++ s)) f
      (λ r t gp gd g.
        rw (parse_response-print f r t gp gd g)
          (constructed-returns (length (print r)) (object_of r) (omega (arith, length-print r))))
      rs s hp (omega arith) h

-- A reply of Redis, as its protocol prints it, is parsed by the constructor to the object that
-- stands for it, whatever bytes come after it: the number of bytes taken is the length of the
-- reply. The lines of the reply hold no carriage return, the data are shorter than 2 ^ 31 bytes, and
-- the depth that is given is above that of the reply.
pub parse_object-print :
    (f : ℕ) (r : Reply) (s : Bytes)
    → IsPrintable r
    → depth r < f
    → length (print r ++ s) < 2 ^ 31
    → parse_object f (print r ++ s) ≡ returns (length (print r)) (object_of r)
unfolding parse_object
parse_object-print f r s hp hd h =
    rw (parse_response-print f r s hp hd h)
      (constructed-returns (length (print r)) (object_of r) (omega (arith, length-print r)))
