-- ===== src/Extensions/Redis/Tests.antt =====
-- Runs of the parser on small replies.
use libpeco.Base.{
  List, [], ◌∷◌, ◌++◌, Bytes, codes, avoids-All, length, ◌≡◌, refl, arith, pos, negsuc,
}
use libpeco.Text.Number.{to_string, stoi}
use libpeco.Extensions.Redis.Command.{redis_command, crlf, commit, redis_build_command}
use libpeco.Extensions.Redis.Object.{
  RedisObject, redis_object, no_objects, emplace_back, multibulk, bulk, status,
}
use libpeco.Extensions.Redis.Parse.{returns, parse_object, parse_response}
use libpeco.Extensions.Redis.Reply.{
  Reply, multi_reply, bulk_reply, status_reply, nil_reply, no_replies, reply_then, print,
  IsPrintable, depth, object_of,
}
use libpeco.Extensions.Redis.Reply.RoundTrip.{parse_object-print}
use libpeco.Extensions.Redis.Sent.{bulks, parse_object-commit}
use libpeco.Extensions.Redis.Bounds.{IsBounded, nesting}
use libpeco.Extensions.Redis.Bounds.Depth.{parse_response-IsBounded}

-- A list of "OK" and of a list of nothing and "a".
abbrev nested : Reply
nested = multi_reply (
    reply_then (status_reply (codes "OK")) (
      reply_then
        (multi_reply (reply_then nil_reply (reply_then (bulk_reply (codes "a")) no_replies)))
        no_replies))

abbrev ping : List Bytes
ping = codes "PING" ∷ (13 ∷ 10 ∷ []) ∷ []

-- A multibulk of two that waits for its second sub object.
abbrev waiting : RedisObject
waiting =
    redis_object multibulk [] (pos 9) 2
      (emplace_back no_objects (redis_object status (codes "OK") (pos 2) 0 no_objects))

nested-IsPrintable : IsPrintable nested
unfolding IsPrintable
nested-IsPrintable = (avoids-All 13 (codes "OK") refl, ((tt, (tt, tt)), tt))

parse_object-print_example :
    parse_object 3 (print nested ++ codes "+") ≡ returns (length (print nested)) (object_of nested)
unfolding depth print to_string
parse_object-print_example =
    parse_object-print 3 nested (codes "+") nested-IsPrintable (omega arith) (omega arith)

parse_object-commit_example :
    parse_object 2 ((commit (redis_build_command redis_command ping)).0 ++ [])
    ≡ returns
        (length ((commit (redis_build_command redis_command ping)).0))
        (object_of (multi_reply (bulks ping)))
unfolding print to_string
parse_object-commit_example = parse_object-commit ping [] 2 (omega arith) (omega arith)

parse_response-IsBounded_example :
    IsBounded (length (codes "$-1" ++ crlf)) (parse_response 8 waiting (codes "$-1" ++ crlf))
unfolding nesting
parse_response-IsBounded_example =
    parse_response-IsBounded 8 waiting (codes "$-1" ++ crlf) (omega arith)

-- The second sub object comes in a later piece.
continued :
    parse_response 8 waiting (codes "$-1" ++ crlf)
    ≡ returns 5 (
        redis_object multibulk [] (pos 14) 2 (
          emplace_back
            (emplace_back no_objects (redis_object status (codes "OK") (pos 2) 0 no_objects))
            (redis_object bulk [] (negsuc 0) 0 no_objects)))
unfolding parse_response stoi
continued = refl
