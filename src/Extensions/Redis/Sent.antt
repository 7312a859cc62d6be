-- ===== src/Extensions/Redis/Sent.antt =====
-- A command as it is sent: a multibulk of its parts.
use libpeco.Base.{
  ℕ, ◌+◌, ◌^◌, ◌<◌, List, [], ◌∷◌, ◌++◌, append_assoc, append-nil, Bytes, length, ◌≡◌, refl, sym,
  subst, ◌∙◌, arith,
}
use libpeco.Extensions.Redis.Command.{
  RedisCommand, redis_command, concat, str, commit, redis_build_command,
}
use libpeco.Extensions.Redis.Parse.{returns, parse_object}
use libpeco.Extensions.Redis.Reply.{
  multi_reply, bulk_reply, Replies, no_replies, reply_then, count, print, print_all, depth,
  depth_all, IsPrintable, ArePrintable, object_of,
}
use libpeco.Extensions.Redis.Reply.RoundTrip.{parse_object-print}

abbrev pub bulks : List Bytes → Replies
bulks [] = no_replies
bulks (c ∷ cs) = reply_then (bulk_reply c) (bulks cs)

depth-bulks : (cs : List Bytes) → depth_all (bulks cs) ≡ 0
unfolding depth
depth-bulks [] = refl
depth-bulks (c ∷ cs) = ground (arith, depth-bulks cs)

bulks-ArePrintable : (cs : List Bytes) → ArePrintable (bulks cs)
unfolding ArePrintable
bulks-ArePrintable [] = tt
bulks-ArePrintable (c ∷ cs) = (tt, bulks-ArePrintable cs)

-- The text of the parts, behind what was there.
cmd_string-redis_build_command :
    (rc : RedisCommand) (cs : List Bytes)
    → (redis_build_command rc cs).cmd_string ≡ rc.cmd_string ++ print_all (bulks cs)
unfolding redis_build_command concat print print_all
cmd_string-redis_build_command rc [] = sym (append-nil rc.cmd_string)
cmd_string-redis_build_command rc (c ∷ cs) =
    cmd_string-redis_build_command (concat c rc) cs ∙ simp append_assoc refl

cmd_count-redis_build_command :
    (rc : RedisCommand) (cs : List Bytes)
    → (redis_build_command rc cs).cmd_count ≡ rc.cmd_count + count (bulks cs)
unfolding redis_build_command concat
cmd_count-redis_build_command rc [] = omega arith
cmd_count-redis_build_command rc (c ∷ cs) =
    omega (arith, cmd_count-redis_build_command (concat c rc) cs)

str-redis_build_command :
    (cs : List Bytes) → str (redis_build_command redis_command cs) ≡ print (multi_reply (bulks cs))
unfolding str print
str-redis_build_command cs =
    let parts : (redis_build_command redis_command cs).cmd_count ≡ count (bulks cs) =
      omega (arith, cmd_count-redis_build_command redis_command cs) in
    rw (parts, cmd_string-redis_build_command redis_command cs) (simp append_assoc refl)

-- What commit sends for a command that is built from parts, with any bytes in them, is read by
-- redis_object as a multibulk of these parts in their order; all of it is taken, and no more. The
-- text must be shorter than 2 ^ 31 bytes, and two levels of objects are enough.
pub parse_object-commit :
    (cs : List Bytes) (s : Bytes) (f : ℕ)
    → length (print (multi_reply (bulks cs)) ++ s) < 2 ^ 31
    → 1 < f
    → parse_object f ((commit (redis_build_command redis_command cs)).0 ++ s)
      ≡ returns
          (length ((commit (redis_build_command redis_command cs)).0))
          (object_of (multi_reply (bulks cs)))
unfolding commit depth IsPrintable
parse_object-commit cs s f h hf =
    subst (λ t. parse_object f (t ++ s) ≡ returns (length t) (object_of (multi_reply (bulks cs))))
      (sym (str-redis_build_command cs))
      (parse_object-print f (multi_reply (bulks cs)) s (bulks-ArePrintable cs)
        (rw (depth-bulks cs) hf) h)
