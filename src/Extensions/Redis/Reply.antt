-- ===== src/Extensions/Redis/Reply.antt =====
-- Replies as the protocol of Redis defines them, their printed form, and the object that stands for
-- each; nothing of this is in the source.
pub mod Printed
pub mod RoundTrip
pub mod Multi
use libpeco.Base.{
  ℕ, suc, ◌+◌, Bool, List, [], ◌∷◌, ◌++◌, Bytes, All, ◌≢◌, length, ltb, if◌then◌else◌, pos, negsuc,
}
use libpeco.Text.Number.{to_string}
use libpeco.Extensions.Redis.Command.{crlf}
use libpeco.Extensions.Redis.Object.{
  ReplyType, status, error, integer, bulk, multibulk, RedisObject, redis_object, SubObjects,
  no_objects, emplace_back,
}

mutual
  pub data Reply : Type 0 where
    status_reply error_reply integer_reply bulk_reply : Bytes → Reply
    nil_reply : Reply
    multi_reply : Replies → Reply

  pub data Replies : Type 0 where
    no_replies : Replies
    reply_then : Reply → Replies → Replies

abbrev pub count : Replies → ℕ
count no_replies = 0
count (reply_then r rs) = suc (count rs)

abbrev pub print_line : ℕ → Bytes → Bytes
print_line b c = b ∷ (c ++ crlf)

unfoldable mutual
  pub print : Reply → Bytes
  print (status_reply c) = print_line b'+' c
  print (error_reply c) = print_line b'-' c
  print (integer_reply c) = print_line b':' c
  print (bulk_reply c) = print_line b'$' (to_string (length c)) ++ (c ++ crlf)
  print nil_reply = print_line b'$' (b'-' ∷ b'1' ∷ [])
  print (multi_reply rs) = print_line b'*' (to_string (count rs)) ++ print_all rs

  pub print_all : Replies → Bytes
  print_all no_replies = []
  print_all (reply_then r rs) = print r ++ print_all rs

abbrev pub max : ℕ → ℕ → ℕ
max a b = if ltb a b then b else a

unfoldable mutual
  pub depth : Reply → ℕ
  depth (multi_reply rs) = suc (depth_all rs)
  depth (status_reply c) = 0
  depth (error_reply c) = 0
  depth (integer_reply c) = 0
  depth (bulk_reply c) = 0
  depth nil_reply = 0

  pub depth_all : Replies → ℕ
  depth_all no_replies = 0
  depth_all (reply_then r rs) = max (depth r) (depth_all rs)

-- No carriage return inside a line.
abbrev pub IsLine : Bytes → Type 0
IsLine = All (λ c. c ≢ 13)

unfoldable mutual
  pub IsPrintable : Reply → Type 0
  IsPrintable (status_reply c) = IsLine c
  IsPrintable (error_reply c) = IsLine c
  IsPrintable (integer_reply c) = IsLine c
  IsPrintable (bulk_reply c) = Unit
  IsPrintable nil_reply = Unit
  IsPrintable (multi_reply rs) = ArePrintable rs

  pub ArePrintable : Replies → Type 0
  ArePrintable no_replies = Unit
  ArePrintable (reply_then r rs) = IsPrintable r × ArePrintable rs

-- content_length_ of a multibulk: the bytes it took, but 0 if there are no sub objects.
unfoldable pub taken : Replies → ℕ
unfolding print print_all
taken no_replies = 0
taken (reply_then r rs) = length (print (multi_reply (reply_then r rs)))

unfoldable mutual
  pub object_of : Reply → RedisObject
  object_of (status_reply c) = redis_object status c (pos (length c)) 0 no_objects
  object_of (error_reply c) = redis_object error c (pos (length c)) 0 no_objects
  object_of (integer_reply c) = redis_object integer c (pos (length c)) 0 no_objects
  object_of (bulk_reply c) = redis_object bulk c (pos (length c)) 0 no_objects
  object_of nil_reply = redis_object bulk [] (negsuc 0) 0 no_objects
  object_of (multi_reply rs) =
      redis_object multibulk [] (pos (taken rs)) (count rs) (objects_of no_objects rs)

  -- Behind the objects that are there.
  pub objects_of : SubObjects → Replies → SubObjects
  objects_of xs no_replies = xs
  objects_of xs (reply_then r rs) = objects_of (emplace_back xs (object_of r)) rs
