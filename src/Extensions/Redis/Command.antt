-- ===== src/Extensions/Redis/Command.antt =====
-- The class redis_command: the number of its parts and their text.
use libpeco.Base.{ℕ, ◌+◌, Bool, List, [], ◌∷◌, ◌++◌, Bytes, length, ltb}
use libpeco.Text.Number.{to_string}

pub record RedisCommand : Type 0 where
  pub cmd_count : ℕ
  pub cmd_string : Bytes

abbrev pub redis_command : RedisCommand
redis_command = record { cmd_count = 0; cmd_string = [] }

abbrev pub crlf : Bytes
crlf = 13 ∷ 10 ∷ []

-- operator+=, and << with a string.
unfoldable pub concat : Bytes → RedisCommand → RedisCommand
concat cmd rc = record {
  cmd_count = rc.cmd_count + 1;
  cmd_string = rc.cmd_string ++ (b'$' ∷ (to_string (length cmd) ++ (crlf ++ (cmd ++ crlf))));
}

unfoldable pub is_validate : RedisCommand → Bool
is_validate rc = ltb 0 rc.cmd_count

unfoldable pub str : RedisCommand → Bytes
str rc = b'*' ∷ (to_string rc.cmd_count ++ (crlf ++ rc.cmd_string))

-- The copy from an object that is not const, and the assignment from one that is given up: the copy,
-- and what is left of the other.
unfoldable pub move_command : RedisCommand → RedisCommand × RedisCommand
move_command lhs = (
  record { cmd_count = lhs.cmd_count; cmd_string = lhs.cmd_string },
  record { cmd_count = 0; cmd_string = [] },
)

-- commit: the text to send, and the emptied command.
unfoldable pub commit : RedisCommand → Bytes × RedisCommand
unfolding str
commit rc = (str rc, record { cmd_count = 0; cmd_string = [] })

unfoldable pub clear : RedisCommand → RedisCommand
clear rc = record { cmd_count = 0; cmd_string = [] }

-- redis_build_command: the parts are appended in their order.
unfoldable pub redis_build_command : RedisCommand → List Bytes → RedisCommand
unfolding concat
redis_build_command rc [] = rc
redis_build_command rc (c ∷ cs) = redis_build_command (concat c rc) cs
