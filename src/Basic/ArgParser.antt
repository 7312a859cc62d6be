-- ===== src/Basic/ArgParser.antt =====
-- The class argparser of src/basic/argparser.cpp. A setter is a value of any type: a call is noted
-- with its value, in order. The map of the arguments is a list in the order of std::map, the setters
-- an association list. An argument that has no value holds `none`, and `none` as a result stands for
-- an access out of range.
pub mod Given
pub mod Calls
mod Tests
use libpeco.Base.{
  ℕ, zero, suc, ◌+◌, ◌-◌, Bool, true, false, ◌||◌, List, [], ◌∷◌, ◌++◌, Option, none, some, Bytes,
  codes, same_string, length, get_elem?, take, drop, ltb, ◌==◌, if◌then◌else◌, ◌>>=◌,
}
use libpeco.Text.Split.{split, join, find}
use libpeco.Text.Trim.{trim}
use libpeco.Text.Affix.{is_string_start}

pub record ArgParser (H : Type 0) : Type 0 where
  pub setter_map : List (Bytes × H)
  pub individual_args : List Bytes

-- The order of std::string.
unfoldable pub less_string : Bytes → Bytes → Bool
less_string s [] = false
less_string [] (d ∷ t) = true
less_string (c ∷ s) (d ∷ t) = if ltb c d then true else if c == d then less_string s t else false

abbrev pub ArgMap : Type 0
ArgMap = List (Bytes × Option Bytes)

-- Assignment to the entry of a key.
unfoldable pub assign_arg : Bytes → Option Bytes → ArgMap → ArgMap
unfolding less_string
assign_arg k v [] = (k, v) ∷ []
assign_arg k v ((j, u) ∷ m) =
    if less_string k j
    then (k, v) ∷ (j, u) ∷ m
    else if less_string j k
    then (j, u) ∷ assign_arg k v m
    else (j, v) ∷ m

-- The state of the loop over the arguments; `skips` is set where the code steps over the next one.
pub record Scan : Type 0 where
  pub args_map : ArgMap
  pub individual : List Bytes
  pub skips : Bool

abbrev pub starts_with_dash : Bytes → Bool
starts_with_dash [] = false
starts_with_dash (c ∷ s) = c == b'-'

unfoldable pub key_of : Bytes → Bytes
key_of arg = if is_string_start arg (codes "--") then drop 2 arg else drop 1 arg

-- What split makes of a key that may have a value.
unfoldable pub value_of : List Bytes → Option (Bytes × Bytes)
unfolding join
value_of [] = none
value_of (k ∷ []) = none
value_of (k ∷ v ∷ []) = some (k, v)
value_of (k ∷ v ∷ w ∷ ws) = some (k, join (v ∷ w ∷ ws) (codes "="))

-- The body of the loop, for one argument and the one behind it, if there is one.
unfoldable pub scan_arg : Scan → Bytes → Option Bytes → Option Scan
unfolding assign_arg key_of split value_of
scan_arg s arg next =
    if s.skips
    then some (record s { skips = false })
    else if is_string_start arg (codes "-")
    then (do
      parts ← split (key_of arg) (codes "=" ∷ (0 ∷ []) ∷ [])
      some (elim (value_of parts) [
        | some kv ↦ record s { args_map = assign_arg kv.0 (some kv.1) s.args_map }
        | none ↦ elim next [
          | none ↦ record s { args_map = assign_arg (key_of arg) none s.args_map }
          | some b ↦
              if starts_with_dash b
              then record s { args_map = assign_arg (key_of arg) none s.args_map }
              else record s { args_map = assign_arg (key_of arg) (some b) s.args_map; skips = true }
        ]
      ]))
    else some (record s { individual = s.individual ++ arg ∷ [] })

abbrev pub first_of : List Bytes → Option Bytes
first_of [] = none
first_of (a ∷ rest) = some a

unfoldable pub scan_args : List Bytes → Scan → Option Scan
unfolding scan_arg
scan_args [] s = some s
scan_args (a ∷ rest) s = scan_arg s a (first_of rest) >>= λ s'. scan_args rest s'

abbrev pub text_of : Option Bytes → Bytes
text_of none = []
text_of (some v) = v

module _ {H : Type 0} where
  unfoldable pub setter_of : Bytes → List (Bytes × H) → Option H
  setter_of k [] = none
  setter_of k ((j, h) ∷ m) = if same_string j k then some h else setter_of k m

  unfoldable pub put_setter : Bytes → H → List (Bytes × H) → List (Bytes × H)
  put_setter k h [] = (k, h) ∷ []
  put_setter k h ((j, g) ∷ m) = if same_string j k then (j, h) ∷ m else (j, g) ∷ put_setter k h m

  unfoldable pub set_parser : Bytes → Bytes → H → ArgParser H → ArgParser H
  unfolding put_setter
  set_parser key attr h p =
      let m = put_setter key h p.setter_map in
      record p { setter_map = if ltb 0 (length attr) then put_setter attr h m else m }

  -- The loop over the arguments by key: the calls it makes, and whether all keys are known.
  unfoldable pub run_setters : ArgMap → List (Bytes × H) → List (H × Bytes) × Bool
  unfolding setter_of
  run_setters [] m = ([], true)
  run_setters ((k, v) ∷ args) m =
      let rest = run_setters args m in
      elim (setter_of k m) [ none ↦ ([], false) | some h ↦ ((h, text_of v) ∷ rest.0, rest.1) ]

  unfoldable pub parse_args :
      List Bytes → ArgParser H → Option (ArgParser H × List (H × Bytes) × Bool)
  unfolding scan_args run_setters
  parse_args args p = do
    s ← scan_args args (record { args_map = []; individual = p.individual_args; skips = false })
    some (
      record p { individual_args = s.individual },
      (run_setters s.args_map p.setter_map).0,
      (run_setters s.args_map p.setter_map).1,
    )

  abbrev pub clear : ArgParser H → ArgParser H
  clear p = record { setter_map = []; individual_args = [] }

abbrev pub is_remark : ℕ → Bool
is_remark c = c == b'=' || (c == b' ' || (c == b':' || c == b'\t'))

abbrev pub skip_remarks : Bytes → Bytes
skip_remarks [] = []
skip_remarks (c ∷ s) = if is_remark c then skip_remarks s else c ∷ s

-- A line without the comment at its end.
unfoldable pub without_comment : Bytes → Bytes
unfolding find trim
without_comment l = elim (find l (codes "#") 0) [ none ↦ l | some n ↦ trim (take n l) ]

abbrev pub remarks : List Bytes
remarks = codes "=" ∷ codes " " ∷ codes ":" ∷ codes "\t" ∷ []

module _ {H : Type 0} where
  -- A line behind its comment: the call of its setter, if its key has one.
  unfoldable pub parse_setting : Bytes → List (Bytes × H) → Option (List (H × Bytes))
  unfolding split setter_of trim
  parse_setting l m = do
    parts ← split l remarks
    key ← get_elem? parts 0
    some (elim (setter_of key m) [
      | none ↦ []
      | some h ↦ (h, trim (skip_remarks (drop (length key) l))) ∷ []
    ])

  -- A line of the file as it is read.
  unfoldable pub parse_line : Bytes → List (Bytes × H) → Option (List (H × Bytes))
  unfolding parse_setting without_comment trim
  parse_line l m = elim (trim l) [
    | [] ↦ some []
    | c ∷ s ↦ if c == b'#' then some [] else parse_setting (without_comment (c ∷ s)) m
  ]

  unfoldable pub parse_lines : List Bytes → List (Bytes × H) → Option (List (H × Bytes))
  unfolding parse_line
  parse_lines [] m = some []
  parse_lines (l ∷ ls) m = do calls ← parse_line l m; more ← parse_lines ls m; some (calls ++ more)

  -- The whole file, if it can be opened.
  unfoldable pub parse_file : Option (List Bytes) → ArgParser H → Option (List (H × Bytes) × Bool)
  unfolding parse_lines
  parse_file none p = some ([], false)
  parse_file (some ls) p = parse_lines ls p.setter_map >>= λ calls. some (calls, true)
