-- ===== src/Basic/ArgParser/Given.antt =====
-- Arguments as they are given on a command line, and what the loop makes of them.
use libpeco.Base.{
  Bool, true, false, List, [], ◌∷◌, ◌++◌, Option, none, some, Bytes, codes, ◌≡◌, ◌≢◌, refl, ap, ◌∙◌,
  All, append-nil, append_assoc, arith,
}
use libpeco.Text.Split.{split}
use libpeco.Text.Split.Laws.{IsItem, split_pair, split_one}
use libpeco.Text.Affix.{is_string_start}
use libpeco.Text.Affix.Laws.{start-append}
use libpeco.Basic.ArgParser.{
  Scan, ArgMap, assign_arg, starts_with_dash, key_of, value_of, scan_arg, scan_args, first_of,
}

-- A key with its value behind an equals sign or in an argument of its own, a key without a value,
-- and an argument without a key.
pub data Given : Type 0 where
  with_equals : Bytes → Bytes → Given
  with_space : Bytes → Bytes → Given
  flag : Bytes → Given
  plain : Bytes → Given

abbrev pub IsName : Bytes → Type 0
IsName k = IsItem b'=' k × All (λ x. x ≢ 0) k

abbrev pub IsGiven : Given → Type 0
IsGiven (with_equals k v) = IsName k × IsName v
IsGiven (with_space k v) = IsName k × (starts_with_dash v ≡ false)
IsGiven (flag k) = IsName k
IsGiven (plain w) = is_string_start w (codes "-") ≡ false

-- A key without a value has none where an argument without a key stands behind it.
abbrev pub IsClosed : Given → List Given → Type 0
IsClosed (flag k) (plain w ∷ gs) = ⊥
IsClosed g gs = Unit

abbrev pub AreGiven : List Given → Type 0
AreGiven [] = Unit
AreGiven (g ∷ gs) = IsGiven g × (IsClosed g gs × AreGiven gs)

abbrev pub print_given : Given → List Bytes
print_given (with_equals k v) = (codes "--" ++ (k ++ b'=' ∷ v)) ∷ []
print_given (with_space k v) = (codes "--" ++ k) ∷ v ∷ []
print_given (flag k) = (codes "--" ++ k) ∷ []
print_given (plain w) = w ∷ []

abbrev pub print_all : List Given → List Bytes
print_all [] = []
print_all (g ∷ gs) = print_given g ++ print_all gs

-- The values by key, and the arguments without one.
abbrev pub args_of : List Given → ArgMap → ArgMap
args_of [] m = m
args_of (with_equals k v ∷ gs) m = args_of gs (assign_arg k (some v) m)
args_of (with_space k v ∷ gs) m = args_of gs (assign_arg k (some v) m)
args_of (flag k ∷ gs) m = args_of gs (assign_arg k none m)
args_of (plain w ∷ gs) m = args_of gs m

abbrev pub plain_of : List Given → List Bytes
plain_of [] = []
plain_of (plain w ∷ gs) = w ∷ plain_of gs
plain_of (_ ∷ gs) = plain_of gs

key_of-append : (k : Bytes) → key_of (codes "--" ++ k) ≡ k
unfolding key_of
key_of-append k = rw (start-append (codes "--") k) refl

split_key : (k : Bytes) → IsName k → split k (codes "=" ∷ (0 ∷ []) ∷ []) ≡ some (k ∷ [])
split_key k (h, z) = split_one b'=' k h z

split_key_value :
    (k v : Bytes)
    → IsName k
    → IsName v
    → split (k ++ b'=' ∷ v) (codes "=" ∷ (0 ∷ []) ∷ []) ≡ some (k ∷ v ∷ [])
split_key_value k v (h, z) (g, y) = split_pair b'=' k v (λ e. absurd (omega (arith, e))) h g z y

dash_start : (k : Bytes) → is_string_start (codes "--" ++ k) (codes "-") ≡ true
dash_start k = start-append (codes "-") (b'-' ∷ k)

abbrev pub scan_of : ArgMap → List Bytes → Bool → Scan
scan_of m i b = record { args_map = m; individual = i; skips = b }

-- One argument with a key.
scan_value :
    (m : ArgMap) (i : List Bytes) (k v : Bytes) (next : Option Bytes)
    → IsName k
    → IsName v
    → scan_arg (scan_of m i false) (codes "--" ++ (k ++ b'=' ∷ v)) next
      ≡ some (scan_of (assign_arg k (some v) m) i false)
unfolding scan_arg value_of
scan_value m i k v next hk hv =
    rw (dash_start (k ++ b'=' ∷ v), key_of-append (k ++ b'=' ∷ v), split_key_value k v hk hv) refl

scan_key_end :
    (m : ArgMap) (i : List Bytes) (k : Bytes)
    → IsName k
    → scan_arg (scan_of m i false) (codes "--" ++ k) none
      ≡ some (scan_of (assign_arg k none m) i false)
unfolding scan_arg value_of
scan_key_end m i k h = rw (dash_start k, key_of-append k, split_key k h) (rw (key_of-append k) refl)

scan_key_dash :
    (m : ArgMap) (i : List Bytes) (k b : Bytes)
    → IsName k
    → starts_with_dash b ≡ true
    → scan_arg (scan_of m i false) (codes "--" ++ k) (some b)
      ≡ some (scan_of (assign_arg k none m) i false)
unfolding scan_arg value_of
scan_key_dash m i k b h e =
    rw (dash_start k, key_of-append k, split_key k h, e) (rw (key_of-append k) refl)

scan_key_value :
    (m : ArgMap) (i : List Bytes) (k b : Bytes)
    → IsName k
    → starts_with_dash b ≡ false
    → scan_arg (scan_of m i false) (codes "--" ++ k) (some b)
      ≡ some (scan_of (assign_arg k (some b) m) i true)
unfolding scan_arg value_of
scan_key_value m i k b h e =
    rw (dash_start k, key_of-append k, split_key k h, e) (rw (key_of-append k) refl)

scan_flag :
    (m : ArgMap) (i : List Bytes) (k : Bytes) (gs : List Given)
    → IsName k
    → IsClosed (flag k) gs
    → scan_arg (scan_of m i false) (codes "--" ++ k) (first_of (print_all gs))
      ≡ some (scan_of (assign_arg k none m) i false)
scan_flag m i k [] h c = scan_key_end m i k h
scan_flag m i k (with_equals j v ∷ gs) h c = scan_key_dash m i k _ h refl
scan_flag m i k (with_space j v ∷ gs) h c = scan_key_dash m i k _ h refl
scan_flag m i k (flag j ∷ gs) h c = scan_key_dash m i k _ h refl
scan_flag m i k (plain w ∷ gs) h c = absurd c

scan_plain :
    (m : ArgMap) (i : List Bytes) (w : Bytes) (next : Option Bytes)
    → is_string_start w (codes "-") ≡ false
    → scan_arg (scan_of m i false) w next ≡ some (scan_of m (i ++ w ∷ []) false)
unfolding scan_arg
scan_plain m i w next h = rw h refl

-- The loop over arguments that are given in these forms: each key has the value
-- that is given last for it, and the arguments without a key are kept in their order.
pub scan_args-print_all :
    (gs : List Given) (m : ArgMap) (i : List Bytes)
    → AreGiven gs
    → scan_args (print_all gs) (scan_of m i false)
      ≡ some (scan_of (args_of gs m) (i ++ plain_of gs) false)
unfolding scan_args
scan_args-print_all [] m i h = rw (append-nil i) refl
scan_args-print_all (with_equals k v ∷ gs) m i ((hk, hv), (c, hs)) =
    rw (scan_value m i k v (first_of (print_all gs)) hk hv)
      (scan_args-print_all gs (assign_arg k (some v) m) i hs)
scan_args-print_all (with_space k v ∷ gs) m i ((hk, hv), (c, hs)) =
    rw (scan_key_value m i k v hk hv)
      (unfold scan_arg in scan_args-print_all gs (assign_arg k (some v) m) i hs)
scan_args-print_all (flag k ∷ gs) m i (hk, (c, hs)) =
    rw (scan_flag m i k gs hk c) (scan_args-print_all gs (assign_arg k none m) i hs)
scan_args-print_all (plain w ∷ gs) m i (h, (c, hs)) =
    rw (scan_plain m i w (first_of (print_all gs)) h) (
      scan_args-print_all gs m (i ++ w ∷ []) hs
      ∙ ap (λ j. some (scan_of (args_of gs m) j false)) (append_assoc i (w ∷ []) (plain_of gs)))
