-- ===== src/Basic/ArgParser/Calls.antt =====
-- The parser on arguments that are given in any form.
use libpeco.Base.{
  Bool, true, false, Bool-cases, inl, inr, All, List, [], ◌∷◌, ◌++◌, Option, none, some, Bytes,
  same_string, ◌≡◌, refl, sym, ◌∙◌, or_else, if◌then◌else◌, ==_self, arith,
}
use libpeco.Basic.ArgParser.{ArgParser, ArgMap, less_string, assign_arg, run_setters, parse_args}
use libpeco.Basic.ArgParser.Given.{
  Given, with_equals, with_space, flag, plain, AreGiven, print_all, args_of, plain_of,
  scan_args-print_all,
}

same_string→eq : (s t : Bytes) → same_string s t ≡ true → s ≡ t
same_string→eq [] [] h = refl
same_string→eq [] (d ∷ t) h = absurd (cc)
same_string→eq (c ∷ s) [] h = absurd (cc)
same_string→eq (c ∷ s) (d ∷ t) h = ground (arith, same_string→eq s t)

same_string_self : (s : Bytes) → same_string s s ≡ true
same_string_self [] = refl
same_string_self (c ∷ s) = rw (==_self c) (same_string_self s)

less_string_self : (s : Bytes) → less_string s s ≡ false
unfolding less_string
less_string_self [] = refl
less_string_self (c ∷ s) = ground (arith, less_string_self s)

less_string_total : (s t : Bytes) → less_string s t ≡ false → less_string t s ≡ false → s ≡ t
unfolding less_string
less_string_total [] [] h k = refl
less_string_total [] (d ∷ t) h k = absurd (cc)
less_string_total (c ∷ s) [] h k = absurd (cc)
less_string_total (c ∷ s) (d ∷ t) h k = ground (arith, less_string_total s t)

unfoldable pub find_arg : Bytes → ArgMap → Option (Option Bytes)
find_arg j [] = none
find_arg j ((k, v) ∷ m) = if same_string k j then some v else find_arg j m

find_arg-assign_arg :
    (j k : Bytes) (v : Option Bytes) (m : ArgMap)
    → find_arg j (assign_arg k v m) ≡ (if same_string k j then some v else find_arg j m)
unfolding find_arg assign_arg
find_arg-assign_arg j k v [] = refl
find_arg-assign_arg j k v ((i, u) ∷ m) = ground (
  arith,
  find_arg-assign_arg j k v m,
  less_string_total k i,
  less_string_self k,
  same_string→eq i j,
  same_string→eq k j,
)

less_string_trans :
    (s t u : Bytes) → less_string s t ≡ true → less_string t u ≡ true → less_string s u ≡ true
unfolding less_string
less_string_trans s [] u h k = absurd (cc)
less_string_trans s (d ∷ t) [] h k = absurd (cc)
less_string_trans [] (d ∷ t) (e ∷ u) h k = refl
less_string_trans (c ∷ s) (d ∷ t) (e ∷ u) h k = ground (arith, less_string_trans s t u, h, k)

-- Each key of a map is less than all keys behind it, so it stands there once.
abbrev pub AllAbove : Bytes → ArgMap → Type 0
AllAbove k m = All (λ e. less_string k e.0 ≡ true) m

abbrev pub IsRising : ArgMap → Type 0
IsRising [] = Unit
IsRising ((k, v) ∷ m) = AllAbove k m × IsRising m

AllAbove-trans : (j k : Bytes) (m : ArgMap) → less_string j k ≡ true → AllAbove k m → AllAbove j m
AllAbove-trans j k [] h a = tt
AllAbove-trans j k ((i, u) ∷ m) h a = (less_string_trans j k i h a.0, AllAbove-trans j k m h a.1)

assign_arg-AllAbove :
    (j k : Bytes) (v : Option Bytes) (m : ArgMap)
    → less_string j k ≡ true
    → AllAbove j m
    → AllAbove j (assign_arg k v m)
unfolding assign_arg
assign_arg-AllAbove j k v [] h a = (h, tt)
assign_arg-AllAbove j k v ((i, u) ∷ m) h a = elim (Bool-cases (less_string k i)) [
  | inl e ↦ rw e (h, a)
  | inr e ↦ elim (Bool-cases (less_string i k)) [
    | inl f ↦ rw (e, f) (a.0, assign_arg-AllAbove j k v m h a.1)
    | inr f ↦ rw (e, f) (a.0, a.1)
  ]
]

assign_arg-IsRising :
    (k : Bytes) (v : Option Bytes) (m : ArgMap) → IsRising m → IsRising (assign_arg k v m)
unfolding assign_arg
assign_arg-IsRising k v [] o = (tt, tt)
assign_arg-IsRising k v ((i, u) ∷ m) o = elim (Bool-cases (less_string k i)) [
  | inl e ↦ rw e ((e, AllAbove-trans k i m e o.0), o)
  | inr e ↦ elim (Bool-cases (less_string i k)) [
    | inl f ↦ rw (e, f) (assign_arg-AllAbove i k v m f o.0, assign_arg-IsRising k v m o.1)
    | inr f ↦ rw (e, f) o
  ]
]

args_of-IsRising : (gs : List Given) (m : ArgMap) → IsRising m → IsRising (args_of gs m)
args_of-IsRising [] m o = o
args_of-IsRising (with_equals k v ∷ gs) m o =
    args_of-IsRising gs (assign_arg k (some v) m) (assign_arg-IsRising k (some v) m o)
args_of-IsRising (with_space k v ∷ gs) m o =
    args_of-IsRising gs (assign_arg k (some v) m) (assign_arg-IsRising k (some v) m o)
args_of-IsRising (flag k ∷ gs) m o =
    args_of-IsRising gs (assign_arg k none m) (assign_arg-IsRising k none m o)
args_of-IsRising (plain w ∷ gs) m o = args_of-IsRising gs m o

-- The value that is given last for a key, with `some none` for a key without one.
abbrev pub given_value : Bytes → Given → Option (Option Bytes)
given_value j (with_equals k v) = if same_string k j then some (some v) else none
given_value j (with_space k v) = if same_string k j then some (some v) else none
given_value j (flag k) = if same_string k j then some none else none
given_value j (plain w) = none

unfoldable pub last_given : Bytes → List Given → Option (Option Bytes)
last_given j [] = none
last_given j (g ∷ gs) = or_else (last_given j gs) (given_value j g)

or_else_assoc : {V : Type 0} (a b c : Option V) → or_else (or_else a b) c ≡ or_else a (or_else b c)
or_else_assoc none b c = refl
or_else_assoc (some v) b c = refl

or_else-none : {V : Type 0} (a : Option V) → or_else a none ≡ a
or_else-none none = refl
or_else-none (some v) = refl

either :
    {V : Type 0} (a : Option V) (v : V) (c : Option V) (b : Bool)
    → or_else a (if b then some v else c) ≡ or_else (or_else a (if b then some v else none)) c
either none v c true = refl
either none v c false = refl
either (some w) v c b = refl

find_arg-args_of :
    (j : Bytes) (gs : List Given) (m : ArgMap)
    → find_arg j (args_of gs m) ≡ or_else (last_given j gs) (find_arg j m)
unfolding last_given
find_arg-args_of j [] m = refl
find_arg-args_of j (with_equals k v ∷ gs) m =
    find_arg-args_of j gs (assign_arg k (some v) m)
    ∙ rw (find_arg-assign_arg j k (some v) m)
        (either (last_given j gs) (some v) (find_arg j m) (same_string k j))
find_arg-args_of j (with_space k v ∷ gs) m =
    find_arg-args_of j gs (assign_arg k (some v) m)
    ∙ rw (find_arg-assign_arg j k (some v) m)
        (either (last_given j gs) (some v) (find_arg j m) (same_string k j))
find_arg-args_of j (flag k ∷ gs) m =
    find_arg-args_of j gs (assign_arg k none m)
    ∙ rw (find_arg-assign_arg j k none m)
        (either (last_given j gs) none (find_arg j m) (same_string k j))
find_arg-args_of j (plain w ∷ gs) m =
    find_arg-args_of j gs m ∙ sym (or_else_assoc (last_given j gs) none (find_arg j m))

-- A command line is parsed where each argument has one of four forms: a key behind two dashes with
-- an equals sign and a value, neither of them empty or with an equals sign or zero byte; such a key
-- and then a value that does not begin with a dash; such a key alone, at the end or before another
-- key; or an argument that does not begin with a dash. The arguments of the last form are appended
-- to the parser's in their order, and the setters are run over a map with strictly rising keys, in
-- which each key that is given stands once, with the value that is given last for it, and no other
-- key stands.
pub parse_args-print_all :
    {H : Type 0} (gs : List Given) (p : ArgParser H)
    → AreGiven gs
    → (m : ArgMap) × (parse_args (print_all gs) p
        ≡ some (
          record p { individual_args = p.individual_args ++ plain_of gs },
          (run_setters m p.setter_map).0,
          (run_setters m p.setter_map).1,
        ))
      × ((k : Bytes) → find_arg k m ≡ last_given k gs)
      × IsRising m
unfolding parse_args find_arg
parse_args-print_all gs p h = (
  args_of gs [],
  rw (scan_args-print_all gs [] p.individual_args h) refl,
  λ k. find_arg-args_of k gs [] ∙ or_else-none (last_given k gs),
  args_of-IsRising gs [] tt,
)
