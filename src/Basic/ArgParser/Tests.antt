-- ===== src/Basic/ArgParser/Tests.antt =====
-- A parser with the keys "file" (also "f") and "x", whose setters are numbers.
use libpeco.Base.{
  ℕ, true, false, List, [], ◌∷◌, none, some, Bytes, codes, ◌≡◌, refl, ◌++◌, avoids, avoids-All,
}
use mathlib.Core.List.{cons-ne-nil}
use libpeco.Text.Split.{split, split_from, nearest, find, find_in, join}
use libpeco.Text.Affix.{is_string_start, same_bytes}
use libpeco.Text.Trim.{trim, left_trim, right_trim}
use libpeco.Basic.ArgParser.{
  ArgParser, ArgMap, set_parser, put_setter, setter_of, run_setters, parse_args, parse_line,
  parse_setting, without_comment, parse_lines, scan_args, scan_arg, key_of, value_of, assign_arg,
  less_string,
}
use libpeco.Basic.ArgParser.Given.{
  Given, with_equals, with_space, flag, plain, AreGiven, IsName, print_all, plain_of,
}
use libpeco.Basic.ArgParser.Calls.{IsRising, find_arg, last_given, parse_args-print_all}

abbrev parser : ArgParser ℕ
parser = record {
  setter_map = (codes "x", 2) ∷ (codes "file", 1) ∷ (codes "f", 1) ∷ [];
  individual_args = [];
}

parser_set :
    set_parser
      (codes "file")
      (codes "f")
      1
      (set_parser (codes "x") [] 2 (record { setter_map = []; individual_args = [] }))
    ≡ parser
unfolding set_parser put_setter
parser_set = refl

abbrev given : List Given
given =
    with_space (codes "file") (codes "a.txt")
    ∷ flag (codes "x")
    ∷ with_equals (codes "file") (codes "b")
    ∷ plain (codes "rest")
    ∷ []

dashless : is_string_start (codes "rest") (codes "-") ≡ false
unfolding is_string_start same_bytes
dashless = refl

named : (c : ℕ) (s : Bytes) → avoids b'=' (c ∷ s) ≡ true → avoids 0 (c ∷ s) ≡ true → IsName (c ∷ s)
named c s h k = ((cons-ne-nil c s, avoids-All b'=' (c ∷ s) h), avoids-All 0 (c ∷ s) k)

given-AreGiven : AreGiven given
given-AreGiven = (
  (named b'f' (codes "ile") refl refl, refl),
  (
    tt,
    (
      named b'x' [] refl refl,
      (
        tt,
        ((named b'f' (codes "ile") refl refl, named b'b' [] refl refl), (tt, (dashless, (tt, tt)))),
      ),
    ),
  ),
)

parse_args-print_all_example :
    (m : ArgMap) × (parse_args (print_all given) parser
      ≡ some (
        record parser { individual_args = [] ++ plain_of given },
        (run_setters m parser.setter_map).0,
        (run_setters m parser.setter_map).1,
      ))
    × ((k : Bytes) → find_arg k m ≡ last_given k given)
    × IsRising m
parse_args-print_all_example = parse_args-print_all given parser given-AreGiven

last_file : last_given (codes "file") given ≡ some (some (codes "b"))
unfolding last_given
last_file = refl

-- A repeated equals sign in a value is lost, and with no value behind it the sign stays in the key.
signs : parse_args (codes "--file=a==b" ∷ []) parser ≡ some (parser, (1, codes "a=b") ∷ [], true)
unfolding parse_args scan_args scan_arg key_of is_string_start same_bytes split split_from nearest
    find find_in join value_of assign_arg less_string run_setters setter_of
signs = refl

settings :
    parse_lines
      (codes "# comment" ∷ codes " file : /tmp/a  # here" ∷ codes "y 1" ∷ [])
      parser.setter_map
    ≡ some ((1, codes "/tmp/a") ∷ [])
unfolding parse_lines parse_line parse_setting without_comment setter_of split split_from nearest
    find find_in trim left_trim right_trim
settings = refl

-- A line of separators has no key.
no_key : parse_line (codes "==") parser.setter_map ≡ none
unfolding parse_line parse_setting without_comment setter_of split split_from nearest find find_in
    trim left_trim right_trim
no_key = refl
