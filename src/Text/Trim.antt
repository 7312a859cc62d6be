-- ===== src/Text/Trim.antt =====
-- Trimming and letter cases of src/basic/stringutil.h, with the character classes of the "C" locale.
mod Laws
mod Tests
use libpeco.Base.{
  ℕ, ◌+◌, ◌-◌, Bool, true, false, ◌&&◌, List, [], ◌∷◌, Bytes, map, length, leb, ◌==◌, if◌then◌else◌,
}
use libpeco.Text.Number.{is_space, skip_spaces}

unfoldable pub left_trim : Bytes → Bytes
unfolding skip_spaces
left_trim s = skip_spaces s

-- A space goes if only spaces are behind it.
unfoldable pub right_trim : Bytes → Bytes
right_trim [] = []
right_trim (c ∷ s) =
    let rest = right_trim s in if length rest == 0 && is_space c then [] else c ∷ rest

unfoldable pub trim : Bytes → Bytes
unfolding left_trim right_trim
trim s = left_trim (right_trim s)

-- tolower and toupper of the C library.
abbrev pub tolower : ℕ → ℕ
tolower c = if leb b'A' c && leb c b'Z' then c + 32 else c

abbrev pub toupper : ℕ → ℕ
toupper c = if leb b'a' c && leb c b'z' then c - 32 else c

unfoldable pub string_tolower : Bytes → Bytes
string_tolower s = map tolower s

unfoldable pub string_toupper : Bytes → Bytes
string_toupper s = map toupper s

-- `first` is the flag that the next letter is a capital.
unfoldable pub capitalize_from : (ℕ → Bool) → Bool → Bytes → Bytes
capitalize_from reset_checker first [] = []
capitalize_from reset_checker first (c ∷ s) =
    let again = capitalize_from reset_checker true s in
    let rest = capitalize_from reset_checker false s in
    if reset_checker c then c ∷ again else if first then toupper c ∷ rest else tolower c ∷ rest

unfoldable pub string_capitalize : (ℕ → Bool) → Bytes → Bytes
unfolding capitalize_from
string_capitalize reset_checker s = capitalize_from reset_checker true s

abbrev pub contains_byte : Bytes → ℕ → Bool
contains_byte [] c = false
contains_byte (x ∷ s) c = if x == c then true else contains_byte s c

-- The characters that start a new word.
unfoldable pub string_capitalize_after : Bytes → Bytes → Bytes
unfolding string_capitalize
string_capitalize_after reset_carry s = string_capitalize (contains_byte reset_carry) s
