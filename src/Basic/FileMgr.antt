-- ===== src/Basic/FileMgr.antt =====
-- The path functions of src/basic/filemgr.cpp, where the separator is a slash.
pub mod Laws
mod Tests
use libpeco.Base.{
  ℕ, Bool, true, false, List, [], ◌∷◌, ◌++◌, Option, none, some, Bytes, codes, cut_last, length,
  ◌==◌, if◌then◌else◌, ◌>>=◌,
}
use libpeco.Text.Split.{split}

unfoldable pub dir_name : Bytes → Bytes
unfolding cut_last
dir_name path = elim (cut_last b'/' path) [ none ↦ codes "./" | some q ↦ q.0 ++ b'/' ∷ [] ]

unfoldable pub file_name : Bytes → Bytes
unfolding cut_last
file_name path = elim (cut_last b'.' path) [ none ↦ path | some q ↦ q.0 ]

unfoldable pub full_file_name : Bytes → Bytes
unfolding cut_last
full_file_name path = elim (cut_last b'/' path) [ none ↦ path | some q ↦ q.1 ]

unfoldable pub extension : Bytes → Bytes
unfolding full_file_name
extension path = elim (cut_last b'.' (full_file_name path)) [
  | none ↦ []
  | some q ↦ if length q.0 == 0 then [] else q.1
]

-- The loop of rek_make_dir behind `dpath`: its result, and the directories it asked for.
unfoldable pub make_each : (Bytes → Bool) → Bytes → List Bytes → Bool × List Bytes
make_each make_dir dpath [] = (true, [])
make_each make_dir dpath (c ∷ cs) =
    let next = dpath ++ (c ++ b'/' ∷ []) in
    let rest = make_each make_dir next cs in
    if make_dir next then (rest.0, next ∷ rest.1) else (false, next ∷ [])

abbrev pub root_of : Bytes → Bytes
root_of [] = []
root_of (c ∷ path) = if c == b'/' then b'/' ∷ [] else []

-- The separators are the characters of the literal "/", with the zero that ends it.
unfoldable pub rek_make_dir : (Bytes → Bool) → Bytes → Option (Bool × List Bytes)
unfolding split make_each
rek_make_dir make_dir path = do
  parts ← split path ((b'/' ∷ []) ∷ (0 ∷ []) ∷ [])
  some (make_each make_dir (root_of path) parts)
