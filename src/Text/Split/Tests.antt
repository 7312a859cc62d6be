-- ===== src/Text/Split/Tests.antt =====
-- Runs of split.
use libpeco.Base.{List, [], ◌∷◌, some, Bytes, codes, ◌≡◌}
use mathlib.Core.List.{cons-ne-nil}
use libpeco.Text.Split.{split}
use libpeco.Text.Split.Ends.{split-some}

split-some_example :
    (ws : List Bytes) × (split (codes "a::b") (codes "::" ∷ codes ":" ∷ []) ≡ some ws)
split-some_example =
    split-some (codes "a::b") (codes "::" ∷ codes ":" ∷ [])
      (cons-ne-nil b':' (codes ":"), (cons-ne-nil b':' [], tt))
