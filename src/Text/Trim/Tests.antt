-- ===== src/Text/Trim/Tests.antt =====
-- Runs on small strings.
use libpeco.Base.{Bytes, codes, ◌≡◌, refl}
use libpeco.Text.Trim.{string_capitalize_after}

abbrev padded : Bytes
padded = codes "  a b "

capitalized : string_capitalize_after (codes "-") (codes "content-TYPE") ≡ codes "Content-Type"
unfolding string_capitalize_after
capitalized = refl
