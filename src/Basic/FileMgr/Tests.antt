-- ===== src/Basic/FileMgr/Tests.antt =====
-- Runs on small paths.
use libpeco.Base.{true, [], ◌∷◌, some, codes, cut_last, ◌≡◌, refl}
use libpeco.Text.Split.{split}
use libpeco.Basic.FileMgr.{file_name, extension, rek_make_dir}

extended : extension (codes "a.d/b.tar.gz") ≡ codes "gz"
unfolding extension cut_last
extended = refl

hidden : extension (codes "a.d/.profile") ≡ []
unfolding extension cut_last
hidden = refl

named : file_name (codes "b.tar.gz") ≡ codes "b.tar"
unfolding file_name cut_last
named = refl

made : rek_make_dir (λ d. true) (codes "/a//b") ≡ some (true, codes "/a/" ∷ codes "/a/b/" ∷ [])
unfolding rek_make_dir split
made = refl
