-- ===== src/Basic/FileMgr/Laws.antt =====
-- A path and its parts.
use libpeco.Base.{
  ℕ, true, [], ◌∷◌, ◌++◌, append_assoc, Option, none, some, Bytes, codes, cut_last, avoids, ◌==◌,
  if◌then◌else◌, ◌≡◌, ◌⊎◌, refl, sym, ap, ◌∙◌, arith, Bool-cases, inl, inr,
}
use libpeco.Basic.FileMgr.{dir_name, full_file_name}

IsCut : ℕ → Bytes → Option (Bytes × Bytes) → Type 0
IsCut b s none = avoids b s ≡ true
IsCut b s (some q) = (s ≡ q.0 ++ b ∷ q.1) × (avoids b q.1 ≡ true)

IsCut-if :
    (b c : ℕ) (s : Bytes)
    → avoids b s ≡ true
    → IsCut b (c ∷ s) (if c == b then some ([], s) else none)
unfolding IsCut
IsCut-if b c s h = elim (Bool-cases (c == b)) [
  | inl e ↦ let here : c ≡ b = ground (arith, e) in rw e (ap (λ x. x ∷ s) here, h)
  | inr e ↦ rw (e, IsCut, e) h
]

IsCut-cons :
    (b c : ℕ) (s : Bytes) (r : Option (Bytes × Bytes))
    → IsCut b s r
    → IsCut b
        (c ∷ s)
        (elim r [ some q ↦ some (c ∷ q.0, q.1) | none ↦ if c == b then some ([], s) else none ])
unfolding IsCut
IsCut-cons b c s none h = IsCut-if b c s h
IsCut-cons b c s (some q) h = (ap (◌∷◌ c) h.0, h.1)

cut_last-IsCut : (b : ℕ) (s : Bytes) → IsCut b s (cut_last b s)
unfolding cut_last IsCut
cut_last-IsCut b [] = refl
cut_last-IsCut b (c ∷ s) = IsCut-cons b c s (cut_last b s) (cut_last-IsCut b s)

parts :
    (path : Bytes) (r : Option (Bytes × Bytes))
    → cut_last b'/' path ≡ r
    → IsCut b'/' path r
    → ((dir_name path ++ full_file_name path ≡ path)
        ⊎ ((dir_name path ≡ codes "./") × (full_file_name path ≡ path)))
      × (avoids b'/' (full_file_name path) ≡ true)
unfolding IsCut dir_name full_file_name
parts path none e h = rw (e, dir_name, full_file_name) (inr (refl, refl), h)
parts path (some q) e h =
    rw (e, dir_name, full_file_name) (inl (append_assoc q.0 (b'/' ∷ []) q.1 ∙ sym h.0), h.1)

-- The directory of a path and its full file name put together are the path, or there is no slash in
-- the path, which is then the full file name, in the directory "./". The full file name has no
-- slash.
pub dir_name-full_file_name :
    (path : Bytes)
    → ((dir_name path ++ full_file_name path ≡ path)
        ⊎ ((dir_name path ≡ codes "./") × (full_file_name path ≡ path)))
      × (avoids b'/' (full_file_name path) ≡ true)
dir_name-full_file_name path = parts path (cut_last b'/' path) refl (cut_last-IsCut b'/' path)
