-- ===== src/Extensions/Dns/Laws.antt =====
-- A name that is written is read back.
use libpeco.Base.{
  ℕ, zero, suc, ◌+◌, ◌%◌, ◌<◌, true, false, List, [], ◌∷◌, ◌++◌, append_assoc, append-nil, some,
  Bytes, All, length, length-append, take_append, drop_append, ltb, ◌==◌, ◌≡◌, ◌≢◌, refl, sym, ap,
  subst, ◌∙◌, arith,
}
use libpeco.Extensions.Dns.{add_label, get_domain_basic, label, set_labels, set_domain, domain_size}

-- A label that a packet can hold.
abbrev pub IsLabel : Bytes → Type 0
IsLabel l = (0 < length l) × ((length l < 256) × All (λ c. c ≢ b'.') l)

abbrev pub dotted : Bytes → List Bytes → Bytes
dotted l [] = l
dotted l (m ∷ ls) = l ++ (b'.' ∷ dotted m ls)

abbrev pub labels : List Bytes → Bytes
labels [] = []
labels (l ∷ ls) = label l ++ labels ls

-- A label is copied up to its dot or to the end of the name.
set_labels-label :
    (done l s : Bytes)
    → All (λ c. c ≢ b'.') l
    → 0 < length s
    → set_labels done (l ++ b'.' ∷ s) ≡ label (done ++ l) ++ set_labels [] s
unfolding set_labels
set_labels-label done [] s h hs = rw (append-nil done) (ground (arith, hs))
set_labels-label done (c ∷ l) s h hs =
    let other : (c == b'.') ≡ false = ground (arith, h.0) in
    rw (other, set_labels-label (done ++ c ∷ []) l s h.1 hs, append_assoc done (c ∷ []) l) refl

set_labels-last : (done l : Bytes) → All (λ c. c ≢ b'.') l → set_labels done l ≡ label (done ++ l)
unfolding set_labels
set_labels-last done [] h = rw (append-nil done) refl
set_labels-last done (c ∷ l) h =
    let other : (c == b'.') ≡ false = ground (arith, h.0) in
    rw (other, set_labels-last (done ++ c ∷ []) l h.1, append_assoc done (c ∷ []) l) refl

pub length-dotted : (l : Bytes) (ls : List Bytes) → All IsLabel (l ∷ ls) → 0 < length (dotted l ls)
length-dotted l [] h = h.0.0
length-dotted l (m ∷ ls) h = omega (arith, h.0.0, length-append l (b'.' ∷ dotted m ls))

pub set_labels-dotted :
    (l : Bytes) (ls : List Bytes)
    → All IsLabel (l ∷ ls)
    → set_labels [] (dotted l ls) ≡ labels (l ∷ ls)
set_labels-dotted l [] h = set_labels-last [] l h.0.1.1 ∙ sym (append-nil (label l))
set_labels-dotted l (m ∷ ls) h =
    set_labels-label [] l (dotted m ls) h.0.1.1 (length-dotted m ls h.1)
    ∙ ap (λ t. label l ++ t) (set_labels-dotted m ls h.1)

-- One label is read, and the rest follows.
get_domain_basic-label :
    (f : ℕ) (l s name : Bytes)
    → 0 < length l
    → length l < 256
    → get_domain_basic (suc f) (label l ++ s) name ≡ get_domain_basic f s (add_label name l)
unfolding get_domain_basic
get_domain_basic-label f l s name h k =
    let size : length l % 256 ≡ length l = omega arith in
    let some_bytes : (length l == 0) ≡ false = ground arith in
    let whole : ltb (length (l ++ s)) (length l) ≡ false = ground (arith, length-append l s) in
    rw (size, some_bytes, whole, take_append l s, drop_append l s) refl

unfoldable pub join_dots : Bytes → List Bytes → Bytes
join_dots name [] = name
join_dots name (l ∷ ls) = join_dots (add_label name l) ls

get_domain_basic-labels :
    (f : ℕ) (ls : List Bytes) (s name : Bytes)
    → All IsLabel ls
    → length (labels ls) < f
    → get_domain_basic f (labels ls ++ 0 ∷ s) name ≡ some (join_dots name ls)
unfolding get_domain_basic join_dots
get_domain_basic-labels zero ls s name h hf = absurd (omega arith)
get_domain_basic-labels (suc f) [] s name h hf = refl
get_domain_basic-labels (suc f) (l ∷ ls) s name h hf =
    subst (λ t. get_domain_basic (suc f) t name ≡ some (join_dots (add_label name l) ls))
      (sym (append_assoc (label l) (labels ls) (0 ∷ s)))
      (get_domain_basic-label f l (labels ls ++ 0 ∷ s) name h.0.0 h.0.1.0
        ∙ get_domain_basic-labels f ls s (add_label name l) h.1
            (omega (arith, hf, length-append (label l) (labels ls))))

join_dots-dotted :
    (name l : Bytes) (ls : List Bytes)
    → 0 < length name
    → join_dots name (l ∷ ls) ≡ name ++ (b'.' ∷ dotted l ls)
unfolding join_dots
join_dots-dotted name l [] h = let dot : ltb 0 (length name) ≡ true = ground arith in rw dot refl
join_dots-dotted name l (m ∷ ls) h =
    let dot : add_label name l ≡ name ++ (b'.' ∷ l) = ground (arith, h) in
    rw (join_dots, dot)
      (join_dots-dotted (name ++ (b'.' ∷ l)) m ls (omega (arith, h, length-append name (b'.' ∷ l)))
        ∙ append_assoc name (b'.' ∷ l) (b'.' ∷ dotted m ls))

pub join_dots-first :
    (l : Bytes) (ls : List Bytes) → 0 < length l → join_dots [] (l ∷ ls) ≡ dotted l ls
unfolding join_dots
join_dots-first l [] h = refl
join_dots-first l (m ∷ ls) h = join_dots-dotted l m ls h

pub length-labels :
    (l : Bytes) (ls : List Bytes) → length (labels (l ∷ ls)) ≡ length (dotted l ls) + 1
length-labels l [] = omega (arith, length-append (label l) [])
length-labels l (m ∷ ls) = omega (
  arith,
  length-append (label l) (labels (m ∷ ls)),
  length-labels m ls,
  length-append l (b'.' ∷ dotted m ls),
)

-- The name with these labels, none of which is empty, longer than 255 bytes or with a dot in it, is
-- read back from the bytes that are written for it, whatever follows them, and these are two more
-- than the name has. As many rounds as there are bytes, and one, are enough.
pub get_domain_basic-set_domain :
    (l : Bytes) (ls : List Bytes) (s : Bytes)
    → All IsLabel (l ∷ ls)
    → (get_domain_basic
          (suc (length (set_domain (dotted l ls) ++ s)))
          (set_domain (dotted l ls) ++ s)
          []
        ≡ some (dotted l ls))
      × (length (set_domain (dotted l ls)) ≡ domain_size (dotted l ls))
unfolding set_domain
get_domain_basic-set_domain l ls s h =
    let written = set_labels-dotted l ls h in
    let total = length-labels l ls in
    let size = length-append (labels (l ∷ ls)) (0 ∷ []) in
    let all : set_domain (dotted l ls) ++ s ≡ labels (l ∷ ls) ++ 0 ∷ s =
      ap (λ t. (t ++ 0 ∷ []) ++ s) written ∙ append_assoc (labels (l ∷ ls)) (0 ∷ []) s in
    (
      subst (λ t. get_domain_basic (suc (length t)) t [] ≡ some (dotted l ls)) (sym all)
          (get_domain_basic-labels (suc (length (labels (l ∷ ls) ++ 0 ∷ s))) (l ∷ ls) s [] h
              (omega (arith, length-append (labels (l ∷ ls)) (0 ∷ s)))
            ∙ ap some (join_dots-first l ls h.0.0)),
      rw written (omega (arith, size, total)),
    )
