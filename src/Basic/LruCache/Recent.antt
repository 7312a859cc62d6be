-- ===== src/Basic/LruCache/Recent.antt =====
-- What an LRU cache promises, without its index: a list of items with different keys, the one that
-- was used last in front. Lemmas on such lists.
use libpeco.Base.{
  ℕ, zero, suc, ◌≤◌, Bool, true, false, List, [], ◌∷◌, some, ◌≡◌, refl, sym, ap, subst, ◌∙◌, arith,
  length, take, if◌then◌else◌, Bool-cases, inl, inr,
}
use libpeco.Basic.LruCache.{contains_key, erase_key, find_item, erase_item}

pub data Operation (K V : Type 0) : Type 0 where
  put_item : K → V → Operation K V
  get_item erase_at : K → Operation K V
  clear_all : Operation K V

module _ {K : Type 0} (eq : K → K → Bool) (sound : (x y : K) → eq x y ≡ true → x ≡ y) where
  eq-left : (x k j : K) → eq x k ≡ true → eq x j ≡ eq k j
  eq-left x k j h = ap (λ y. eq y j) (sound x k h)

  eq-right : (x k j : K) → eq k j ≡ true → eq x j ≡ eq x k
  eq-right x k j h = ap (λ y. eq x y) (sym (sound k j h))

  -- What is left at `j` of a test on a list without the key `k`.
  tests :
      (x k j : K) (kept rest : Bool)
      → kept ≡ (if eq k j then false else rest)
      → (if eq x k then kept else if eq x j then true else kept)
        ≡ (if eq k j then false else if eq x j then true else rest)
  tests x k j kept rest h = elim (Bool-cases (eq x k)) [
    | inl e ↦ let left = eq-left x k j e in ground (arith, e, left, h)
    | inr e ↦ elim (Bool-cases (eq k j)) [
      | inl f ↦ let right = eq-right x k j f in ground (arith, e, f, right, h)
      | inr f ↦ ground (arith, e, f, h)
    ]
  ]

  pub contains_key-erase_key-if :
      (j k : K) (m : List K)
      → contains_key eq j (erase_key eq k m) ≡ (if eq k j then false else contains_key eq j m)
  unfolding contains_key erase_key
  contains_key-erase_key-if j k [] = ground arith
  contains_key-erase_key-if j k (x ∷ m) =
      over (eq x k)
      ∙ tests x k j (contains_key eq j (erase_key eq k m)) (contains_key eq j m)
          (contains_key-erase_key-if j k m)
    where
      over :
          (b : Bool)
          → contains_key eq j (if b then erase_key eq k m else x ∷ erase_key eq k m) ≡ (
              if b
              then contains_key eq j (erase_key eq k m)
              else if eq x j
              then true
              else contains_key eq j (erase_key eq k m))
      over true = refl
      over false = refl

absent : (b c : Bool) → c ≡ false → (if b then false else c) ≡ false
absent b c h = ground (arith, h)

module _ {K V : Type 0} (eq : K → K → Bool) where
  abbrev pub has : K → List (K × V) → Bool
  has k [] = false
  has k ((x, v) ∷ l) = if eq x k then true else has k l

  abbrev pub without : K → List (K × V) → List (K × V)
  without k [] = []
  without k ((x, v) ∷ l) = if eq x k then without k l else (x, v) ∷ without k l

  abbrev pub value_or : V → K → List (K × V) → V
  value_or e k [] = e
  value_or e k ((x, v) ∷ l) = if eq x k then v else value_or e k l

  -- An item comes to the front, and of the others as many stay as there is room for.
  abbrev pub touch : ℕ → K → V → List (K × V) → List (K × V)
  touch n k v l = take n ((k, v) ∷ without k l)

  abbrev pub spec_step : ℕ → V → Operation K V → List (K × V) → List (K × V)
  spec_step n e (put_item k v) l = touch n k v l
  spec_step n e (get_item k) l = touch n k (value_or e k l) l
  spec_step n e (erase_at k) l = without k l
  spec_step n e clear_all l = []

  abbrev pub HasDistinctKeys : List (K × V) → Type 0
  HasDistinctKeys [] = Unit
  HasDistinctKeys ((x, v) ∷ l) = (has x l ≡ false) × HasDistinctKeys l

  pub without-missing : (k : K) (l : List (K × V)) → has k l ≡ false → without k l ≡ l
  without-missing k [] h = refl
  without-missing k ((x, v) ∷ l) h = ground (arith, h, without-missing k l)

  pub find_item-value_or :
      (e : V) (k : K) (l : List (K × V)) → has k l ≡ true → find_item eq k l ≡ some (value_or e k l)
  unfolding find_item
  find_item-value_or e k [] h = ground (arith, h)
  find_item-value_or e k ((x, v) ∷ l) h = ground (arith, h, find_item-value_or e k l)

  pub value_or-missing : (e : V) (k : K) (l : List (K × V)) → has k l ≡ false → value_or e k l ≡ e
  value_or-missing e k [] h = refl
  value_or-missing e k ((x, v) ∷ l) h = ground (arith, h, value_or-missing e k l)

  pub length-without :
      (k : K) (l : List (K × V))
      → (length (without k l) ≤ length l) × (has k l ≡ true → suc (length (without k l)) ≤ length l)
  length-without k [] = (omega arith, λ h. ground (arith, h))
  length-without k ((x, v) ∷ l) =
      (ground (arith, length-without k l), λ h. ground (arith, h, length-without k l))

  has-take : (j : K) (n : ℕ) (l : List (K × V)) → has j l ≡ false → has j (take n l) ≡ false
  has-take j zero l h = refl
  has-take j (suc n) [] h = refl
  has-take j (suc n) ((x, v) ∷ l) h = ground (arith, h, has-take j n l)

  has-if :
      (j x : K) (v : V) (l : List (K × V)) (b : Bool)
      → has j (if b then l else (x, v) ∷ l)
        ≡ (if b then has j l else if eq x j then true else has j l)
  has-if j x v l true = refl
  has-if j x v l false = refl

  module _ (sound : (x y : K) → eq x y ≡ true → x ≡ y) where
    pub erase_item-without :
        (k : K) (l : List (K × V)) → HasDistinctKeys l → erase_item eq k l ≡ without k l
    unfolding erase_item
    erase_item-without k [] h = refl
    erase_item-without k ((x, v) ∷ l) h = elim (Bool-cases (eq x k)) [
      | inl e ↦ rw e (sym (without-missing k l (subst (λ y. has y l ≡ false) (sound x k e) h.0)))
      | inr e ↦ rw e (ap (◌∷◌ (x, v)) (erase_item-without k l h.1))
    ]

    pub has-without :
        (j k : K) (l : List (K × V)) → has j (without k l) ≡ (if eq k j then false else has j l)
    has-without j k [] = ground arith
    has-without j k ((x, v) ∷ l) =
        has-if j x v (without k l) (eq x k)
        ∙ tests eq sound x k j (has j (without k l)) (has j l) (has-without j k l)

    pub without-HasDistinctKeys :
        (k : K) (l : List (K × V)) → HasDistinctKeys l → HasDistinctKeys (without k l)
    without-HasDistinctKeys k [] h = tt
    without-HasDistinctKeys k ((x, v) ∷ l) h = elim (Bool-cases (eq x k)) [
      | inl e ↦ rw e (without-HasDistinctKeys k l h.1)
      | inr e ↦
          rw e (has-without x k l ∙ absent (eq k x) (has x l) h.0, without-HasDistinctKeys k l h.1)
    ]

    pub take-HasDistinctKeys :
        (n : ℕ) (l : List (K × V)) → HasDistinctKeys l → HasDistinctKeys (take n l)
    take-HasDistinctKeys zero l h = tt
    take-HasDistinctKeys (suc n) [] h = tt
    take-HasDistinctKeys (suc n) ((x, v) ∷ l) h = (has-take x n l h.0, take-HasDistinctKeys n l h.1)
