-- ===== src/Basic/LruCache/Holds.antt =====
-- A cache whose index fits its pool, and what get makes of it.
use libpeco.Base.{
  ℕ, zero, suc, ◌≤◌, ◌<◌, Bool, true, false, List, ◌∷◌, none, ◌≡◌, refl, sym, ap, subst, ◌∙◌, arith,
  length, length-take-le, take, if◌then◌else◌, Bool-cases, inl, inr, Yields, take_all,
}
use libpeco.Basic.LruCache.{LruCache, contains_key, erase_key, evict, add_front, get}
use libpeco.Basic.LruCache.Recent.{
  has, without, value_or, touch, HasDistinctKeys, without-missing, find_item-value_or,
  value_or-missing, length-without, erase_item-without, has-without, contains_key-erase_key-if,
  without-HasDistinctKeys, take-HasDistinctKeys,
}
use libpeco.Basic.LruCache.Evict.{evict-take, IsEvicted}

module _ {K : Type 0} (eq : K → K → Bool) where
  has_front :
      (j k : K) (b c : Bool)
      → c ≡ (if eq k j then false else b)
      → (eq k j ≡ true → b ≡ true)
      → b ≡ (if eq k j then true else c)
  has_front j k b c h g = elim (Bool-cases (eq k j)) [
    | inl e ↦ rw e (g e)
    | inr e ↦ ground (arith, e, h)
  ]

  tail_test :
      (k j : K) (b : Bool)
      → (if eq k j then true else if eq k j then false else b) ≡ (if eq k j then true else b)
  tail_test k j b = ground arith

module _ {K V : Type 0} (eq : K → K → Bool) where
  -- The index has the keys of the pool, no key is there twice, and there is room for all.
  abbrev pub IsIndexed : LruCache K V → Type 0
  IsIndexed c =
      ((k : K) → contains_key eq k c.index_map ≡ has eq k c.item_pool)
      × (HasDistinctKeys eq c.item_pool × (length c.item_pool ≤ c.cache_size))

  -- The cache is indexed and holds these items.
  abbrev pub Holds : ℕ → List (K × V) → LruCache K V → Type 0
  Holds n l c = (c.item_pool ≡ l) × ((c.cache_size ≡ n) × IsIndexed c)

  module _ (sound : (x y : K) → eq x y ≡ true → x ≡ y) (same : (x : K) → eq x x ≡ true) where
    new_front :
        (k : K) (v : V) (l : List (K × V))
        → HasDistinctKeys eq l
        → HasDistinctKeys eq ((k, v) ∷ without eq k l)
    new_front k v l d =
        (has-without eq sound k k l ∙ rw (same k) refl, without-HasDistinctKeys eq sound k l d)

    -- A key that is there comes to the front.
    get-has :
        (e : V) (k : K) (c : LruCache K V)
        → IsIndexed c
        → has eq k c.item_pool ≡ true
        → Yields
            (get eq none e k c)
            (Holds c.cache_size (touch eq c.cache_size k (value_or eq e k c.item_pool) c.item_pool))
    unfolding get
    get-has e k c w h =
        let v = value_or eq e k c.item_pool in
        let pool = (k, v) ∷ without eq k c.item_pool in
        let fits : length pool ≤ c.cache_size =
          omega (arith, (length-without eq k c.item_pool).1 h, w.1.1) in
        let kept = erase_item-without eq sound k c.item_pool w.1.0 in
        (
          record c { item_pool = pool },
          rw (get, w.0 k, h, find_item-value_or eq e k c.item_pool h, kept) refl,
          (
            sym (take_all c.cache_size pool fits),
            (
              refl,
              (
                λ j.
                    w.0 j
                    ∙ has_front eq j k (has eq j c.item_pool) (has eq j (without eq k c.item_pool))
                        (has-without eq sound j k c.item_pool)
                        (λ f. subst (λ y. has eq y c.item_pool ≡ true) (sound k j f) h),
                (new_front k v c.item_pool w.1.0, fits),
              ),
            ),
          ),
        )

    first_stays :
        (n : ℕ) (k : K) (v : V) (l : List (K × V)) → 0 < n → has eq k (take n ((k, v) ∷ l)) ≡ true
    first_stays zero k v l h = absurd (omega arith)
    first_stays (suc n) k v l h = rw (same k) refl

    indexed :
        (n : ℕ) (l : List (K × V)) (c : LruCache K V)
        → IsEvicted eq sound same n l c
        → HasDistinctKeys eq l
        → IsIndexed c
    indexed n l c (p, (q, t)) d = (
      (λ j. t j ∙ ap (has eq j) (sym p)),
      (
        subst (HasDistinctKeys eq) (sym p) (take-HasDistinctKeys eq sound n l d),
        rw (p, q) (length-take-le n l),
      ),
    )

    -- A key that is not there comes with the empty value, and the last item may go.
    get-missing :
        (e : V) (k : K) (c : LruCache K V)
        → IsIndexed c
        → 0 < c.cache_size
        → has eq k c.item_pool ≡ false
        → Yields
            (get eq none e k c)
            (Holds c.cache_size (touch eq c.cache_size k (value_or eq e k c.item_pool) c.item_pool))
    unfolding get add_front contains_key
    get-missing e k c w pos h =
        let added =
          evict-take eq sound same c.cache_size (k, e) c.item_pool (k ∷ erase_key eq k c.index_map)
            (h, w.1.0)
            (λ j.
              ap (λ b. if eq k j then true else b)
                (contains_key-erase_key-if eq sound j k c.index_map
                  ∙ ap (λ b. if eq k j then false else b) (w.0 j))
              ∙ tail_test eq k j (has eq j c.item_pool))
            w.1.1 in
        let c' = evict eq (suc (length c.item_pool)) (record c {
          item_pool = (k, e) ∷ c.item_pool;
          index_map = k ∷ erase_key eq k c.index_map;
        }) in
        let old = without-missing eq k c.item_pool h in
        let empty = value_or-missing eq e k c.item_pool h in
        let here : contains_key eq k c'.index_map ≡ true =
          added.1.1 k ∙ first_stays c.cache_size k e c.item_pool pos in
        (
          c',
          rw (get, w.0 k, h, here) refl,
          (
            added.0 ∙ rw (old, empty) refl,
            (added.1.0, indexed c.cache_size ((k, e) ∷ c.item_pool) c' added (h, w.1.0)),
          ),
        )

    pub get-Holds :
        (e : V) (k : K) (c : LruCache K V)
        → IsIndexed c
        → 0 < c.cache_size
        → Yields
            (get eq none e k c)
            (Holds c.cache_size (touch eq c.cache_size k (value_or eq e k c.item_pool) c.item_pool))
    get-Holds e k c w pos = elim (Bool-cases (has eq k c.item_pool)) [
      | inl h ↦ get-has e k c w h
      | inr h ↦ get-missing e k c w pos h
    ]
