-- ===== src/Basic/LruCache/Refines.antt =====
-- The cache with its index does what the list of recent items says.
use libpeco.Base.{
  ℕ, zero, suc, ◌<◌, Bool, true, false, List, [], ◌∷◌, Option, none, some, ◌≡◌, refl, sym, ap,
  subst, ◌∙◌, arith, length, if◌then◌else◌, Bool-cases, inl, inr, Yields, ◌>>=◌,
}
use libpeco.Basic.LruCache.{LruCache, contains_key, get, assign_item, put, erase, clear}
use libpeco.Basic.LruCache.Recent.{
  Operation, put_item, get_item, erase_at, clear_all, has, without, value_or, touch, spec_step,
  HasDistinctKeys, without-missing, length-without, erase_item-without, has-without,
  contains_key-erase_key-if, without-HasDistinctKeys,
}
use libpeco.Basic.LruCache.Holds.{IsIndexed, Holds, get-Holds}

module _ {K V : Type 0} (eq : K → K → Bool) where
  abbrev pub step : V → Operation K V → LruCache K V → Option (LruCache K V)
  step e (put_item k v) c = put eq e k v c
  step e (get_item k) c = get eq none e k c
  step e (erase_at k) c = some (erase eq k c)
  step e clear_all c = some (clear eq c)

  -- One call after the other.
  abbrev pub run : V → List (Operation K V) → LruCache K V → Option (LruCache K V)
  run e [] c = some c
  run e (o ∷ os) c = step e o c >>= λ c'. run e os c'

  abbrev pub spec_run : ℕ → V → List (Operation K V) → List (K × V) → List (K × V)
  spec_run n e [] l = l
  spec_run n e (o ∷ os) l = spec_run n e os (spec_step eq n e o l)

  module _ (sound : (x y : K) → eq x y ≡ true → x ≡ y) (same : (x : K) → eq x x ≡ true) where
    -- The item in front gets another value.
    Holds-assign_item :
        (n : ℕ) (k : K) (u v : V) (l : List (K × V)) (c : LruCache K V)
        → Holds eq (suc n) (touch eq (suc n) k u l) c
        → Holds eq
            (suc n)
            (touch eq (suc n) k v l)
            (record c { item_pool = assign_item eq k v c.item_pool })
    unfolding assign_item
    Holds-assign_item n k u v l c (p, (q, (t, (d, le)))) =
        let new : assign_item eq k v c.item_pool ≡ touch eq (suc n) k v l =
          ap (assign_item eq k v) p ∙ rw (same k) refl in
        (
          new,
          (
            q,
            (
              λ j. t j ∙ ap (has eq j) p ∙ ap (has eq j) (sym new),
              (
                subst (HasDistinctKeys eq) (sym new) (subst (HasDistinctKeys eq) p d),
                omega (arith, ap length new, ap length p, le),
              ),
            ),
          ),
        )

    put_found :
        (e : V) (k : K) (v : V) (n : ℕ) (c : LruCache K V)
        → 0 < n
        → Yields
            (get eq none e k c)
            (Holds eq n (touch eq n k (value_or eq e k c.item_pool) c.item_pool))
        → Yields (put eq e k v c) (Holds eq n (touch eq n k v c.item_pool))
    unfolding put
    put_found e k v zero c pos y = absurd (omega arith)
    put_found e k v (suc n) c pos (c', p, h) = (
      record c' { item_pool = assign_item eq k v c'.item_pool },
      rw (put, p) refl,
      Holds-assign_item n k (value_or eq e k c.item_pool) v c.item_pool c' h,
    )

    erase-Holds :
        (k : K) (c : LruCache K V)
        → IsIndexed eq c
        → Holds eq c.cache_size (without eq k c.item_pool) (erase eq k c)
    unfolding erase
    erase-Holds k c w = elim (Bool-cases (has eq k c.item_pool)) [
      | inl h ↦
          let kept = erase_item-without eq sound k c.item_pool w.1.0 in
          let there = w.0 k ∙ h in
          rw (there, kept)
            (
              refl,
              (
                refl,
                (
                  λ j.
                      contains_key-erase_key-if eq sound j k c.index_map
                      ∙ ap (λ b. if eq k j then false else b) (w.0 j)
                      ∙ sym (has-without eq sound j k c.item_pool),
                  (
                    without-HasDistinctKeys eq sound k c.item_pool w.1.0,
                    omega (arith, (length-without eq k c.item_pool).0, w.1.1),
                  ),
                ),
              ),
            )
      | inr h ↦
          let there = w.0 k ∙ h in rw there (sym (without-missing eq k c.item_pool h), (refl, w))
    ]

    step-Holds :
        (e : V) (o : Operation K V) (c : LruCache K V)
        → IsIndexed eq c
        → 0 < c.cache_size
        → Yields (step e o c) (Holds eq c.cache_size (spec_step eq c.cache_size e o c.item_pool))
    unfolding put
    step-Holds e (put_item k v) c w pos =
        put_found e k v c.cache_size c pos (get-Holds eq sound same e k c w pos)
    step-Holds e (get_item k) c w pos = get-Holds eq sound same e k c w pos
    step-Holds e (erase_at k) c w pos = (erase eq k c, refl, erase-Holds k c w)
    step-Holds e clear_all c w pos =
        unfold clear in
        (clear eq c, refl, (refl, (refl, (λ j. unfold contains_key in refl, (tt, omega arith)))))

    -- Any sequence of calls of put, get without an action, erase and clear does to the cache what it
    -- does to the list of recent items, and no step of it dereferences an iterator that is not
    -- there. The equality decides whether keys are the same, the cache size is not 0, and the cache
    -- is indexed at the start; it is so at the end.
    pub run-spec_run :
        (e : V) (os : List (Operation K V)) (c : LruCache K V)
        → IsIndexed eq c
        → 0 < c.cache_size
        → Yields (run e os c) (Holds eq c.cache_size (spec_run c.cache_size e os c.item_pool))
    run-spec_run e [] c w pos = (c, refl, (refl, (refl, w)))
    run-spec_run e (o ∷ os) c w pos =
        let (c', p, (r, (s, w'))) = step-Holds e o c w pos in
        let rest = run-spec_run e os c' w' (subst (λ n. 0 < n) (sym s) pos) in
        let same_items : spec_run c'.cache_size e os c'.item_pool
            ≡ spec_run c.cache_size e os (spec_step eq c.cache_size e o c.item_pool) =
          rw (s, r) refl in
        (rest.0, rw p rest.1, (rest.2.0 ∙ same_items, (rest.2.1.0 ∙ s, rest.2.1.1)))
