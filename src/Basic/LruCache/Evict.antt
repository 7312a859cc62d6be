-- ===== src/Basic/LruCache/Evict.antt =====
-- The clearing loop behind a new item: at most the last item goes, with its key.
use libpeco.Base.{
  ℕ, zero, suc, ◌≤◌, Bool, true, false, List, [], ◌∷◌, ◌≡◌, refl, sym, ap, subst, ◌∙◌, arith,
  length, take, ltb, if◌then◌else◌, Bool-cases, inl, inr, take_all,
}
use libpeco.Basic.LruCache.{LruCache, contains_key, erase_key, pop_back, evict}
use libpeco.Basic.LruCache.Laws.{length-pop_back}
use libpeco.Basic.LruCache.Recent.{has, HasDistinctKeys, contains_key-erase_key-if}

module _ {K V : Type 0} (eq : K → K → Bool) (sound : (x y : K) → eq x y ≡ true → x ≡ y)
    (same : (x : K) → eq x x ≡ true) where
  last_key : K × V → List (K × V) → K
  last_key i [] = i.0
  last_key i (j ∷ l) = last_key j l

  has-last_key : (i : K × V) (l : List (K × V)) → has eq (last_key i l) (i ∷ l) ≡ true
  unfolding last_key
  has-last_key (x, v) [] = rw (same x) refl
  has-last_key (x, v) (j ∷ l) = ground (arith, has-last_key j l)

  item_pool-pop_back :
      (i : K × V) (l : List (K × V)) (m : List K)
      → (pop_back eq (i ∷ l) m).0 ≡ take (length l) (i ∷ l)
  unfolding pop_back
  item_pool-pop_back (x, v) [] m = refl
  item_pool-pop_back (x, v) (j ∷ l) m = ap (◌∷◌ (x, v)) (item_pool-pop_back j l m)

  index_map-pop_back :
      (i : K × V) (l : List (K × V)) (m : List K)
      → (pop_back eq (i ∷ l) m).1 ≡ erase_key eq (last_key i l) m
  unfolding pop_back last_key
  index_map-pop_back (x, v) [] m = refl
  index_map-pop_back (x, v) (j ∷ l) m = index_map-pop_back j l m

  has-init :
      (k : K) (i : K × V) (l : List (K × V))
      → HasDistinctKeys eq (i ∷ l)
      → has eq k (take (length l) (i ∷ l))
        ≡ (if eq (last_key i l) k then false else has eq k (i ∷ l))
  unfolding last_key
  has-init k (x, v) [] h = ground arith
  has-init k (x, v) (j ∷ l) h = elim (Bool-cases (eq x k)) [
    | inl e ↦ elim (Bool-cases (eq (last_key j l) k)) [
      | inl f ↦
          let at_last =
            subst (λ y. has eq y (j ∷ l) ≡ true) (sound (last_key j l) k f ∙ sym (sound x k e))
              (has-last_key j l) in
          absurd (ground (arith, at_last, h.0))
      | inr f ↦ rw (e, f) refl
    ]
    | inr e ↦ rw e (has-init k j l h.1)
  ]

  evict-done : (f : ℕ) (c : LruCache K V) → length c.item_pool ≤ c.cache_size → evict eq f c ≡ c
  unfolding evict
  evict-done zero c h = refl
  evict-done (suc f) c h =
      let fits : ltb c.cache_size (length c.item_pool) ≡ false = ground arith in rw fits refl

  abbrev pub IsEvicted : ℕ → List (K × V) → LruCache K V → Type 0
  IsEvicted n l c =
      (c.item_pool ≡ take n l)
      × ((c.cache_size ≡ n) × ((k : K) → contains_key eq k c.index_map ≡ has eq k (take n l)))

  pub evict-take :
      (n : ℕ) (i : K × V) (l : List (K × V)) (m : List K)
      → HasDistinctKeys eq (i ∷ l)
      → ((k : K) → contains_key eq k m ≡ has eq k (i ∷ l))
      → length l ≤ n
      → IsEvicted n
          (i ∷ l)
          (evict eq (suc (length l)) (record { item_pool = i ∷ l; index_map = m; cache_size = n }))
  unfolding evict
  evict-take n i l m d h le = elim (Bool-cases (ltb n (suc (length l)))) [
    | inl e ↦
        let full : length l ≡ n = ground (arith, e) in
        let pool = item_pool-pop_back i l m in
        let index = index_map-pop_back i l m in
        let small : length (pop_back eq (i ∷ l) m).0 ≤ n =
          omega (arith, length-pop_back eq i l m, le) in
        let test : (k : K)
            → contains_key eq k (erase_key eq (last_key i l) m)
              ≡ has eq k (take (length l) (i ∷ l)) =
          λ k.
            contains_key-erase_key-if eq sound k (last_key i l) m
            ∙ ap (λ b. if eq (last_key i l) k then false else b) (h k)
            ∙ sym (has-init k i l d) in
        let done =
          evict-done (length l)
            (record {
              item_pool = (pop_back eq (i ∷ l) m).0;
              index_map = (pop_back eq (i ∷ l) m).1;
              cache_size = n;
            })
            small in
        rw (e, done, index, pool, sym full) (refl, (refl, test))
    | inr e ↦ let all = take_all n (i ∷ l) (ground (arith, e)) in rw (e, all) (refl, (refl, h))
  ]
