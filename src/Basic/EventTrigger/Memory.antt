-- ===== src/Basic/EventTrigger/Memory.antt =====
-- What the trigger asks of a storage of src/basic/eventtrigger.h, and et_memory_storage, whose map is
-- an association list: the order of its entries is read by no operation but search.
use libpeco.Base.{
  Bool, true, false, List, [], ◌∷◌, Option, none, some, ◌≡◌, refl, sym, ap, ◌∙◌, arith,
  if◌then◌else◌, Bool-cases, Option-cases, inl, inr,
}

-- The operations. A call of set tells whether the value is another one than before, and the old one.
pub record Storage (S K V : Type 0) : Type 0 where
  pub set : K → V → S → (Bool × V) × S
  pub remove : K → S → S
  pub has : K → S → Bool
  pub get : K → S → V

-- What they promise of the values that are stored: `view` finds one, `d` is the default value.
pub record StorageLaws {S K V : Type 0} (eq : K → K → Bool) (same : V → V → Bool) (d : V)
    (o : Storage S K V) : Type 0 where
  pub view : K → S → Option V
  pub set_new : (k : K) (v : V) (s : S) → view k s ≡ none → (o.set k v s).0 ≡ (true, d)
  pub set_same :
      (k : K) (u v : V) (s : S) → view k s ≡ some u → same u v ≡ true → (o.set k v s).0.0 ≡ false
  pub set_other :
      (k : K) (u v : V) (s : S) → view k s ≡ some u → same u v ≡ false → (o.set k v s).0 ≡ (true, u)
  pub view-set :
      (j k : K) (v : V) (s : S) → view j (o.set k v s).1 ≡ (if eq k j then some v else view j s)
  pub view-remove : (j k : K) (s : S) → view j (o.remove k s) ≡ (if eq k j then none else view j s)
  pub has-view : (k : K) (s : S) → o.has k s ≡ elim (view k s) [ none ↦ false | some v ↦ true ]
  pub get-view : (k : K) (s : S) → o.get k s ≡ elim (view k s) [ none ↦ d | some v ↦ v ]

module _ {K V : Type 0} (eq : K → K → Bool) where
  unfoldable pub find_value : K → List (K × V) → Option V
  find_value k [] = none
  find_value k ((j, v) ∷ m) = if eq j k then some v else find_value k m

  unfoldable pub store_value : K → V → List (K × V) → List (K × V)
  store_value k v [] = (k, v) ∷ []
  store_value k v ((j, u) ∷ m) = if eq j k then (j, v) ∷ m else (j, u) ∷ store_value k v m

  unfoldable pub erase_value : K → List (K × V) → List (K × V)
  erase_value k [] = []
  erase_value k ((j, v) ∷ m) = if eq j k then erase_value k m else (j, v) ∷ erase_value k m

module _ {K V : Type 0} (eq : K → K → Bool) (same : V → V → Bool) (d : V) where
  unfoldable pub set_memory : K → V → List (K × V) → (Bool × V) × List (K × V)
  unfolding find_value store_value
  set_memory k v m = elim (find_value eq k m) [
    | none ↦ ((true, d), store_value eq k v m)
    | some u ↦ if same u v then ((false, d), m) else ((true, u), store_value eq k v m)
  ]

  unfoldable pub has_memory : K → List (K × V) → Bool
  unfolding find_value
  has_memory k m = elim (find_value eq k m) [ none ↦ false | some v ↦ true ]

  unfoldable pub get_memory : K → List (K × V) → V
  unfolding find_value
  get_memory k m = elim (find_value eq k m) [ none ↦ d | some v ↦ v ]

  abbrev pub memory_storage : Storage (List (K × V)) K V
  memory_storage = record {
    set = set_memory;
    remove = erase_value eq;
    has = has_memory;
    get = get_memory;
  }

  module _ (sound : (x y : K) → eq x y ≡ true → x ≡ y) (refl_key : (x : K) → eq x x ≡ true)
      (sound_value : (x y : V) → same x y ≡ true → x ≡ y) where
    find_value-store_value :
        (j k : K) (v : V) (m : List (K × V))
        → find_value eq j (store_value eq k v m) ≡ (if eq k j then some v else find_value eq j m)
    unfolding find_value store_value
    find_value-store_value j k v [] = refl
    find_value-store_value j k v ((i, u) ∷ m) =
        ground (arith, sound i k, sound i j, sound k j, refl_key k, find_value-store_value j k v m)

    pub find_value-erase_value :
        (j k : K) (m : List (K × V))
        → find_value eq j (erase_value eq k m) ≡ (if eq k j then none else find_value eq j m)
    unfolding find_value erase_value
    find_value-erase_value j k [] = ground arith
    find_value-erase_value j k ((i, u) ∷ m) =
        ground (arith, sound i k, sound i j, sound k j, refl_key k, find_value-erase_value j k m)

    pub view_set_memory :
        (j k : K) (v : V) (m : List (K × V))
        → find_value eq j (set_memory k v m).1 ≡ (if eq k j then some v else find_value eq j m)
    unfolding set_memory
    view_set_memory j k v m = elim (Option-cases (find_value eq k m)) [
      | inl e ↦ rw (e, set_memory) (find_value-store_value j k v m)
      | inr (u, e) ↦ elim (Bool-cases (same u v)) [
        | inl q ↦
            rw (e, set_memory, q)
              (elim (Bool-cases (eq k j)) [
                | inl g ↦ rw g (
                    ap (λ i. find_value eq i m) (sym (sound k j g))
                    ∙ e
                    ∙ ap some (sound_value u v q))
                | inr g ↦ rw g refl
              ])
        | inr q ↦ rw (e, set_memory, q) (find_value-store_value j k v m)
      ]
    ]

    -- The storage in memory keeps the promises.
    unfoldable pub memory_storage_laws : StorageLaws eq same d memory_storage
    unfolding set_memory has_memory get_memory
    memory_storage_laws = record {
      view = find_value eq;
      set_new = λ k v s e. rw (e, set_memory) refl;
      set_same = λ k u v s e q. rw (e, set_memory, q) refl;
      set_other = λ k u v s e q. rw (e, set_memory, q) refl;
      view-set = view_set_memory;
      view-remove = find_value-erase_value;
      has-view = λ k s. refl;
      get-view = λ k s. refl;
    }
