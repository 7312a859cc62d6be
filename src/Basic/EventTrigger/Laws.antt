-- ===== src/Basic/EventTrigger/Laws.antt =====
-- Values set one after the other under a key, and the calls of the handlers.
use libpeco.Base.{
  ℕ, ◌≤◌, Bool, true, false, not, List, [], ◌∷◌, ◌++◌, Option, none, some, ◌≡◌, refl, sym, ap, ◌∙◌,
  arith, length, if◌then◌else◌, ◌>>=◌, All, Bool-cases, Option-cases, append_assoc, append-nil,
  subst, inl, inr, Yields,
}
use mathlib.Core.Option.{some-injective}
use libpeco.Basic.EventTrigger.{
  TriggerType, changed, changed_to, changed_from, changed_except, changed_special, TriggerOperator,
  EventTrigger, is_among, is_called, run_triggers, triggers_of, set_value,
}
use libpeco.Basic.EventTrigger.Memory.{Storage, StorageLaws}

-- How many values the loop reads of a trigger.
abbrev pub needed : TriggerType → ℕ
needed changed = 0
needed changed_to = 1
needed changed_from = 1
needed changed_except = 0
needed changed_special = 2

abbrev pub IsComplete : {V H : Type 0} → TriggerOperator V H → Type 0
IsComplete op = needed op.type ≤ length op.values

-- The triggers of every key have the values that are read.
abbrev pub IsReady : {S K V H : Type 0} → EventTrigger S K V H → Type 0
IsReady t = All (λ e. All IsComplete e.1) t.trigger_map

module _ {V : Type 0} (same : V → V → Bool) where
  -- The changes that a sequence of values makes, from the value before, if there is one.
  unfoldable pub changes : V → Option V → List V → List (V × V)
  changes d o [] = []
  changes d none (v ∷ vs) = (d, v) ∷ changes d (some v) vs
  changes d (some u) (v ∷ vs) =
      if same u v then changes d (some u) vs else (u, v) ∷ changes d (some v) vs

  -- Whether a change is one that a trigger with these values is for.
  unfoldable pub is_wanted : TriggerType → List V → V → V → Bool
  unfolding is_among
  is_wanted changed us old v = true
  is_wanted changed_to (u ∷ us) old v = same v u
  is_wanted changed_from (u ∷ us) old v = same old u
  is_wanted changed_except us old v = not (is_among same v us)
  is_wanted changed_special (u ∷ w ∷ us) old v = if same u old then same w v else false
  is_wanted _ _ old v = false

  changes-split :
      ((x y : V) → same x y ≡ true → x ≡ y)
      → (d : V) (o : Option V) (v : V) (vs : List V)
      → changes d o (v ∷ vs) ≡ changes d o (v ∷ []) ++ changes d (some v) vs
  unfolding changes
  changes-split sound d none v vs = refl
  changes-split sound d (some u) v vs = elim (Bool-cases (same u v)) [
    | inl q ↦ rw q (ap (λ x. changes d (some x) vs) (sound u v q))
    | inr q ↦ rw q refl
  ]

module _ {V H : Type 0} (same : V → V → Bool) where
  -- The calls that a change makes, and those that several make.
  unfoldable pub calls_for : List (TriggerOperator V H) → V × V → List (H × V × V)
  unfolding is_wanted
  calls_for [] c = []
  calls_for (op ∷ ops) c =
      if is_wanted same op.type op.values c.0 c.1
      then (op.handler, c.0, c.1) ∷ calls_for ops c
      else calls_for ops c

  unfoldable pub all_calls : List (TriggerOperator V H) → List (V × V) → List (H × V × V)
  unfolding calls_for
  all_calls ops [] = []
  all_calls ops (c ∷ cs) = calls_for ops c ++ all_calls ops cs

  all_calls-append :
      (ops : List (TriggerOperator V H)) (cs ds : List (V × V))
      → all_calls ops (cs ++ ds) ≡ all_calls ops cs ++ all_calls ops ds
  unfolding all_calls
  all_calls-append ops [] ds = refl
  all_calls-append ops (c ∷ cs) ds =
      rw (all_calls-append ops cs ds)
        (sym (append_assoc (calls_for ops c) (all_calls ops cs) (all_calls ops ds)))

  called_wanted :
      (type : TriggerType) (us : List V) (h : H) (old v : V)
      → needed type ≤ length us
      → is_called same (record { type = type; values = us; handler = h }) old v
        ≡ some (is_wanted same type us old v)
  unfolding is_called is_wanted
  called_wanted changed us h old v c = refl
  called_wanted changed_to [] h old v c = absurd (omega arith)
  called_wanted changed_to (u ∷ us) h old v c = refl
  called_wanted changed_from [] h old v c = absurd (omega arith)
  called_wanted changed_from (u ∷ us) h old v c = refl
  called_wanted changed_except us h old v c = refl
  called_wanted changed_special [] h old v c = absurd (omega arith)
  called_wanted changed_special (u ∷ []) h old v c = absurd (omega arith)
  called_wanted changed_special (u ∷ w ∷ us) h old v c = ground arith

  run_triggers-calls_for :
      (ops : List (TriggerOperator V H)) (old v : V)
      → All IsComplete ops
      → run_triggers same ops old v ≡ some (calls_for ops (old, v))
  unfolding run_triggers calls_for
  run_triggers-calls_for [] old v h = refl
  run_triggers-calls_for (op ∷ ops) old v (h, hs) =
      rw (called_wanted op.type op.values op.handler old v h, run_triggers-calls_for ops old v hs)
        refl

module _ {K V H : Type 0} (eq : K → K → Bool) where
  -- The triggers of a key, none if nobody has added one.
  unfoldable pub ops_of : K → List (K × List (TriggerOperator V H)) → List (TriggerOperator V H)
  unfolding triggers_of
  ops_of k m = elim (triggers_of eq k m) [ none ↦ [] | some ops ↦ ops ]

  pub All-triggers_of :
      (k : K) (ops : List (TriggerOperator V H)) (m : List (K × List (TriggerOperator V H)))
      → All (λ e. All IsComplete e.1) m
      → triggers_of eq k m ≡ some ops
      → All IsComplete ops
  unfolding triggers_of
  All-triggers_of k ops [] h e = absurd (cc)
  All-triggers_of k ops ((j, os) ∷ m) (h, hs) e = elim (Bool-cases (eq j k)) [
    | inl g ↦
        subst (All IsComplete)
          (some-injective os ops (sym (ap (λ b. if b then some os else triggers_of eq k m) g) ∙ e))
          h
    | inr g ↦
        All-triggers_of k ops m hs (sym (ap (λ b. if b then some os else triggers_of eq k m) g) ∙ e)
  ]

module _ {S K V H : Type 0} (eq : K → K → Bool) (same : V → V → Bool)
    (storage : Storage S K V) where
  -- The same key gets one value after the other.
  abbrev pub set_values :
      K → List V → EventTrigger S K V H → Option (EventTrigger S K V H × List (H × V × V))
  set_values k [] t = some (t, [])
  set_values k (v ∷ vs) t = do
    (t', calls) ← set_value eq same storage k v t
    (t'', more) ← set_values k vs t'
    some (t'', calls ++ more)

module _ {S K V H : Type 0} (eq : K → K → Bool) (same : V → V → Bool) (d : V)
    (storage : Storage S K V) (laws : StorageLaws eq same d storage) where
  set_value_changed :
      (k : K) (old v : V) (t : EventTrigger S K V H)
      → IsReady t
      → (storage.set k v t.info_data).0 ≡ (true, old)
      → set_value eq same storage k v t
        ≡ some (
          record t { info_data = (storage.set k v t.info_data).1 },
          calls_for same (ops_of eq k t.trigger_map) (old, v),
        )
  unfolding set_value calls_for ops_of
  set_value_changed k old v t h e =
      let e' : (storage.set k v t.info_data).0.1 ≡ old = ap (λ p. p.1) e in
      elim (Option-cases (triggers_of eq k t.trigger_map)) [
        | inl g ↦ rw (e, g, ops_of) refl
        | inr (ops, g) ↦
            rw
              (
                e,
                g,
                ops_of,
                e',
                run_triggers-calls_for same ops old v (All-triggers_of eq k ops t.trigger_map h g),
              )
              refl
      ]

  set_value_same :
      (k : K) (v : V) (t : EventTrigger S K V H)
      → (storage.set k v t.info_data).0.0 ≡ false
      → set_value eq same storage k v t
        ≡ some (record t { info_data = (storage.set k v t.info_data).1 }, [])
  unfolding set_value
  set_value_same k v t e = rw e refl

  pub set_value-changes :
      (k : K) (v : V) (t : EventTrigger S K V H)
      → IsReady t
      → set_value eq same storage k v t
        ≡ some (
          record t { info_data = (storage.set k v t.info_data).1 },
          all_calls same
              (ops_of eq k t.trigger_map)
              (changes same d (laws.view k t.info_data) (v ∷ [])),
        )
  unfolding changes all_calls
  set_value-changes k v t h =
      let s = t.info_data in
      let m = t.trigger_map in
      elim (Option-cases (laws.view k s)) [
        | inl e ↦
            rw (e, append-nil (calls_for same (ops_of eq k m) (d, v)))
              (set_value_changed k d v t h (laws.set_new k v s e))
        | inr (u, e) ↦ elim (Bool-cases (same u v)) [
          | inl q ↦ rw (e, q) (set_value_same k v t (laws.set_same k u v s e q))
          | inr q ↦
              rw (e, q, append-nil (calls_for same (ops_of eq k m) (u, v)))
                (set_value_changed k u v t h (laws.set_other k u v s e q))
        ]
      ]

  module _ (refl_key : (x : K) → eq x x ≡ true)
      (sound_value : (x y : V) → same x y ≡ true → x ≡ y) where
    -- The calls of a sequence of values under a key are those that its triggers make of the changes
    -- in it, in their order: a value equal to the one before makes none.
    pub set_values-changes :
        (k : K) (vs : List V) (t : EventTrigger S K V H)
        → IsReady t
        → Yields (set_values eq same storage k vs t) (λ r.
          r.1
          ≡ all_calls same
              (ops_of eq k t.trigger_map)
              (changes same d (laws.view k t.info_data) vs))
    unfolding changes all_calls
    set_values-changes k [] t h = ((t, []), refl, refl)
    set_values-changes k (v ∷ vs) t h =
        let s' = (storage.set k v t.info_data).1 in
        let ops = ops_of eq k t.trigger_map in
        let o = laws.view k t.info_data in
        let ((t'', more), e, c) = set_values-changes k vs (record t { info_data = s' }) h in
        (
          (t'', all_calls same ops (changes same d o (v ∷ [])) ++ more),
          rw (set_value-changes k v t h, e) refl,
          ap (◌++◌ (all_calls same ops (changes same d o (v ∷ [])))) (
                c
                ∙ ap (λ x. all_calls same ops (changes same d x vs))
                    (laws.view-set k k v t.info_data ∙ rw (refl_key k) refl))
              ∙ sym (
                  all_calls-append same ops (changes same d o (v ∷ []))
                    (changes same d (some v) vs))
              ∙ ap (all_calls same ops) (sym (changes-split same sound_value d o v vs)),
        )
