-- ===== src/Basic/EventTrigger.antt =====
-- The class templates of src/basic/eventtrigger.h: a storage of values by key, and the triggers on
-- the keys. The trigger takes any storage; what it asks of one is the record Storage, and
-- et_memory_storage is its instance. A handler is a value of any type: a call is noted with the old
-- and the new value, in order, and what the handler does is left out. `none` stands for reading a
-- value of a trigger that has too few.
pub mod Memory
pub mod Laws
pub mod Ready
mod Tests
use libpeco.Base.{
  Bool, true, false, not, ◌&&◌, List, [], ◌∷◌, ◌++◌, Option, none, some, get_elem?, if◌then◌else◌,
  ◌>>=◌,
}
use libpeco.Basic.EventTrigger.Memory.{Storage, store_value}

pub data TriggerType : Type 0 where
  changed changed_to changed_from changed_except changed_special : TriggerType

-- The comparison of the lambda in remove_trigger.
abbrev pub same_type : TriggerType → TriggerType → Bool
same_type changed changed = true
same_type changed_to changed_to = true
same_type changed_from changed_from = true
same_type changed_except changed_except = true
same_type changed_special changed_special = true
same_type _ _ = false

pub record TriggerOperator (V H : Type 0) : Type 0 where
  pub type : TriggerType
  pub values : List V
  pub handler : H

pub record EventTrigger (S K V H : Type 0) : Type 0 where
  pub info_data : S
  pub trigger_map : List (K × List (TriggerOperator V H))

module _ {V : Type 0} (eq : V → V → Bool) where
  -- std::find in the values.
  unfoldable pub is_among : V → List V → Bool
  is_among v [] = false
  is_among v (u ∷ us) = if eq u v then true else is_among v us

module _ {V H : Type 0} where
  -- The loop of remove_trigger.
  unfoldable pub without :
      (TriggerOperator V H → Bool) → List (TriggerOperator V H) → List (TriggerOperator V H)
  without pred [] = []
  without pred (op ∷ ops) = if pred op then without pred ops else op ∷ without pred ops

module _ {V H : Type 0} (eq : V → V → Bool) where
  -- The switch in the loop: whether the handler is called.
  unfoldable pub is_called : TriggerOperator V H → V → V → Option Bool
  unfolding is_among
  is_called op old v = elim op.type [
    | changed ↦ some true
    | changed_to ↦ get_elem? op.values 0 >>= λ u. some (eq v u)
    | changed_from ↦ get_elem? op.values 0 >>= λ u. some (eq old u)
    | changed_except ↦ some (not (is_among eq v op.values))
    | changed_special ↦ get_elem? op.values 0 >>= λ u.
        if eq u old then (get_elem? op.values 1 >>= λ w. some (eq w v)) else some false
  ]

  -- The loop over the triggers of a key.
  unfoldable pub run_triggers : List (TriggerOperator V H) → V → V → Option (List (H × V × V))
  unfolding is_called
  run_triggers [] old v = some []
  run_triggers (op ∷ ops) old v = do
    b ← is_called op old v
    calls ← run_triggers ops old v
    some (if b then (op.handler, old, v) ∷ calls else calls)

module _ {K V H : Type 0} (eq : K → K → Bool) where
  unfoldable pub triggers_of :
      K → List (K × List (TriggerOperator V H)) → Option (List (TriggerOperator V H))
  triggers_of k [] = none
  triggers_of k ((j, ops) ∷ m) = if eq j k then some ops else triggers_of k m

  -- The entry of a key with other triggers, if there is one.
  unfoldable pub with_triggers :
      K
      → List (TriggerOperator V H)
      → List (K × List (TriggerOperator V H))
      → List (K × List (TriggerOperator V H))
  with_triggers k ops [] = []
  with_triggers k ops ((j, os) ∷ m) =
      if eq j k then (j, ops) ∷ m else (j, os) ∷ with_triggers k ops m

  unfoldable pub erase_triggers :
      K → List (K × List (TriggerOperator V H)) → List (K × List (TriggerOperator V H))
  erase_triggers k [] = []
  erase_triggers k ((j, os) ∷ m) =
      if eq j k then erase_triggers k m else (j, os) ∷ erase_triggers k m

module _ {S K V H : Type 0} (eq : K → K → Bool) (same : V → V → Bool)
    (storage : Storage S K V) where
  unfoldable pub set_value :
      K → V → EventTrigger S K V H → Option (EventTrigger S K V H × List (H × V × V))
  unfolding run_triggers triggers_of
  set_value k v t =
      let ((is_changed, old), s) = storage.set k v t.info_data in
      let t' = record t { info_data = s } in
      if is_changed
      then elim (triggers_of eq k t.trigger_map) [
        | none ↦ some (t', [])
        | some ops ↦ run_triggers same ops old v >>= λ calls. some (t', calls)
      ]
      else some (t', [])

  abbrev pub remove_value : K → EventTrigger S K V H → EventTrigger S K V H
  remove_value k t = record t { info_data = storage.remove k t.info_data }

  abbrev pub get_value : K → EventTrigger S K V H → V
  get_value k t = storage.get k t.info_data

  abbrev pub has_value : K → EventTrigger S K V H → Bool
  has_value k t = storage.has k t.info_data

  unfoldable pub add_trigger : K → TriggerOperator V H → EventTrigger S K V H → EventTrigger S K V H
  unfolding triggers_of with_triggers
  add_trigger k op t = record t {
    trigger_map = elim (triggers_of eq k t.trigger_map) [
      | none ↦ (k, op ∷ []) ∷ t.trigger_map
      | some ops ↦ with_triggers eq k (ops ++ op ∷ []) t.trigger_map
    ];
  }

  -- The named forms, each with its values.
  unfoldable pub add_trigger_changed : K → H → EventTrigger S K V H → EventTrigger S K V H
  unfolding add_trigger
  add_trigger_changed k h = add_trigger k (record { type = changed; values = []; handler = h })

  unfoldable pub add_trigger_from : K → V → H → EventTrigger S K V H → EventTrigger S K V H
  unfolding add_trigger
  add_trigger_from k from h =
      add_trigger k (record { type = changed_from; values = from ∷ []; handler = h })

  unfoldable pub add_trigger_to : K → V → H → EventTrigger S K V H → EventTrigger S K V H
  unfolding add_trigger
  add_trigger_to k to h =
      add_trigger k (record { type = changed_to; values = to ∷ []; handler = h })

  unfoldable pub add_trigger_except : K → H → List V → EventTrigger S K V H → EventTrigger S K V H
  unfolding add_trigger
  add_trigger_except k h values =
      add_trigger k (record { type = changed_except; values = values; handler = h })

  unfoldable pub remove_trigger_if :
      K → (TriggerOperator V H → Bool) → EventTrigger S K V H → EventTrigger S K V H
  unfolding triggers_of with_triggers without
  remove_trigger_if k pred t = elim (triggers_of eq k t.trigger_map) [
    | none ↦ t
    | some ops ↦ record t { trigger_map = with_triggers eq k (without pred ops) t.trigger_map }
  ]

  unfoldable pub remove_trigger_type : K → TriggerType → EventTrigger S K V H → EventTrigger S K V H
  unfolding remove_trigger_if
  remove_trigger_type k type = remove_trigger_if k (λ op. same_type op.type type)

  unfoldable pub remove_trigger : K → EventTrigger S K V H → EventTrigger S K V H
  unfolding erase_triggers
  remove_trigger k t = record t { trigger_map = erase_triggers eq k t.trigger_map }

module _ {K V : Type 0} (eq : K → K → Bool) where
  -- The loop of search over the entries of the storage, into a map.
  unfoldable pub search_from : (K → V → Bool) → List (K × V) → List (K × V) → List (K × V)
  unfolding store_value
  search_from pred [] r = r
  search_from pred ((k, v) ∷ m) r =
      let next = store_value eq k v r in
      if pred k v then search_from pred m next else search_from pred m r

  unfoldable pub search : (K → V → Bool) → List (K × V) → List (K × V)
  unfolding search_from
  search pred m = search_from pred m []
