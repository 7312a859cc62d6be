-- ===== src/Basic/EventTrigger/Ready.antt =====
-- The calls of a trigger in any order: no value is read that a trigger does not have.
use libpeco.Base.{
  Bool, List, [], ◌∷◌, ◌++◌, Option, some, refl, ap, arith, ◌>>=◌, All, All-append, Bool-cases,
  Option-cases, inl, inr, Yields,
}
use libpeco.Basic.EventTrigger.{
  TriggerType, TriggerOperator, EventTrigger, triggers_of, with_triggers, erase_triggers, without,
  set_value, remove_value, add_trigger, add_trigger_changed, add_trigger_from, add_trigger_to,
  add_trigger_except, remove_trigger_if, remove_trigger_type, remove_trigger,
}
use libpeco.Basic.EventTrigger.Memory.{Storage, StorageLaws}
use libpeco.Basic.EventTrigger.Laws.{IsComplete, IsReady, All-triggers_of, set_value-changes}

-- The calls that a user makes, with the triggers in their named forms.
pub data Operation (K V H : Type 0) : Type 0 where
  set_at : K → V → Operation K V H
  remove_at : K → Operation K V H
  on_changed : K → H → Operation K V H
  on_from : K → V → H → Operation K V H
  on_to : K → V → H → Operation K V H
  on_except : K → H → List V → Operation K V H
  off_if : K → (TriggerOperator V H → Bool) → Operation K V H
  off_type : K → TriggerType → Operation K V H
  off_key : K → Operation K V H

module _ {K V H : Type 0} (eq : K → K → Bool) where
  All-with_triggers :
      (k : K) (ops : List (TriggerOperator V H)) (m : List (K × List (TriggerOperator V H)))
      → All IsComplete ops
      → All (λ e. All IsComplete e.1) m
      → All (λ e. All IsComplete e.1) (with_triggers eq k ops m)
  unfolding with_triggers
  All-with_triggers k ops [] h hs = tt
  All-with_triggers k ops ((j, os) ∷ m) h (g, hs) = elim (Bool-cases (eq j k)) [
    | inl e ↦ rw e (h, hs)
    | inr e ↦ rw e (g, All-with_triggers k ops m h hs)
  ]

  All-erase_triggers :
      (k : K) (m : List (K × List (TriggerOperator V H)))
      → All (λ e. All IsComplete e.1) m
      → All (λ e. All IsComplete e.1) (erase_triggers eq k m)
  unfolding erase_triggers
  All-erase_triggers k [] hs = tt
  All-erase_triggers k ((j, os) ∷ m) (g, hs) = elim (Bool-cases (eq j k)) [
    | inl e ↦ rw e (All-erase_triggers k m hs)
    | inr e ↦ rw e (g, All-erase_triggers k m hs)
  ]

module _ {V H : Type 0} where
  All-without :
      (pred : TriggerOperator V H → Bool) (ops : List (TriggerOperator V H))
      → All IsComplete ops
      → All IsComplete (without pred ops)
  unfolding without
  All-without pred [] h = tt
  All-without pred (op ∷ ops) (g, h) = elim (Bool-cases (pred op)) [
    | inl e ↦ rw e (All-without pred ops h)
    | inr e ↦ rw e (g, All-without pred ops h)
  ]

module _ {S K V H : Type 0} (eq : K → K → Bool) (same : V → V → Bool)
    (storage : Storage S K V) where
  unfoldable pub step : Operation K V H → EventTrigger S K V H → Option (EventTrigger S K V H)
  unfolding set_value add_trigger_changed add_trigger_from add_trigger_to add_trigger_except
  step (set_at k v) t = set_value eq same storage k v t >>= λ r. some r.0
  step (remove_at k) t = some (remove_value eq same storage k t)
  step (on_changed k h) t = some (add_trigger_changed eq same storage k h t)
  step (on_from k v h) t = some (add_trigger_from eq same storage k v h t)
  step (on_to k v h) t = some (add_trigger_to eq same storage k v h t)
  step (on_except k h vs) t = some (add_trigger_except eq same storage k h vs t)
  step (off_if k pred) t = some (remove_trigger_if eq same storage k pred t)
  step (off_type k type) t = some (remove_trigger_type eq same storage k type t)
  step (off_key k) t = some (remove_trigger eq same storage k t)

  unfoldable pub run : List (Operation K V H) → EventTrigger S K V H → Option (EventTrigger S K V H)
  unfolding step
  run [] t = some t
  run (o ∷ os) t = step o t >>= λ t'. run os t'

  add_trigger-IsReady :
      (k : K) (op : TriggerOperator V H) (t : EventTrigger S K V H)
      → IsComplete op
      → IsReady t
      → IsReady (add_trigger eq same storage k op t)
  unfolding add_trigger
  add_trigger-IsReady k op t c h = elim (Option-cases (triggers_of eq k t.trigger_map)) [
    | inl e ↦ rw (e, add_trigger) ((c, tt), h)
    | inr (ops, e) ↦
        rw (e, add_trigger)
          (All-with_triggers eq k (ops ++ op ∷ []) t.trigger_map
            (All-append IsComplete ops (op ∷ []) (All-triggers_of eq k ops t.trigger_map h e)
              (c, tt))
            h)
  ]

  remove_trigger_if-IsReady :
      (k : K) (pred : TriggerOperator V H → Bool) (t : EventTrigger S K V H)
      → IsReady t
      → IsReady (remove_trigger_if eq same storage k pred t)
  unfolding remove_trigger_if
  remove_trigger_if-IsReady k pred t h = elim (Option-cases (triggers_of eq k t.trigger_map)) [
    | inl e ↦ rw (e, remove_trigger_if) h
    | inr (ops, e) ↦
        rw (e, remove_trigger_if)
          (All-with_triggers eq k (without pred ops) t.trigger_map
            (All-without pred ops (All-triggers_of eq k ops t.trigger_map h e)) h)
  ]

  module _ (d : V) (laws : StorageLaws eq same d storage) where
    step-IsReady :
        (o : Operation K V H) (t : EventTrigger S K V H) → IsReady t → Yields (step o t) IsReady
    unfolding step add_trigger_changed add_trigger_from add_trigger_to add_trigger_except
        remove_trigger_type remove_trigger
    step-IsReady (set_at k v) t h =
        (_, ap (λ r. r >>= λ p. some p.0) (set_value-changes eq same d storage laws k v t h), h)
    step-IsReady (remove_at k) t h = (_, refl, h)
    step-IsReady (on_changed k g) t h = (_, refl, add_trigger-IsReady k _ t (omega arith) h)
    step-IsReady (on_from k v g) t h = (_, refl, add_trigger-IsReady k _ t (omega arith) h)
    step-IsReady (on_to k v g) t h = (_, refl, add_trigger-IsReady k _ t (omega arith) h)
    step-IsReady (on_except k g vs) t h = (_, refl, add_trigger-IsReady k _ t (omega arith) h)
    step-IsReady (off_if k pred) t h = (_, refl, remove_trigger_if-IsReady k pred t h)
    step-IsReady (off_type k type) t h = (_, refl, remove_trigger_if-IsReady k _ t h)
    step-IsReady (off_key k) t h = (_, refl, All-erase_triggers eq k t.trigger_map h)

    -- From a trigger whose triggers have the values that are read, any calls in any order, the
    -- adding forms with their values among them, succeed and lead to such a trigger again.
    pub run-IsReady :
        (os : List (Operation K V H)) (t : EventTrigger S K V H)
        → IsReady t
        → Yields (run os t) IsReady
    unfolding run
    run-IsReady [] t h = (t, refl, h)
    run-IsReady (o ∷ os) t h =
        let (t', e, r) = step-IsReady o t h in
        let (t'', e', r') = run-IsReady os t' r in (t'', rw e e', r')
