-- ===== src/Basic/EventTrigger/Tests.antt =====
-- A trigger over the storage in memory, with numbers as keys, values and handlers.
use libpeco.Base.{ℕ, ◌==◌, ==→eq, ==_self, List, [], ◌∷◌, ◌≡◌, Yields, arith}
use libpeco.Basic.EventTrigger.{EventTrigger, changed, changed_to, changed_special, triggers_of}
use libpeco.Basic.EventTrigger.Memory.{memory_storage, memory_storage_laws, find_value}
use libpeco.Basic.EventTrigger.Laws.{
  IsReady, changes, calls_for, all_calls, is_wanted, ops_of, set_values, set_values-changes,
}
use libpeco.Basic.EventTrigger.Ready.{
  Operation, set_at, on_to, off_if, on_except, remove_at, run, run-IsReady,
}

-- Under the key 7, handler 1 is for every change, 2 for a change to 5, 3 for one from 5 to 6.
abbrev seven : EventTrigger (List (ℕ × ℕ)) ℕ ℕ ℕ
seven = record {
  info_data = [];
  trigger_map =
      (
        7,
        record { type = changed; values = []; handler = 1 }
            ∷ record { type = changed_to; values = 5 ∷ []; handler = 2 }
            ∷ record { type = changed_special; values = 5 ∷ 6 ∷ []; handler = 3 }
            ∷ [],
      )
      ∷ [];
}

seven-IsReady : IsReady seven
seven-IsReady = ((omega arith, (omega arith, (omega arith, tt))), tt)

set_values-changes_example :
    Yields
      (set_values ◌==◌ ◌==◌ (memory_storage ◌==◌ ◌==◌ 0) 7 (5 ∷ 5 ∷ 6 ∷ []) seven)
      (λ r. r.1 ≡ (1, 0, 5) ∷ (2, 0, 5) ∷ (1, 5, 6) ∷ (3, 5, 6) ∷ [])
unfolding changes calls_for all_calls is_wanted ops_of triggers_of find_value memory_storage_laws
set_values-changes_example =
    set_values-changes ◌==◌ ◌==◌ 0 (memory_storage ◌==◌ ◌==◌ 0)
      (memory_storage_laws ◌==◌ ◌==◌ 0 ==→eq ==_self ==→eq) ==_self ==→eq 7 (5 ∷ 5 ∷ 6 ∷ []) seven
      seven-IsReady

abbrev calls : List (Operation ℕ ℕ ℕ)
calls =
    on_to 8 3 4
    ∷ set_at 8 3
    ∷ on_except 7 5 (1 ∷ 2 ∷ [])
    ∷ set_at 7 5
    ∷ remove_at 7
    ∷ off_if 7 (λ op. op.handler == 1)
    ∷ set_at 7 6
    ∷ []

run-IsReady_example : Yields (run ◌==◌ ◌==◌ (memory_storage ◌==◌ ◌==◌ 0) calls seven) IsReady
run-IsReady_example =
    run-IsReady ◌==◌ ◌==◌ (memory_storage ◌==◌ ◌==◌ 0) 0
      (memory_storage_laws ◌==◌ ◌==◌ 0 ==→eq ==_self ==→eq) calls seven seven-IsReady
