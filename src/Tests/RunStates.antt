-- ===== src/Tests/RunStates.antt =====
-- Examples for the run states of internal/webcrawler/runstates.
use project_arachne.Prelude.{
  ℕ, ◌≡◌, ◌≤◌, refl, List, [], ◌∷◌, length, Text, codes, false, lookup, KeysDistinct, list_eq,
  nat_eq,
}
use project_arachne.RunStates.{
  pos, queued, Store, no_keys, holds_lease, admit_task, unadmit_task, complete_task, Call, acquires,
  admits, completes, run_calls, empty_store,
}
use project_arachne.RunStates.Counts.{IsCounted, queued_count, run_calls-IsCounted}
use project_arachne.RunStates.Slots.{run_calls-slots}
use project_arachne.RunStates.Once.{unadmit_task-admit_task, complete_task_twice}

abbrev run_a : Text
run_a = codes "a"

abbrev task_1 : Text
task_1 = codes "1"

abbrev task_2 : Text
task_2 = codes "2"

-- A run with its slot and two tasks, of which one is completed.
abbrev calls : List (Call × ℕ)
calls =
    (acquires run_a 2 1000, 0)
    ∷ (admits run_a task_1 10, 1)
    ∷ (admits run_a task_2 10, 2)
    ∷ (completes run_a task_1 1000, 3)
    ∷ []

run_calls-IsCounted_example : IsCounted ((run_calls calls empty_store).runs run_a)
run_calls-IsCounted_example = run_calls-IsCounted calls run_a

run_calls-slots_example :
    KeysDistinct (run_calls calls empty_store).slots
    × (length (run_calls calls empty_store).slots ≤ 2)
run_calls-slots_example = run_calls-slots 2 calls (refl, (tt, (tt, (tt, tt))))

-- One live slot, of the run a, until time 1000.
abbrev one_slot : Store
one_slot = record { slots = (run_a, 1000) ∷ []; runs = λ _. no_keys }

unadmit_task-admit_task_example :
    (unadmit_task run_a task_1 (admit_task run_a task_1 10 10 one_slot).1).runs run_a ≡ no_keys
unfolding admit_task holds_lease lookup
unadmit_task-admit_task_example = unadmit_task-admit_task run_a task_1 10 10 one_slot run_a refl

-- One task of the run is queued, one is done.
abbrev half_done : Store
half_done = record one_slot {
  runs = λ _. record {
    tasks = (task_1, queued) ∷ (task_2, queued) ∷ [];
    active_tasks = pos 2;
    current_links = pos 2;
  };
}

half_done-IsCounted : IsCounted (half_done.runs run_a)
unfolding queued_count lookup
half_done-IsCounted = record { distinct = (refl, (refl, tt)); active = refl; links = refl }

complete_task_twice_example :
    complete_task run_a task_1 50 12 (complete_task run_a task_1 50 11 half_done).2
    ≡ (pos 0, false, (complete_task run_a task_1 50 11 half_done).2)
unfolding complete_task lookup
complete_task_twice_example = complete_task_twice run_a task_1 50 50 11 12 half_done refl
