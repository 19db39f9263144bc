-- ===== src/RunStates/Counts.antt =====
-- The counters of internal/webcrawler/runstates count what the hash of tasks holds, whatever calls
-- the nodes make and in whatever order.
use project_arachne.Prelude.{
  ℕ, suc, ◌+◌, ◌≡◌, refl, sym, subst, ◌⊎◌, inl, inr, List, [], ◌∷◌, Option, none, some, ◌==◌,
  ==_iff, list_eq, nat_eq, lookup, insert, delete, length, Text, arith, KeysDistinct,
  insert-KeysDistinct, delete-KeysDistinct, delete_absent, Bool-cases, Option-cases,
}
use project_arachne.RunStates.{
  pos, incr, decr, at_least, Status, queued, finished, RunKeys, Store, no_keys, set_run,
  holds_lease, renew, acquire_run_slot, release_run_slot, admit_task, unadmit_task, task_state,
  completed, complete_task, cleanup_run, Call, acquires, releases, admits, unadmits, asks,
  completes, cleans, expires, step, run_calls, empty_store,
}

-- The tasks that are admitted and not finished.
unfoldable pub queued_count : List (Text × Status) → ℕ
queued_count [] = 0
queued_count ((k, queued) ∷ m) = suc (queued_count m)
queued_count ((k, finished) ∷ m) = queued_count m

-- The counters of a run are what its hash says, and no task is in the hash twice.
pub record IsCounted (keys : RunKeys) : Type 0 where
  pub distinct : KeysDistinct keys.tasks
  pub active : keys.active_tasks ≡ pos (queued_count keys.tasks)
  pub links : keys.current_links ≡ pos (length keys.tasks)

abbrev pub AllCounted : Store → Type 0
AllCounted s = (run : Text) → IsCounted (s.runs run)

insert_new :
    (k : Text) (m : List (Text × Status))
    → lookup k m ≡ none
    → (queued_count (insert k queued m) ≡ suc (queued_count m))
      × (length (insert k queued m) ≡ suc (length m))
unfolding queued_count insert lookup
insert_new k [] h = (refl, refl)
insert_new k ((j, queued) ∷ m) h = ground (arith, insert_new k m)
insert_new k ((j, finished) ∷ m) h = ground (arith, insert_new k m)

pub insert_finished :
    (k : Text) (m : List (Text × Status))
    → lookup k m ≡ some queued
    → (suc (queued_count (insert k finished m)) ≡ queued_count m)
      × (length (insert k finished m) ≡ length m)
unfolding queued_count insert lookup
insert_finished k [] h = cc
insert_finished k ((j, queued) ∷ m) h = ground (arith, insert_finished k m)
insert_finished k ((j, finished) ∷ m) h = ground (arith, insert_finished k m)

delete_queued :
    (k : Text) (m : List (Text × Status))
    → KeysDistinct m
    → lookup k m ≡ some queued
    → (suc (queued_count (delete k m)) ≡ queued_count m) × (suc (length (delete k m)) ≡ length m)
unfolding queued_count delete lookup
delete_queued k [] d h = cc
delete_queued k ((j, queued) ∷ m) d h =
    ground (arith, delete_queued k m d.1, delete_absent j m d.0, ==_iff j k, delete_absent k m)
delete_queued k ((j, finished) ∷ m) d h = ground (arith, delete_queued k m d.1)

set_run_elim :
    (P : RunKeys → Type 0) (run : Text) (keys : RunKeys) (s : Store)
    → P keys
    → ((r : Text) → P (s.runs r))
    → (r : Text) → P ((set_run run keys s).runs r)
set_run_elim P run keys s new old r = elim (Bool-cases (run == r)) [
  | inl hit ↦ rw hit new
  | inr miss ↦ rw miss (old r)
]

no_keys-IsCounted : IsCounted no_keys
unfolding queued_count
no_keys-IsCounted = record { distinct = tt; active = refl; links = refl }

pub renew-runs : (run : Text) (expiry : ℕ) (s : Store) → (renew run expiry s).runs ≡ s.runs
unfolding renew
renew-runs run expiry s = elim (Option-cases (lookup run s.slots)) [
  | inl e ↦ rw (e, renew)
  | inr (v, e) ↦ rw (e, renew)
]

admitted-IsCounted :
    (task : Text) (keys : RunKeys)
    → lookup task keys.tasks ≡ none
    → IsCounted keys
    → IsCounted (record {
      tasks = insert task queued keys.tasks;
      active_tasks = incr keys.active_tasks;
      current_links = incr keys.current_links;
    })
admitted-IsCounted task keys new v =
    let grown = insert_new task keys.tasks new in
    record {
      distinct = insert-KeysDistinct task queued keys.tasks v.distinct;
      active = rw (v.active, grown.0) refl;
      links = rw (v.links, grown.1) refl;
    }

unadmitted-IsCounted :
    (task : Text) (keys : RunKeys)
    → lookup task keys.tasks ≡ some queued
    → IsCounted keys
    → IsCounted (record {
      tasks = delete task keys.tasks;
      active_tasks = decr keys.active_tasks;
      current_links = decr keys.current_links;
    })
unadmitted-IsCounted task keys there v =
    let shrunk = delete_queued task keys.tasks v.distinct there in
    record {
      distinct = delete-KeysDistinct task keys.tasks v.distinct;
      active = rw (v.active, ← shrunk.0) refl;
      links = rw (v.links, ← shrunk.1) refl;
    }

completed-IsCounted :
    (task : Text) (keys : RunKeys)
    → lookup task keys.tasks ≡ some queued
    → IsCounted keys
    → IsCounted (record keys {
      tasks = insert task finished keys.tasks;
      active_tasks = decr keys.active_tasks;
    })
completed-IsCounted task keys there v =
    let moved = insert_finished task keys.tasks there in
    record {
      distinct = insert-KeysDistinct task finished keys.tasks v.distinct;
      active = rw (v.active, ← moved.0) refl;
      links = rw (v.links, moved.1) refl;
    }

admit_task-AllCounted :
    (run task : Text) (max_links now : ℕ) (s : Store)
    → AllCounted s
    → AllCounted (admit_task run task max_links now s).1
unfolding admit_task
admit_task-AllCounted run task max_links now s v = elim (Bool-cases (holds_lease run now s)) [
  | inr gone ↦ rw gone v
  | inl held ↦ rw held (elim (Option-cases (lookup task (s.runs run).tasks)) [
    | inr (old, e) ↦ rw (e, admit_task) v
    | inl e ↦
        rw (e, admit_task)
          (elim (Bool-cases (at_least max_links (s.runs run).current_links)) [
            | inl full ↦ rw full v
            | inr room ↦
                rw room (
                  set_run_elim IsCounted run _ s (admitted-IsCounted task (s.runs run) e (v run)) v)
          ])
  ])
]

Status-cases : (o : Option Status) → (o ≡ some queued) ⊎ ((o ≡ none) ⊎ (o ≡ some finished))
Status-cases none = inr (inl refl)
Status-cases (some queued) = inl refl
Status-cases (some finished) = inr (inr refl)

unadmit_task-AllCounted :
    (run task : Text) (s : Store) → AllCounted s → AllCounted (unadmit_task run task s)
unfolding unadmit_task
unadmit_task-AllCounted run task s v = elim (Status-cases (lookup task (s.runs run).tasks)) [
  | inl e ↦
      rw (e, unadmit_task)
        (set_run_elim IsCounted run _ s (unadmitted-IsCounted task (s.runs run) e (v run)) v)
  | inr (inl e) ↦ rw (e, unadmit_task) v
  | inr (inr e) ↦ rw (e, unadmit_task) v
]

completed-AllCounted :
    (run task : Text) (lease now : ℕ) (s : Store)
    → lookup task (s.runs run).tasks ≡ some queued
    → AllCounted s
    → AllCounted (completed run task lease now s)
unfolding completed
completed-AllCounted run task lease now s e v =
    let keys = s.runs run in
    let keys' : RunKeys = record keys {
      tasks = insert task finished keys.tasks;
      active_tasks = decr keys.active_tasks;
    } in
    let counted : AllCounted (set_run run keys' s) =
      set_run_elim IsCounted run keys' s (completed-IsCounted task keys e (v run)) v in
    elim (Bool-cases (holds_lease run now (set_run run keys' s))) [
      | inl held ↦ rw held (
          subst (λ (f : Text → RunKeys). (r : Text) → IsCounted (f r))
            (sym (renew-runs run (now + lease) (set_run run keys' s))) counted)
      | inr gone ↦ rw gone counted
    ]

complete_task-AllCounted :
    (run task : Text) (lease now : ℕ) (s : Store)
    → AllCounted s
    → AllCounted (complete_task run task lease now s).2
unfolding complete_task
complete_task-AllCounted run task lease now s v =
    elim (Status-cases (lookup task (s.runs run).tasks)) [
      | inl e ↦ rw (e, complete_task) (completed-AllCounted run task lease now s e v)
      | inr (inl e) ↦ rw (e, complete_task) v
      | inr (inr e) ↦ rw (e, complete_task) v
    ]

task_state-AllCounted :
    (run task : Text) (lease now : ℕ) (s : Store)
    → AllCounted s
    → AllCounted (task_state run task lease now s).1
unfolding task_state
task_state-AllCounted run task lease now s v = elim (Bool-cases (holds_lease run now s)) [
  | inl held ↦ rw held (
      subst (λ (f : Text → RunKeys). (r : Text) → IsCounted (f r))
        (sym (renew-runs run (now + lease) s)) v)
  | inr gone ↦ rw gone v
]

acquire_run_slot-runs :
    (run : Text) (max_concurrent lease now : ℕ) (s : Store)
    → (acquire_run_slot run max_concurrent lease now s).2.runs ≡ s.runs
unfolding acquire_run_slot
acquire_run_slot-runs run max_concurrent lease now s = ground arith

pub step-AllCounted : (c : Call) (now : ℕ) (s : Store) → AllCounted s → AllCounted (step c now s)
unfolding step
step-AllCounted (acquires run max_concurrent lease) now s v =
    subst (λ (f : Text → RunKeys). (r : Text) → IsCounted (f r))
      (sym (acquire_run_slot-runs run max_concurrent lease now s)) v
step-AllCounted (releases run) now s v = unfold release_run_slot in v
step-AllCounted (admits run task max_links) now s v =
    admit_task-AllCounted run task max_links now s v
step-AllCounted (unadmits run task) now s v = unadmit_task-AllCounted run task s v
step-AllCounted (asks run task lease) now s v = task_state-AllCounted run task lease now s v
step-AllCounted (completes run task lease) now s v = complete_task-AllCounted run task lease now s v
step-AllCounted (cleans run) now s v =
    unfold cleanup_run in set_run_elim IsCounted run no_keys s no_keys-IsCounted v
step-AllCounted (expires run) now s v = set_run_elim IsCounted run no_keys s no_keys-IsCounted v

pub run_calls-AllCounted :
    (cs : List (Call × ℕ)) (s : Store) → AllCounted s → AllCounted (run_calls cs s)
unfolding run_calls
run_calls-AllCounted [] s v = v
run_calls-AllCounted ((c, now) ∷ cs) s v = run_calls-AllCounted cs _ (step-AllCounted c now s v)

-- After any calls of any nodes, and any expiry of keys, each run's active-task counter is the
-- number of its tasks that are admitted and not finished, its link counter is the number of its
-- tasks, and no task is counted twice.
pub run_calls-IsCounted :
    (cs : List (Call × ℕ)) (run : Text) → IsCounted ((run_calls cs empty_store).runs run)
run_calls-IsCounted cs run =
    run_calls-AllCounted cs empty_store (unfold empty_store in λ r. no_keys-IsCounted) run
