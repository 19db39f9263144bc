-- ===== src/RunStates/Slots.antt =====
-- The slots of internal/webcrawler/runstates: how many runs hold one, and for how long.
use project_arachne.Prelude.{
  ℕ, ◌+◌, ◌≤◌, ◌<◌, ◌≡◌, ◌≢◌, refl, sym, subst, ◌↔◌, ◌⊎◌, inl, inr, List, [], ◌∷◌, true, none, some,
  ltb, if◌then◌else◌, ==_iff, ==_refl, list_eq, nat_eq, lookup, insert, length, Text, arith,
  KeysDistinct, All, insert-KeysDistinct, delete-KeysDistinct, lookup-insert, length-insert,
  length-delete, Bool-cases,
}
use project_arachne.RunStates.{
  decr, finished, Store, set_run, holds_lease, renew, acquire_run_slot, release_run_slot,
  admit_task, unadmit_task, task_state, completed, complete_task, live, has_key, cleanup_run, Call,
  acquires, releases, admits, unadmits, asks, completes, cleans, expires, step, run_calls,
  empty_store,
}

lookup-live :
    (now : ℕ) (run : Text) (slots : List (Text × ℕ))
    → KeysDistinct slots
    → lookup run (live now slots) ≡ (elim (lookup run slots) [
      | none ↦ none
      | some expiry ↦ if ltb now expiry then some expiry else none
    ])
unfolding lookup
lookup-live now run [] d = refl
lookup-live now run ((r, expiry) ∷ slots) d =
    ground (arith, lookup-live now run slots d.1, ==_iff r run)

live-KeysDistinct :
    (now : ℕ) (slots : List (Text × ℕ)) → KeysDistinct slots → KeysDistinct (live now slots)
live-KeysDistinct now [] d = tt
live-KeysDistinct now ((r, expiry) ∷ slots) d =
    ground (arith, live-KeysDistinct now slots d.1, lookup-live now r slots d.1)

length-live : (now : ℕ) (slots : List (Text × ℕ)) → length (live now slots) ≤ length slots
length-live now [] = omega arith
length-live now ((r, expiry) ∷ slots) = ground (arith, length-live now slots)

-- The invariant of the sorted set, with the limit that every node passes.
pub record SlotsOk (max_concurrent : ℕ) (slots : List (Text × ℕ)) : Type 0 where
  pub distinct : KeysDistinct slots
  pub within : length slots ≤ max_concurrent

acquire_run_slot-SlotsOk :
    (run : Text) (m lease now : ℕ) (s : Store)
    → SlotsOk m s.slots
    → SlotsOk m (acquire_run_slot run m lease now s).2.slots
unfolding acquire_run_slot
acquire_run_slot-SlotsOk run m lease now s v =
    let kept = live now s.slots in
    ground (
      arith,
      live-KeysDistinct now s.slots v.distinct,
      length-live now s.slots,
      length-insert run (now + lease) kept,
      insert-KeysDistinct run (now + lease) kept,
    )

renew-SlotsOk :
    (m : ℕ) (run : Text) (expiry : ℕ) (s : Store)
    → SlotsOk m s.slots
    → SlotsOk m (renew run expiry s).slots
unfolding renew
renew-SlotsOk m run expiry s v =
    ground
      (arith, length-insert run expiry s.slots, insert-KeysDistinct run expiry s.slots v.distinct)

admit_task-slots :
    (run task : Text) (max_links now : ℕ) (s : Store)
    → (admit_task run task max_links now s).1.slots ≡ s.slots
unfolding admit_task
admit_task-slots run task max_links now s = ground arith

unadmit_task-slots : (run task : Text) (s : Store) → (unadmit_task run task s).slots ≡ s.slots
unfolding unadmit_task
unadmit_task-slots run task s = ground arith

task_state-SlotsOk :
    (m : ℕ) (run task : Text) (lease now : ℕ) (s : Store)
    → SlotsOk m s.slots
    → SlotsOk m (task_state run task lease now s).1.slots
unfolding task_state
task_state-SlotsOk m run task lease now s v = ground (arith, renew-SlotsOk m run (now + lease) s v)

completed-SlotsOk :
    (m : ℕ) (run task : Text) (lease now : ℕ) (s : Store)
    → SlotsOk m s.slots
    → SlotsOk m (completed run task lease now s).slots
unfolding completed
completed-SlotsOk m run task lease now s v = elim (Bool-cases (holds_lease run now s')) [
  | inl held ↦ rw held (renew-SlotsOk m run (now + lease) s' v)
  | inr gone ↦ rw gone v
]
  where
    s' : Store
    s' =
        set_run run
          (record (s.runs run) {
            tasks = insert task finished (s.runs run).tasks;
            active_tasks = decr (s.runs run).active_tasks;
          })
          s

complete_task-SlotsOk :
    (m : ℕ) (run task : Text) (lease now : ℕ) (s : Store)
    → SlotsOk m s.slots
    → SlotsOk m (complete_task run task lease now s).2.slots
unfolding complete_task
complete_task-SlotsOk m run task lease now s v =
    ground (arith, completed-SlotsOk m run task lease now s v)

-- Every call acquires with this limit.
abbrev pub WithLimit : ℕ → Call → Type 0
WithLimit m (acquires run max_concurrent lease) = max_concurrent ≡ m
WithLimit m _ = Unit {0}

step-SlotsOk :
    (m : ℕ) (c : Call) (now : ℕ) (s : Store)
    → WithLimit m c
    → SlotsOk m s.slots
    → SlotsOk m (step c now s).slots
unfolding step
step-SlotsOk m (acquires run max_concurrent lease) now s e v =
    subst (λ k. SlotsOk m (acquire_run_slot run k lease now s).2.slots) (sym e)
      (acquire_run_slot-SlotsOk run m lease now s v)
step-SlotsOk m (releases run) now s e v =
    unfold release_run_slot in
    record {
      distinct = delete-KeysDistinct run s.slots v.distinct;
      within = omega (arith, v.within, length-delete run s.slots);
    }
step-SlotsOk m (admits run task max_links) now s e v =
    subst (SlotsOk m) (sym (admit_task-slots run task max_links now s)) v
step-SlotsOk m (unadmits run task) now s e v =
    subst (SlotsOk m) (sym (unadmit_task-slots run task s)) v
step-SlotsOk m (asks run task lease) now s e v = task_state-SlotsOk m run task lease now s v
step-SlotsOk m (completes run task lease) now s e v = complete_task-SlotsOk m run task lease now s v
step-SlotsOk m (cleans run) now s e v = unfold cleanup_run in v
step-SlotsOk m (expires run) now s e v = v

run_calls-SlotsOk :
    (m : ℕ) (cs : List (Call × ℕ)) (s : Store)
    → All (λ c. WithLimit m c.0) cs
    → SlotsOk m s.slots
    → SlotsOk m (run_calls cs s).slots
unfolding run_calls
run_calls-SlotsOk m [] s e v = v
run_calls-SlotsOk m ((c, now) ∷ cs) s e v =
    run_calls-SlotsOk m cs (step c now s) e.1 (step-SlotsOk m c now s e.0 v)

-- If every node passes the same limit, then after any calls at most that many runs hold a slot,
-- and no run holds two.
pub run_calls-slots :
    (m : ℕ) (cs : List (Call × ℕ))
    → All (λ c. WithLimit m c.0) cs
    → KeysDistinct (run_calls cs empty_store).slots × (length (run_calls cs empty_store).slots ≤ m)
run_calls-slots m cs e =
    let v =
      run_calls-SlotsOk m cs empty_store e
        (unfold empty_store in record { distinct = tt; within = omega arith }) in
    (v.distinct, v.within)

has_key-live :
    (run : Text) (now : ℕ) (s : Store)
    → KeysDistinct s.slots
    → has_key run (live now s.slots) ≡ holds_lease run now s
unfolding holds_lease
has_key-live run now s d = ground (arith, lookup-live now run s.slots d)

-- A slot is given exactly when the run already holds one, or fewer live slots than the limit are
-- held; whoever gets it holds its lease until it ends, and nobody else's live lease is touched.
pub acquire_run_slot_lem :
    (run : Text) (m lease now : ℕ) (s : Store)
    → KeysDistinct s.slots
    → (((acquire_run_slot run m lease now s).0 ≡ true)
        ↔ ((holds_lease run now s ≡ true) ⊎ (length (live now s.slots) < m)))
      × ((later : ℕ)
          → (acquire_run_slot run m lease now s).0 ≡ true
          → later < now + lease
          → holds_lease run later (acquire_run_slot run m lease now s).2 ≡ true)
      × ((other : Text) (later : ℕ)
          → run ≢ other
          → now ≤ later
          → holds_lease other later (acquire_run_slot run m lease now s).2
            ≡ holds_lease other later s)
unfolding acquire_run_slot
acquire_run_slot_lem run m lease now s d = (
  ground (arith, has_key-live run now s d),
  λ later won before.
      unfold holds_lease in
      ground (arith, lookup-insert run run (now + lease) (live now s.slots), ==_refl run),
  λ other later ne after.
      unfold holds_lease in
      ground (
        arith,
        lookup-insert run other (now + lease) (live now s.slots),
        ==_iff run other,
        lookup-live now other s.slots d,
      ),
)
