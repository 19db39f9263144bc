-- ===== src/RunStates.antt =====
-- internal/webcrawler/runstates: the run-state manager. Each method of runstate_redis.go runs one
-- script, which Redis executes atomically: a function on the store, at the time `now` that the
-- script reads from Redis's clock, in milliseconds. Keys are grouped by run, a missing key reads as
-- an empty hash or a zero counter, and counters are integers, as Redis keeps them.
pub mod Counts
pub mod Slots
pub mod Once
use project_arachne.Prelude.{
  ℕ, zero, suc, ◌+◌, List, [], ◌∷◌, map, Bool, true, false, Option, none, some, ltb, leb,
  if◌then◌else◌, ◌||◌, Eq, ◌==◌, list_eq, nat_eq, lookup, insert, delete, length, filter, Text,
}

-- A Redis counter.
pub data Counter : Type 0 where
  pos : ℕ → Counter
  negsuc : ℕ → Counter

abbrev pub incr : Counter → Counter
incr (pos n) = pos (suc n)
incr (negsuc zero) = pos zero
incr (negsuc (suc n)) = negsuc n

abbrev pub decr : Counter → Counter
decr (pos zero) = negsuc zero
decr (pos (suc n)) = pos n
decr (negsuc n) = negsuc (suc n)

abbrev pub at_least : ℕ → Counter → Bool
at_least m (pos n) = leb m n
at_least m (negsuc n) = false

pub data Status : Type 0 where
  queued finished : Status

-- `run:tasks:`, `run:active_tasks:` and `run:current_links:` of one run.
pub record RunKeys : Type 0 where
  pub tasks : List (Text × Status)
  pub active_tasks : Counter
  pub current_links : Counter

-- The sorted set `crawler:run_slots`, each run with the end of its lease, and the keys of each run.
pub record Store : Type 0 where
  pub slots : List (Text × ℕ)
  pub runs : Text → RunKeys

abbrev pub no_keys : RunKeys
no_keys = record { tasks = []; active_tasks = pos 0; current_links = pos 0 }

abbrev pub set_run : Text → RunKeys → Store → Store
set_run run keys s = record s { runs = λ other. if run == other then keys else s.runs other }

pub data Admission : Type 0 where
  admitted duplicate limit_reached run_inactive : Admission

pub record TaskState : Type 0 where
  pub run_active : Bool
  pub is_done : Bool

-- `lease and tonumber(lease) > now`.
unfoldable pub holds_lease : Text → ℕ → Store → Bool
holds_lease run now s = elim (lookup run s.slots) [ none ↦ false | some expiry ↦ ltb now expiry ]

-- `ZADD … XX`: an entry that is there gets the new score.
unfoldable pub renew : Text → ℕ → Store → Store
renew run expiry s = elim (lookup run s.slots) [
  | none ↦ s
  | some _ ↦ record s { slots = insert run expiry s.slots }
]

unfoldable pub status_is_done : Option Status → Bool
status_is_done (some finished) = true
status_is_done (some queued) = false
status_is_done none = false

abbrev pub live : ℕ → List (Text × ℕ) → List (Text × ℕ)
live now = filter (λ e. ltb now e.1)

abbrev pub expired : ℕ → List (Text × ℕ) → List (Text × ℕ)
expired now = filter (λ e. leb e.1 now)

abbrev pub has_key : Text → List (Text × ℕ) → Bool
has_key run slots = elim (lookup run slots) [ none ↦ false | some _ ↦ true ]

-- `AcquireRunSlot`: whether the slot was acquired, the runs that lost theirs, and the store behind it.
unfoldable pub acquire_run_slot : Text → ℕ → ℕ → ℕ → Store → Bool × List Text × Store
acquire_run_slot run max_concurrent lease now s =
    let reaped = map (λ e. e.0) (expired now s.slots) in
    let kept = live now s.slots in
    if has_key run kept || ltb (length kept) max_concurrent
    then (true, reaped, record s { slots = insert run (now + lease) kept })
    else (false, reaped, record s { slots = kept })

unfoldable pub release_run_slot : Text → Store → Store
release_run_slot run s = record s { slots = delete run s.slots }

unfoldable pub admit_task : Text → Text → ℕ → ℕ → Store → Admission × Store
admit_task run task max_links now s =
    let keys = s.runs run in
    if holds_lease run now s
    then elim (lookup task keys.tasks) [
      | some _ ↦ (duplicate, s)
      | none ↦ if at_least max_links keys.current_links then (limit_reached, s) else (
        admitted,
        set_run run
            (record {
              tasks = insert task queued keys.tasks;
              active_tasks = incr keys.active_tasks;
              current_links = incr keys.current_links;
            })
            s,
      )
    ]
    else (run_inactive, s)

unfoldable pub unadmit_task : Text → Text → Store → Store
unadmit_task run task s =
    let keys = s.runs run in
    elim (lookup task keys.tasks) [
      | none ↦ s
      | some finished ↦ s
      | some queued ↦
          set_run run
            (record {
              tasks = delete task keys.tasks;
              active_tasks = decr keys.active_tasks;
              current_links = decr keys.current_links;
            })
            s
    ]

unfoldable pub task_state : Text → Text → ℕ → ℕ → Store → TaskState × Store
unfolding status_is_done
task_state run task lease now s =
    let active = holds_lease run now s in
    (
      record { run_active = active; is_done = status_is_done (lookup task (s.runs run).tasks) },
      if active then renew run (now + lease) s else s,
    )

unfoldable pub completed : Text → Text → ℕ → ℕ → Store → Store
completed run task lease now s =
    let keys = s.runs run in
    let s' =
      set_run run
        (record keys {
          tasks = insert task finished keys.tasks;
          active_tasks = decr keys.active_tasks;
        })
        s in
    if holds_lease run now s' then renew run (now + lease) s' else s'

-- `CompleteTask`: what is left, whether the task was counted, and the store behind it.
unfoldable pub complete_task : Text → Text → ℕ → ℕ → Store → Counter × Bool × Store
unfolding completed
complete_task run task lease now s = elim (lookup task (s.runs run).tasks) [
  | none ↦ (pos 0, false, s)
  | some finished ↦ (pos 0, false, s)
  | some queued ↦ (decr (s.runs run).active_tasks, true, completed run task lease now s)
]

unfoldable pub cleanup_run : Text → Store → Store
cleanup_run run s = set_run run no_keys s

-- The calls that the nodes make, and the end of the keys' time to live: the three keys of a run
-- are given one by one script, so they go together.
pub data Call : Type 0 where
  acquires : Text → ℕ → ℕ → Call
  releases : Text → Call
  admits : Text → Text → ℕ → Call
  unadmits : Text → Text → Call
  asks : Text → Text → ℕ → Call
  completes : Text → Text → ℕ → Call
  cleans : Text → Call
  expires : Text → Call

unfoldable pub step : Call → ℕ → Store → Store
step (acquires run max_concurrent lease) now s = (acquire_run_slot run max_concurrent lease now s).2
step (releases run) now s = release_run_slot run s
step (admits run task max_links) now s = (admit_task run task max_links now s).1
step (unadmits run task) now s = unadmit_task run task s
step (asks run task lease) now s = (task_state run task lease now s).1
step (completes run task lease) now s = (complete_task run task lease now s).2
step (cleans run) now s = cleanup_run run s
step (expires run) now s = set_run run no_keys s

-- A history of calls, each at its time.
unfoldable pub run_calls : List (Call × ℕ) → Store → Store
run_calls [] s = s
run_calls ((c, now) ∷ cs) s = run_calls cs (step c now s)

unfoldable pub empty_store : Store
empty_store = record { slots = []; runs = λ _. no_keys }
