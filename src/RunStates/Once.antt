-- ===== src/RunStates/Once.antt =====
-- The task-level methods of internal/webcrawler/runstates may be repeated, as a redelivered task
-- repeats them: a task is admitted once and counted as finished once.
use project_arachne.Prelude.{
  ℕ, zero, suc, ◌+◌, ◌≡◌, ◌≢◌, refl, ◌∙◌, ap, ◌⊎◌, inl, inr, true, false, none, some, ==_iff,
  ==_refl, list_eq, nat_eq, lookup, insert, Text, arith, delete-insert_absent, lookup-insert,
  Bool-cases,
}
use project_arachne.RunStates.{
  Counter, pos, negsuc, incr, decr, at_least, queued, finished, RunKeys, Store, set_run,
  holds_lease, admitted, duplicate, limit_reached, run_inactive, admit_task, unadmit_task,
  completed, complete_task,
}
use project_arachne.RunStates.Counts.{renew-runs, queued_count, IsCounted, insert_finished}

-- An admitted task is a duplicate from then on: admitting it again, as long as the run holds its
-- lease, changes nothing.
pub admit_task_twice :
    (run task : Text) (max_links max_links' now later : ℕ) (s : Store)
    → (admit_task run task max_links now s).0 ≡ admitted
    → holds_lease run later s ≡ true
    → admit_task run task max_links' later (admit_task run task max_links now s).1
      ≡ (duplicate, (admit_task run task max_links now s).1)
unfolding admit_task holds_lease
admit_task_twice run task max_links max_links' now later s won held =
    ground (arith, ==_refl run, lookup-insert task task queued (s.runs run).tasks, ==_refl task)

-- What an answer of `AdmitTask` says: the run holds no live lease, or the task is known, or the
-- limit on links is reached, or else the task is queued and both counters are one higher; and only
-- in the last case anything changes.
pub admit_task_cases :
    (run task : Text) (max_links now : ℕ) (s : Store)
    → let keys = s.runs run in
      let (answer, s') = admit_task run task max_links now s in
      ((answer ≡ run_inactive) × (s' ≡ s) × (holds_lease run now s ≡ false))
      ⊎ (((answer ≡ duplicate) × (s' ≡ s) × (lookup task keys.tasks ≢ none))
          ⊎ (((answer ≡ limit_reached) × (s' ≡ s) × (at_least max_links keys.current_links ≡ true))
              ⊎ ((answer ≡ admitted)
                  × (holds_lease run now s ≡ true)
                  × (lookup task keys.tasks ≡ none)
                  × (at_least max_links keys.current_links ≡ false)
                  × (lookup task (s'.runs run).tasks ≡ some queued)
                  × ((s'.runs run).active_tasks ≡ incr keys.active_tasks)
                  × ((s'.runs run).current_links ≡ incr keys.current_links))))
unfolding admit_task
admit_task_cases run task max_links now s =
    ground (arith, ==_refl run, lookup-insert task task queued (s.runs run).tasks, ==_refl task)

decr-incr : (c : Counter) → decr (incr c) ≡ c
decr-incr (pos n) = refl
decr-incr (negsuc zero) = refl
decr-incr (negsuc (suc n)) = refl

-- Undoing an admission puts every run's keys back as they were.
pub unadmit_task-admit_task :
    (run task : Text) (max_links now : ℕ) (s : Store) (r : Text)
    → (admit_task run task max_links now s).0 ≡ admitted
    → (unadmit_task run task (admit_task run task max_links now s).1).runs r ≡ s.runs r
unfolding admit_task unadmit_task
unadmit_task-admit_task run task max_links now s r won = ground (
  arith,
  ==_refl run,
  ==_iff run r,
  lookup-insert task task queued (s.runs run).tasks,
  ==_refl task,
  delete-insert_absent task queued (s.runs run).tasks,
  decr-incr (s.runs run).active_tasks,
  decr-incr (s.runs run).current_links,
)

completed-tasks :
    (run task : Text) (lease now : ℕ) (s : Store)
    → ((completed run task lease now s).runs run).tasks ≡ insert task finished (s.runs run).tasks
unfolding completed
completed-tasks run task lease now s = elim (Bool-cases (holds_lease run now s')) [
  | inl held ↦
      rw held (ap (λ (f : Text → RunKeys). (f run).tasks) (renew-runs run (now + lease) s') ∙ own)
  | inr gone ↦ rw gone own
]
  where
    s' : Store
    s' =
        set_run run
          (record (s.runs run) {
            tasks = insert task finished (s.runs run).tasks;
            active_tasks = decr (s.runs run).active_tasks;
          })
          s

    own : (s'.runs run).tasks ≡ insert task finished (s.runs run).tasks
    own = rw (==_refl run) refl

-- A completed task is counted once: completing it again is not counted and changes nothing.
pub complete_task_twice :
    (run task : Text) (lease lease' now later : ℕ) (s : Store)
    → (complete_task run task lease now s).1 ≡ true
    → complete_task run task lease' later (complete_task run task lease now s).2
      ≡ (pos 0, false, (complete_task run task lease now s).2)
unfolding complete_task
complete_task_twice run task lease lease' now later s counted = ground (
  arith,
  completed-tasks run task lease now s,
  lookup-insert task task finished (s.runs run).tasks,
  ==_refl task,
)

-- In a store whose counters are right, a counted completion reports the number of tasks of the run
-- that are still not finished behind it.
pub complete_task-left :
    (run task : Text) (lease now : ℕ) (s : Store)
    → IsCounted (s.runs run)
    → (complete_task run task lease now s).1 ≡ true
    → (complete_task run task lease now s).0
      ≡ pos (queued_count ((complete_task run task lease now s).2.runs run).tasks)
unfolding complete_task
complete_task-left run task lease now s v counted =
    ground (
      arith,
      completed-tasks run task lease now s,
      insert_finished task (s.runs run).tasks,
      v.active,
    )
