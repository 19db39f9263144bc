-- ===== src/Processor/Sending.antt =====
-- What `SendTask` of internal/processor/processor_queue.go leaves behind, on every path.
use project_arachne.Prelude.{
  ◌<◌, ◌≤◌, ◌≡◌, ◌≢◌, refl, sym, ◌∙◌, subst, ◌⊎◌, inl, inr, [], ◌∷◌, ◌++◌, true, false, none, some,
  leb, Text, arith, lookup, list_eq, nat_eq, Bool-cases,
}
use project_arachne.Urlnorm.{NetUrl, canonical}
use project_arachne.Domain.{Task, ensure_id}
use project_arachne.RunStates.{
  Store, Admission, admitted, admit_task, unadmit_task, at_least, holds_lease,
}
use project_arachne.RunStates.Once.{admit_task_cases, unadmit_task-admit_task}
use project_arachne.Processor.{
  Reply, answered, lost, refused, call, System, Weather, run_limit_exceeded, invalid_url,
  run_not_active, redis_failed, not_queued, SendResult, sent, failed, produce, after_admission,
  admit_and_produce, send_task,
}

-- The task is in the hash of its run.
abbrev pub IsKnown : Task → Store → Type 0
IsKnown t s = lookup t.id (s.runs t.run.id).tasks ≢ none

-- What `SendTask` does with an admissible task, by its answer. An answer `sent` means that the task
-- is in its run's hash and, unless it was there before, at the end of the queue; the other answers
-- leave the queue alone. A task that was admitted but not queued is taken back, unless that call
-- is refused too; a failed admission may have been executed; and the refusals change nothing.
abbrev pub Sends : Weather → Task → System → SendResult → System → Type 0
Sends w t sys sent sys' =
    IsKnown t sys'.store
    × (((sys' ≡ sys) × IsKnown t sys.store)
        ⊎ ((sys'.queue ≡ sys.queue ++ t ∷ [])
            × (lookup t.id (sys.store.runs t.run.id).tasks ≡ none)))
Sends w t sys (failed not_queued) sys' =
    (sys'.queue ≡ sys.queue)
    × (w.undoing ≢ refused → (r : Text) → sys'.store.runs r ≡ sys.store.runs r)
Sends w t sys (failed redis_failed) sys' =
    (sys'.queue ≡ sys.queue) × (w.admitting ≡ refused → sys'.store ≡ sys.store)
Sends w t sys (failed run_limit_exceeded) sys' =
    (sys' ≡ sys) × (at_least t.run.max_links (sys.store.runs t.run.id).current_links ≡ true)
Sends w t sys (failed run_not_active) sys' =
    (sys' ≡ sys) × (holds_lease t.run.id w.now sys.store ≡ false)
Sends w t sys (failed invalid_url) sys' = ⊥

abbrev admission_of : Weather → Task → System → Admission × Store
admission_of w t sys = admit_task t.run.id t.id t.run.max_links w.now sys.store

Reply-cases : (r : Reply) → (r ≡ answered) ⊎ ((r ≡ lost) ⊎ (r ≡ refused))
Reply-cases answered = inl refl
Reply-cases lost = inr (inl refl)
Reply-cases refused = inr (inr refl)

undone :
    (w : Weather) (t : Task) (sys : System)
    → (admission_of w t sys).0 ≡ admitted
    → w.undoing ≢ refused
    → (r : Text)
    → ((call {0} {A = Unit {0}} w.undoing
        (λ s. (tt, unadmit_task t.run.id t.id s))
        (admission_of w t sys).1).1
      ).runs
        r
      ≡ sys.store.runs r
unfolding call
undone w t sys won kept r =
    ground (arith, unadmit_task-admit_task t.run.id t.id t.run.max_links w.now sys.store r won)

produce-Sends :
    (w : Weather) (t : Task) (sys : System)
    → (admission_of w t sys).0 ≡ admitted
    → lookup t.id (sys.store.runs t.run.id).tasks ≡ none
    → IsKnown t (admission_of w t sys).1
    → let (r, sys') = produce w t (record sys { store = (admission_of w t sys).1 }) in
      Sends w t sys r sys'
unfolding produce
produce-Sends w t sys won new known = elim (Bool-cases w.produced) [
  | inl yes_ ↦ rw yes_ (known, inr (refl, new))
  | inr no_ ↦ rw no_ (refl, undone w t sys won)
]

unchanged :
    (w : Weather) (t : Task) (sys : System)
    → (admission_of w t sys).1 ≡ sys.store
    → record sys { store = (admission_of w t sys).1 } ≡ sys
unchanged w t sys same = λ i. record sys { store = same i }

answered-Sends :
    (w : Weather) (t : Task) (sys : System)
    → let (answer, store) = admission_of w t sys in
      let (r, sys') = after_admission w t (some answer) (record sys { store = store }) in
      Sends w t sys r sys'
unfolding after_admission
answered-Sends w t sys = elim (admit_task_cases t.run.id t.id t.run.max_links w.now sys.store) [
  | inl (a, same, gone) ↦ rw (a, after_admission) (unchanged w t sys same, gone)
  | inr (inl (a, same, old)) ↦
      rw (a, after_admission) (subst (IsKnown t) (sym same) old, inl (unchanged w t sys same, old))
  | inr (inr (inl (a, same, full))) ↦ rw (a, after_admission) (unchanged w t sys same, full)
  | inr (inr (inr (a, held, new, room, there, _, _))) ↦
      rw (a, after_admission) (produce-Sends w t sys a new (λ e. cc))
]

lost-ne-refused : lost ≢ refused
lost-ne-refused e = cc

reply-Sends :
    (w : Weather) (t : Task) (sys : System) (r : Reply)
    → w.admitting ≡ r
    → let (answer, store) = call r (admit_task t.run.id t.id t.run.max_links w.now) sys.store in
      let (result, sys') = after_admission w t answer (record sys { store = store }) in
      Sends w t sys result sys'
unfolding call after_admission
reply-Sends w t sys answered e = answered-Sends w t sys
reply-Sends w t sys lost e = (refl, λ r. absurd (lost-ne-refused (sym e ∙ r)))
reply-Sends w t sys refused e = (refl, λ r. refl)

admit_and_produce-Sends :
    (w : Weather) (t : Task) (sys : System)
    → let (r, sys') = admit_and_produce w t sys in Sends w t sys r sys'
unfolding admit_and_produce
admit_and_produce-Sends w t sys = reply-Sends w t sys w.admitting refl

-- A task beyond the depth of its run and a URL that is not crawlable are refused and change nothing.
-- Any other task is sent under its canonical URL and its own ID, with one of these outcomes. It is sent:
-- then it is in the hash of its run, and it is new there and the last of the queue, or it was in the
-- hash before and nothing changed. It is not queued: then the queue is as before, and the keys of all
-- runs are, too, if the call that takes the admission back was executed. Redis fails at the
-- admission: then the queue is as before, and the store is, too, if that call was not executed. The
-- run is full or holds no slot: then nothing changed.
pub send_task-Sends :
    (net : NetUrl) (digest : Text → Text) (w : Weather) (t : Task) (sys : System)
    → let (r, sys') = send_task net digest w t sys in
      (t.run.max_depth ≤ t.current_depth → (r ≡ failed run_limit_exceeded) × (sys' ≡ sys))
      × (t.current_depth < t.run.max_depth
          → canonical net t.url none ≡ none
          → (r ≡ failed invalid_url) × (sys' ≡ sys))
      × ((url : Text)
          → t.current_depth < t.run.max_depth
          → canonical net t.url none ≡ some url
          → Sends w (ensure_id digest (record t { url = url })) sys r sys')
unfolding send_task
send_task-Sends net digest w t sys = (
  λ deep. ground arith,
  λ shallow bad. ground arith,
  λ url shallow good. rw (not_deep shallow) (
      rw (good, send_task)
        (admit_and_produce-Sends w (ensure_id digest (record t { url = url })) sys)),
)
  where
    not_deep : t.current_depth < t.run.max_depth → leb t.run.max_depth t.current_depth ≡ false
    not_deep h = ground arith
