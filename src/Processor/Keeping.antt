-- ===== src/Processor/Keeping.antt =====
-- `SendTask` of internal/processor/processor_queue.go forgets no task, and makes no room in a full run.
use project_arachne.Prelude.{
  ℕ, ◌≡◌, ◌≢◌, refl, true, Option, leb, sym, subst, inl, inr, none, some, Text, arith, lookup,
  lookup-insert, list_eq, nat_eq, Bool-cases, Option-cases, ==_iff,
}
use project_arachne.Urlnorm.{NetUrl, canonical}
use project_arachne.Domain.{Task, ensure_id}
use project_arachne.RunStates.{
  Store, Counter, pos, negsuc, incr, at_least, queued, Admission, admitted, duplicate,
  limit_reached, run_inactive, admit_task, unadmit_task,
}
use project_arachne.RunStates.Once.{unadmit_task-admit_task}
use project_arachne.Processor.{
  Reply, answered, lost, refused, call, System, Weather, failed, not_queued, produce,
  after_admission, admit_and_produce, send_task,
}
use project_arachne.Processor.Sending.{IsKnown}

-- Every task that is known stays known.
abbrev Keeps : Store → Store → Type 0
Keeps s s' = (u : Task) → IsKnown u s → IsKnown u s'

admit_task-Keeps :
    (run task : Text) (max_links now : ℕ) (s : Store)
    → Keeps s (admit_task run task max_links now s).1
unfolding admit_task
admit_task-Keeps run task max_links now s u known none_ =
    ground (arith, known, ==_iff run u.run.id, lookup-insert task u.id queued (s.runs run).tasks)

abbrev admission_of : Weather → Task → System → Admission × Store
admission_of w t sys = admit_task t.run.id t.id t.run.max_links w.now sys.store

admission-Keeps : (w : Weather) (t : Task) (sys : System) → Keeps sys.store (admission_of w t sys).1
admission-Keeps w t sys = admit_task-Keeps t.run.id t.id t.run.max_links w.now sys.store

undo-Keeps :
    (w : Weather) (t : Task) (sys : System) (r : Reply)
    → (admission_of w t sys).0 ≡ admitted
    → Keeps sys.store
        (call {0} {A = Unit {0}} r
          (λ s. (tt, unadmit_task t.run.id t.id s))
          (admission_of w t sys).1).1
unfolding call
undo-Keeps w t sys answered won u known =
    subst (λ keys. lookup u.id keys.tasks ≢ none)
      (sym (unadmit_task-admit_task t.run.id t.id t.run.max_links w.now sys.store u.run.id won))
      known
undo-Keeps w t sys lost won u known =
    subst (λ keys. lookup u.id keys.tasks ≢ none)
      (sym (unadmit_task-admit_task t.run.id t.id t.run.max_links w.now sys.store u.run.id won))
      known
undo-Keeps w t sys refused won u known = admission-Keeps w t sys u known

after_admission-Keeps :
    (w : Weather) (t : Task) (sys : System) (a : Admission)
    → (admission_of w t sys).0 ≡ a
    → Keeps sys.store
        (after_admission w t (some a) (record sys { store = (admission_of w t sys).1 })).1.store
unfolding after_admission produce
after_admission-Keeps w t sys duplicate e u known = admission-Keeps w t sys u known
after_admission-Keeps w t sys limit_reached e u known = admission-Keeps w t sys u known
after_admission-Keeps w t sys run_inactive e u known = admission-Keeps w t sys u known
after_admission-Keeps w t sys admitted e u known = elim (Bool-cases w.produced) [
  | inl yes_ ↦ rw yes_ (admission-Keeps w t sys u known)
  | inr no_ ↦ rw no_ (undo-Keeps w t sys w.undoing e u known)
]

reply-Keeps :
    (w : Weather) (t : Task) (sys : System) (r : Reply)
    → let (answer, store) = call r (admit_task t.run.id t.id t.run.max_links w.now) sys.store in
      Keeps sys.store (after_admission w t answer (record sys { store = store })).1.store
unfolding call
reply-Keeps w t sys answered = after_admission-Keeps w t sys (admission_of w t sys).0 refl
reply-Keeps w t sys lost = unfold after_admission in admission-Keeps w t sys
reply-Keeps w t sys refused = unfold after_admission in λ u known. known

-- No call of `SendTask` makes a task unknown that was known.
pub send_task-Keeps :
    (net : NetUrl) (digest : Text → Text) (w : Weather) (t u : Task) (sys : System)
    → IsKnown u sys.store
    → IsKnown u (send_task net digest w t sys).1.store
unfolding send_task admit_and_produce
send_task-Keeps net digest w t u sys known =
    elim (Bool-cases (leb t.run.max_depth t.current_depth)) [
      | inl deep ↦ rw deep known
      | inr shallow ↦ rw shallow (elim (Option-cases (canonical net t.url none)) [
        | inl e ↦ rw (e, send_task) known
        | inr (url, e) ↦
            let t' = ensure_id digest (record t { url = url }) in
            rw (e, send_task) (reply-Keeps w t' sys w.admitting u known)
      ])
    ]

-- The run has as many links as it may have.
abbrev pub IsFull : Text → ℕ → Store → Type 0
IsFull run max_links s = at_least max_links (s.runs run).current_links ≡ true

at_least-incr : (m : ℕ) (c : Counter) → at_least m c ≡ true → at_least m (incr c) ≡ true
at_least-incr m (pos n) h = ground arith
at_least-incr m (negsuc n) h = absurd (ground arith)

admit_task-IsFull :
    (run : Text) (m : ℕ) (id task : Text) (max_links now : ℕ) (s : Store)
    → IsFull run m s
    → IsFull run m (admit_task id task max_links now s).1
unfolding admit_task
admit_task-IsFull run m id task max_links now s full =
    ground (arith, ==_iff id run, at_least-incr m (s.runs run).current_links)

module _ (run : Text) (m : ℕ) where
  after_admission-IsFull :
      (w : Weather) (t : Task) (a : Option Admission) (sys : System)
      → (after_admission w t a sys).0 ≢ failed not_queued
      → IsFull run m sys.store
      → IsFull run m (after_admission w t a sys).1.store
  unfolding after_admission produce
  after_admission-IsFull w t none sys ok full = full
  after_admission-IsFull w t (some duplicate) sys ok full = full
  after_admission-IsFull w t (some limit_reached) sys ok full = full
  after_admission-IsFull w t (some run_inactive) sys ok full = full
  after_admission-IsFull w t (some admitted) sys ok full = elim (Bool-cases w.produced) [
    | inl yes_ ↦ rw yes_ full
    | inr no_ ↦ absurd (ok (rw no_ refl))
  ]

  called-IsFull :
      (w : Weather) (t : Task) (sys : System) (r : Reply)
      → IsFull run m sys.store
      → IsFull run m (call r (admit_task t.run.id t.id t.run.max_links w.now) sys.store).1
  unfolding call
  called-IsFull w t sys answered =
      admit_task-IsFull run m t.run.id t.id t.run.max_links w.now sys.store
  called-IsFull w t sys lost = admit_task-IsFull run m t.run.id t.id t.run.max_links w.now sys.store
  called-IsFull w t sys refused = λ full. full

  -- A call of `SendTask` that takes nothing back leaves a full run full.
  pub send_task-IsFull :
      (net : NetUrl) (digest : Text → Text) (w : Weather) (t : Task) (sys : System)
      → (send_task net digest w t sys).0 ≢ failed not_queued
      → IsFull run m sys.store
      → IsFull run m (send_task net digest w t sys).1.store
  unfolding send_task admit_and_produce
  send_task-IsFull net digest w t sys = elim (Bool-cases (leb t.run.max_depth t.current_depth)) [
    | inl deep ↦ rw deep (λ ok full. full)
    | inr shallow ↦ rw shallow (elim (Option-cases (canonical net t.url none)) [
      | inl e ↦ rw (e, send_task) (λ ok full. full)
      | inr (url, e) ↦
          let t' = ensure_id digest (record t { url = url }) in
          rw (e, send_task)
            (λ ok full.
              after_admission-IsFull w t' _ _ ok (called-IsFull w t' sys w.admitting full))
    ])
  ]
