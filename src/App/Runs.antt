-- ===== src/App/Runs.antt =====
-- internal/app/app_crawler.go: where a run is when its message is finished with.
use project_arachne.Prelude.{
  ◌<◌, ℕ, ◌≢◌, ◌∙◌, Option, ltb, sym, lookup, list_eq, nat_eq, ◌≡◌, refl, ◌⊎◌, subst, inl, inr,
  List, [], ◌∷◌, Bool, true, false, none, some, ◌||◌, Text, arith, In, In-right, Bool-cases,
  Option-cases,
}
use project_arachne.Urlnorm.{NetUrl, canonical, from_user_input}
use project_arachne.Domain.{Run, Task, ensure_id}
use project_arachne.RunStates.{Store, RunKeys, acquire_run_slot}
use project_arachne.Processor.{
  Reply, answered, lost, refused, call, System, SendResult, sent, failed, send_task,
}
use project_arachne.Processor.Sending.{IsKnown, Sends, send_task-Sends}
use project_arachne.App.{
  try_slot, Platform, Chance, queue_run, wait_for_run_slot, first_task, release_after_failure,
  after_sending, dispatch, after_waiting, start_run, process_run,
}

-- The run can never crawl anything.
unfoldable pub IsUseless : NetUrl → Run → Type 0
IsUseless net run =
    (run.max_depth < 1) ⊎ ((run.max_links < 1) ⊎ (from_user_input net run.start_url ≡ none))

-- The first task of the run is in its hash, and either it is in the task topic, or it was in the hash
-- before.
unfoldable pub IsStarted : NetUrl → (Text → Text) → Run → System → Platform → Type 0
IsStarted net digest run before p =
    (url : Text) × (start : Text) × (from_user_input net run.start_url ≡ some start)
    × (canonical net start none ≡ some url)
    × (let t = ensure_id digest (record (first_task run start) { url = url }) in
        IsKnown t p.system.store × (In t p.system.queue ⊎ IsKnown t before.store))

try_slot-runs :
    (c : Chance) (run : Run) (now : ℕ) (s : Store) (r : Reply)
    → (call r (try_slot c run now) s).1.runs ≡ s.runs
unfolding call try_slot acquire_run_slot
try_slot-runs c run now s answered = ground arith
try_slot-runs c run now s lost = ground arith
try_slot-runs c run now s refused = refl

-- Waiting for a slot leaves the keys of the runs alone.
wait_for_run_slot-runs :
    (c : Chance) (run : Run) (tries : List (Reply × ℕ)) (s : Store)
    → (wait_for_run_slot c run tries s).1.runs ≡ s.runs
unfolding wait_for_run_slot
wait_for_run_slot-runs c run [] s = refl
wait_for_run_slot-runs c run ((r, now) ∷ tries) s =
    let (answer, s') = call r (try_slot c run now) s in
    answer_runs answer s' (wait_for_run_slot-runs c run tries s') ∙ try_slot-runs c run now s r
  where
    answer_runs :
        (answer : Option Bool) (s' : Store)
        → (wait_for_run_slot c run tries s').1.runs ≡ s'.runs
        → (elim answer as (λ _. Bool × Store) [
          | none ↦ (false, s')
          | some acquired ↦ elim acquired [
            | true ↦ (true, s')
            | false ↦ wait_for_run_slot c run tries s'
          ]
        ]).1.runs
          ≡ s'.runs
    answer_runs none s' h = refl
    answer_runs (some true) s' h = refl
    answer_runs (some false) s' h = h

module _ (net : NetUrl) (digest : Text → Text) (c : Chance) (run : Run) (before : System) where
  -- Where the run is, if its message is finished with.
  abbrev IsKept : Bool × Platform → Type 0
  IsKept (finished, p) =
      finished ≡ true
      → (c.requeued ≡ false) ⊎ (In run p.run_queue ⊎ IsStarted net digest run before p)

  queue_run-IsKept : (p : Platform) → IsKept (true, queue_run c run p)
  unfolding queue_run
  queue_run-IsKept p h = elim (Bool-cases c.requeued) [
    | inl e ↦ rw (e, queue_run) (inr (inl (In-right run p.run_queue (run ∷ []) (inl refl))))
    | inr e ↦ inl e
  ]

  after_sending-IsKept :
      (r : SendResult) (p : Platform)
      → (r ≡ sent → IsStarted net digest run before p)
      → IsKept (after_sending c run r p)
  unfolding after_sending
  after_sending-IsKept sent p started = λ h. inr (inr (started refl))
  after_sending-IsKept (failed e) p started =
      elim (Bool-cases (c.stopped_sending || c.queue_closed)) [
        | inl stopped ↦ rw (stopped, after_sending) (λ h. absurd (ground arith))
        | inr going ↦
            rw (going, after_sending)
              (queue_run-IsKept (record p { system = release_after_failure c run p.system }))
      ]

  sent-first :
      (t : Task) (p : Platform) (sys : System)
      → p.system.store.runs ≡ before.store.runs
      → Sends c.sending t p.system sent sys
      → IsKnown t sys.store × (In t sys.queue ⊎ IsKnown t before.store)
  sent-first t p sys same (known, inl (unchanged, old)) =
      (known, inr (subst (λ (f : Text → RunKeys). lookup t.id (f t.run.id).tasks ≢ none) same old))
  sent-first t p sys same (known, inr (queued_, new)) =
      (known, inl (subst (In t) (sym queued_) (In-right t p.system.queue (t ∷ []) (inl refl))))

  dispatch-IsKept :
      (start : Text) (p : Platform)
      → p.system.store.runs ≡ before.store.runs
      → 0 < run.max_depth
      → from_user_input net run.start_url ≡ some start
      → IsKept (dispatch net digest c run start p)
  unfolding dispatch first_task IsStarted
  dispatch-IsKept start p same deep e =
      let sends = send_task-Sends net digest c.sending (first_task run start) p.system in
      after_sending-IsKept (send_task net digest c.sending (first_task run start) p.system).0
        (record p { system = (send_task net digest c.sending (first_task run start) p.system).1 })
        (λ went. elim (Option-cases (canonical net start none)) [
          | inl bad ↦ absurd (ground (arith, sends.1 deep bad))
          | inr (url, good) ↦ (
            url,
            start,
            e,
            good,
            sent-first (ensure_id digest (record (first_task run start) { url = url })) p
                (send_task net digest c.sending (first_task run start) p.system).1 same
                (subst
                  (λ r.
                    Sends c.sending (ensure_id digest (record (first_task run start) { url = url }))
                      p.system r (send_task net digest c.sending (first_task run start) p.system).1)
                  went (sends.2 url deep good)),
          )
        ])

  after_waiting-IsKept :
      (start : Text) (acquired : Bool) (p : Platform)
      → p.system.store.runs ≡ before.store.runs
      → 0 < run.max_depth
      → from_user_input net run.start_url ≡ some start
      → IsKept (after_waiting net digest c run start acquired p)
  unfolding after_waiting queue_run
  after_waiting-IsKept start true p same deep e = dispatch-IsKept start p same deep e
  after_waiting-IsKept start false p same deep e = elim (Bool-cases c.stopped_waiting) [
    | inl stopped ↦ rw (stopped, after_waiting) (λ h. absurd (ground arith))
    | inr going ↦ rw (going, after_waiting) (queue_run-IsKept p)
  ]

  -- A run's message is finished with only if the run can never crawl anything, or the run is back in
  -- the run topic, or its first task is in the run's hash and either in the task topic or known before
  -- the message came; unless the run could not be put back into the topic.
  pub process_run-IsKept :
      (run_queue : List Run)
      → let p : Platform = record { system = before; run_queue = run_queue } in
        (process_run net digest c run p).0 ≡ true
        → c.requeued ≡ true
        → IsUseless net run
          ⊎ (In run (process_run net digest c run p).1.run_queue
              ⊎ IsStarted net digest run before (process_run net digest c run p).1)
  unfolding process_run start_run IsUseless
  process_run-IsKept run_queue = elim (Bool-cases (ltb run.max_depth 1 || ltb run.max_links 1)) [
    | inl never ↦ λ h ok. inl (ground arith)
    | inr ever ↦ elim (Option-cases (from_user_input net run.start_url)) [
      | inl e ↦ λ h ok. inl (inr (inr e))
      | inr (start, e) ↦
          rw (ever, process_run)
            (rw (e, process_run)
              (λ h ok.
                elim (after_waiting-IsKept start _ _
                  (wait_for_run_slot-runs c run c.tries before.store) (ground arith) e h) [
                    | inl gone ↦ absurd (ground arith)
                    | inr kept ↦ inr kept
                  ]))
    ]
  ]
