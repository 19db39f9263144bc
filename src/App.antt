-- ===== src/App.antt =====
-- internal/app/app_crawler.go: what becomes of a run's message. How the calls go, and whether the
-- application is shutting down when the code asks, is in the record `Chance`.
pub mod Runs
use project_arachne.Prelude.{
  ℕ, List, [], ◌∷◌, ◌++◌, Bool, true, false, Option, none, some, ◌||◌, ltb, if◌then◌else◌, Text,
}
use project_arachne.Urlnorm.{NetUrl, from_user_input}
use project_arachne.Domain.{Run, Task}
use project_arachne.RunStates.{Store, acquire_run_slot, release_run_slot}
use project_arachne.Processor.{
  Reply, call, System, Weather, SendError, SendResult, sent, failed, send_task,
}

-- Redis and the task topic, and the run topic.
pub record Platform : Type 0 where
  pub system : System
  pub run_queue : List Run

pub record Chance : Type 0 where
  pub max_concurrent : ℕ
  pub lease : ℕ
  -- The tries of `waitForRunSlot` until its context is done, each with its time.
  pub tries : List (Reply × ℕ)
  pub sending : Weather
  pub releasing : Reply
  -- `ctx.Err() != nil` behind a failed wait, and behind a failed send.
  pub stopped_waiting : Bool
  pub stopped_sending : Bool
  -- The failure of the send is `ErrQueueClosed`.
  pub queue_closed : Bool
  -- `QueueRun` produces the run.
  pub requeued : Bool

-- `QueueRun`: a failure is only logged.
unfoldable pub queue_run : Chance → Run → Platform → Platform
queue_run c run p = if c.requeued then record p { run_queue = p.run_queue ++ run ∷ [] } else p

-- `AcquireRunSlot`; the reaped runs are not looked at.
unfoldable pub try_slot : Chance → Run → ℕ → Store → Bool × Store
try_slot c run now s =
    let (acquired, reaped, s') = acquire_run_slot run.id c.max_concurrent c.lease now s in
    (acquired, s')

-- Whether the slot was acquired, and the store behind it.
unfoldable pub wait_for_run_slot : Chance → Run → List (Reply × ℕ) → Store → Bool × Store
wait_for_run_slot c run [] s = (false, s)
wait_for_run_slot c run ((reply, now) ∷ tries) s =
    let (answer, s') = call reply (try_slot c run now) s in
    elim answer [
      | none ↦ (false, s')
      | some acquired ↦ elim acquired [
        | true ↦ (true, s')
        | false ↦ wait_for_run_slot c run tries s'
      ]
    ]

unfoldable pub first_task : Run → Text → Task
first_task run url = record { id = []; url = url; current_depth = 0; run = run; has_ack = false }

unfoldable pub release_after_failure : Chance → Run → System → System
release_after_failure c run sys = record sys {
  store = (call {0} {A = Unit {0}} c.releasing (λ s. (tt, release_run_slot run.id s)) sys.store).1;
}

-- Whether the run's message is finished with, behind the send of its first task.
unfoldable pub after_sending : Chance → Run → SendResult → Platform → Bool × Platform
after_sending c run sent p = (true, p)
after_sending c run (failed e) p =
    let freed : Platform = record p { system = release_after_failure c run p.system } in
    if c.stopped_sending || c.queue_closed then (false, freed) else (true, queue_run c run freed)

unfoldable pub dispatch : NetUrl → (Text → Text) → Chance → Run → Text → Platform → Bool × Platform
dispatch net digest c run url p =
    let (result, sys) = send_task net digest c.sending (first_task run url) p.system in
    after_sending c run result (record p { system = sys })

unfoldable pub after_waiting :
    NetUrl → (Text → Text) → Chance → Run → Text → Bool → Platform → Bool × Platform
after_waiting net digest c run url true p = dispatch net digest c run url p
after_waiting net digest c run url false p =
    if c.stopped_waiting then (false, p) else (true, queue_run c run p)

unfoldable pub start_run : NetUrl → (Text → Text) → Chance → Run → Text → Platform → Bool × Platform
start_run net digest c run url p =
    let (acquired, s) = wait_for_run_slot c run c.tries p.system.store in
    after_waiting net digest c run url acquired
      (record p { system = record p.system { store = s } })

unfoldable pub process_run : NetUrl → (Text → Text) → Chance → Run → Platform → Bool × Platform
process_run net digest c run p =
    if ltb run.max_depth 1 || ltb run.max_links 1
    then (true, p)
    else elim (from_user_input net run.start_url) [
      | none ↦ (true, p)
      | some url ↦ start_run net digest c run url p
    ]
