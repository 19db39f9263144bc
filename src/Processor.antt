-- ===== src/Processor.antt =====
-- internal/processor/processor_queue.go: sending a task, and handing out what was delivered. The
-- answer of each call of Redis or Kafka is an argument: a Redis call that fails may or may not have
-- been executed. `json.Marshal` of a task does not fail, and the payload is the task.
pub mod Sending
pub mod Keeping
pub mod Stranded
use project_arachne.Prelude.{
  ℕ, ◌≡◌, refl, List, [], ◌∷◌, ◌++◌, Bool, true, false, Option, none, some, ◌||◌, leb,
  if◌then◌else◌, Text,
}
use project_arachne.Strings.{is_empty}
use project_arachne.Urlnorm.{NetUrl, canonical}
use project_arachne.Domain.{Task, ensure_id}
use project_arachne.RunStates.{
  Store, Admission, admitted, duplicate, limit_reached, run_inactive, admit_task, unadmit_task,
}

-- What becomes of a call: it is answered, or executed with its answer lost, or not executed.
pub data Reply : Type 0 where
  answered lost refused : Reply

-- A Redis call: its result, if the caller gets one, and the store behind it.
unfoldable pub call {ℓ} : {A : Type ℓ} → Reply → (Store → A × Store) → Store → Option A × Store
call answered f s = let (a, s') = f s in (some a, s')
call lost f s = (none, (f s).1)
call refused f s = (none, s)

-- Redis and the task topic.
pub record System : Type 0 where
  pub store : Store
  pub queue : List Task

-- How the calls of one `SendTask` go.
pub record Weather : Type 0 where
  pub now : ℕ
  pub admitting : Reply
  pub undoing : Reply
  pub produced : Bool

pub data SendError : Type 0 where
  run_limit_exceeded invalid_url run_not_active redis_failed not_queued : SendError

pub data SendResult : Type 0 where
  sent : SendResult
  failed : SendError → SendResult

-- Behind an admission: produce the task, and undo the admission if that fails.
unfoldable pub produce : Weather → Task → System → SendResult × System
produce w t sys = if w.produced then (sent, record sys { queue = sys.queue ++ t ∷ [] }) else (
  failed not_queued,
  record sys {
    store =
        (call {0} {A = Unit {0}} w.undoing (λ s. (tt, unadmit_task t.run.id t.id s)) sys.store).1;
  },
)

unfoldable pub after_admission : Weather → Task → Option Admission → System → SendResult × System
after_admission w t none sys = (failed redis_failed, sys)
after_admission w t (some duplicate) sys = (sent, sys)
after_admission w t (some limit_reached) sys = (failed run_limit_exceeded, sys)
after_admission w t (some run_inactive) sys = (failed run_not_active, sys)
after_admission w t (some admitted) sys = produce w t sys

unfoldable pub admit_and_produce : Weather → Task → System → SendResult × System
admit_and_produce w t sys =
    let (answer, store) =
      call w.admitting (admit_task t.run.id t.id t.run.max_links w.now) sys.store in
    after_admission w t answer (record sys { store = store })

unfoldable pub send_task : NetUrl → (Text → Text) → Weather → Task → System → SendResult × System
send_task net digest w t sys =
    if leb t.run.max_depth t.current_depth
    then (failed run_limit_exceeded, sys)
    else elim (canonical net t.url none) [
      | none ↦ (failed invalid_url, sys)
      | some url ↦ admit_and_produce w (ensure_id digest (record t { url = url })) sys
    ]

-- One message of `StartTaskConsumer`: what `json.Unmarshal` makes of it goes to the workers, with
-- the message's ack attached, or the message is acked at once.
pub data Handed : Type 0 where
  to_workers : Task → Handed
  acked_at_once : Handed

unfoldable pub consume_task : Option Task → Handed
consume_task none = acked_at_once
consume_task (some t) =
    if is_empty t.run.id || is_empty t.url
    then acked_at_once
    else to_workers (record t { has_ack = true })
