-- ===== src/Crawler.antt =====
-- internal/webcrawler/crawler_repo.go: how a worker handles one task. What Redis, Kafka and the rest of
-- the world answer during one visit of a task is in the record `Visit`; loading a page, from the
-- cache or the network, is one answer each.
pub mod Stopping
pub mod Children
pub mod Completion
use project_arachne.Prelude.{
  ℕ, suc, ◌+◌, ◌≡◌, refl, List, [], ◌∷◌, ◌++◌, map, Bool, true, false, not, Option, none, some,
  ◌||◌, leb, if◌then◌else◌, Text,
}
use project_arachne.Urlnorm.{NetUrl}
use project_arachne.Domain.{Task, Run, ensure_id, ack}
use project_arachne.RunStates.{
  Store, Counter, pos, negsuc, TaskState, task_state, complete_task, release_run_slot, cleanup_run,
}
use project_arachne.Processor.{
  Reply, answered, lost, refused, call, System, Weather, SendError, run_limit_exceeded, invalid_url,
  run_not_active, redis_failed, not_queued, SendResult, sent, failed, send_task,
}

-- What `handleTask` meets.
pub record Visit : Type 0 where
  -- Redis's clock at the question and at the completion.
  pub now : ℕ
  pub done_at : ℕ
  pub lease : ℕ
  pub asking : Reply
  -- The links of the cached page, if there is one.
  pub cached : Option (List (Text × Weather))
  -- The links of the loaded page, unless loading it fails.
  pub loaded : Option (List (Text × Weather))
  pub completing : Reply
  pub releasing : Reply
  pub cleaning : Reply

pub data ProcessError : Type 0 where
  cache_hit children_not_sent not_loaded : ProcessError

-- One step of the loop of `sendChildren` over what `SendTask` answered: go on, go on with a failure
-- noted, or return at once.
pub data Next : Type 0 where
  goes_on notes_failure returns : Next

unfoldable pub next_of : SendResult → Next
next_of sent = goes_on
next_of (failed run_limit_exceeded) = goes_on
next_of (failed invalid_url) = goes_on
next_of (failed run_not_active) = returns
next_of (failed redis_failed) = notes_failure
next_of (failed not_queued) = notes_failure

unfoldable pub child : Task → Text → Task
child parent link = record {
  id = [];
  url = link;
  current_depth = parent.current_depth + 1;
  run = parent.run;
  has_ack = false;
}

-- What `sendChildren` leaves: whether it reports a failure, what the calls of `SendTask` answered,
-- and the system.
pub record Sending : Type 0 where
  pub not_sent : Bool
  pub answers : List SendResult
  pub system : System

-- The rest of the loop behind one answer.
unfoldable pub after_answer : Next → SendResult → System → Bool → (Bool → Sending) → Sending
after_answer goes_on answer sys noted rest = record (rest noted) {
  answers = answer ∷ (rest noted).answers;
}
after_answer notes_failure answer sys noted rest = record (rest true) {
  answers = answer ∷ (rest true).answers;
}
after_answer returns answer sys noted rest = record {
  not_sent = false;
  answers = answer ∷ [];
  system = sys;
}

module _ (net : NetUrl) (digest : Text → Text) where
  unfoldable pub send_loop : Task → List (Text × Weather) → Bool → System → Sending
  send_loop parent [] noted sys = record { not_sent = noted; answers = []; system = sys }
  send_loop parent ((link, w) ∷ links) noted sys =
      let (answer, sys') = send_task net digest w (child parent link) sys in
      after_answer (next_of answer) answer sys' noted (λ noted'. send_loop parent links noted' sys')

  unfoldable pub send_children : Task → List (Text × Weather) → System → Sending
  send_children parent links sys =
      if leb parent.run.max_depth (parent.current_depth + 1)
      then record { not_sent = false; answers = []; system = sys }
      else send_loop parent links false sys

  -- `processTask`; saving and caching the page are best effort and change nothing that is modelled.
  unfoldable pub process_task : Visit → Task → System → Option ProcessError × System
  process_task v t sys =
      let use_loaded : Option ProcessError × System = elim v.loaded [
        | none ↦ (some not_loaded, sys)
        | some links ↦
            let s = send_children t links sys in
            (if s.not_sent then some children_not_sent else none, s.system)
      ] in
      if t.run.use_cache_flag
      then elim v.cached [
        | none ↦ use_loaded
        | some links ↦
            let s = send_children t links sys in
            (if s.not_sent then some children_not_sent else some cache_hit, s.system)
      ]
      else use_loaded

-- `alreadyHandled`, with the store behind the call.
unfoldable pub already_handled : Visit → Task → Store → Bool × Store
already_handled v t s =
    let (answer, s') = call v.asking (task_state t.run.id t.id v.lease v.now) s in
    (elim answer [ none ↦ false | some state ↦ state.is_done || not state.run_active ], s')

-- `left > 0`.
abbrev pub is_positive : Counter → Bool
is_positive (pos n) = leb 1 n
is_positive (negsuc n) = false

unfoldable pub finish_run : Visit → Text → Store → Store
finish_run v run s =
    let released = (call {0} {A = Unit {0}} v.releasing (λ s. (tt, release_run_slot run s)) s).1 in
    (call {0} {A = Unit {0}} v.cleaning (λ s. (tt, cleanup_run run s)) released).1

abbrev pub completing : Visit → Task → Store → (Counter × Bool) × Store
completing v t s =
    let (left, counted, s') = complete_task t.run.id t.id v.lease v.done_at s in
    ((left, counted), s')

unfoldable pub finish_if_last : Visit → Task → Counter × Bool → Store → Store
finish_if_last v t (left, counted) s =
    if not counted || is_positive left then s else finish_run v t.run.id s

-- `completeTask`: how often the ack was called, and the store behind it.
unfoldable pub complete : Visit → Task → Store → ℕ × Store
complete v t s =
    let (answer, s') = call v.completing (completing v t) s in
    elim answer [ none ↦ (0, s') | some reply ↦ ((ack t).1, finish_if_last v t reply s') ]

unfoldable pub complete_in : Visit → Task → System → ℕ × System
complete_in v t sys = let (acks, s') = complete v t sys.store in (acks, record sys { store = s' })

unfoldable pub after_processing : Visit → Task → Option ProcessError → System → ℕ × System
after_processing v t (some children_not_sent) sys = (0, sys)
after_processing v t (some cache_hit) sys = complete_in v t sys
after_processing v t (some not_loaded) sys = complete_in v t sys
after_processing v t none sys = complete_in v t sys

unfoldable pub handle_identified : NetUrl → (Text → Text) → Visit → Task → System → ℕ × System
handle_identified net digest v t sys =
    let (handled, s') = already_handled v t sys.store in
    let asked : System = record sys { store = s' } in
    if handled
    then ((ack t).1, asked)
    else (let (error, sys') = process_task net digest v t asked in after_processing v t error sys')

-- `handleTask`: how often the ack was called, and the system behind it.
unfoldable pub handle_task : NetUrl → (Text → Text) → Visit → Task → System → ℕ × System
handle_task net digest v t sys = handle_identified net digest v (ensure_id digest t) sys
