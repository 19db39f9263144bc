-- ===== src/Crawler/Completion.antt =====
-- When `handleTask` of internal/webcrawler/crawler_repo.go acknowledges and completes a task, and when
-- a run is declared finished.
use project_arachne.Prelude.{
  ℕ, ◌<◌, ◌≡◌, ◌≢◌, refl, sym, ap, ◌∙◌, subst, ◌⊎◌, Bool, true, false, Option, none, some, Text,
  arith, list_eq, nat_eq, lookup, lookup-delete, ==_refl, ==_iff,
}
use project_arachne.Urlnorm.{NetUrl}
use project_arachne.Domain.{Task, ensure_id, ack}
use project_arachne.RunStates.{
  Store, RunKeys, no_keys, Counter, pos, finished, holds_lease, release_run_slot, cleanup_run,
  complete_task,
}
use project_arachne.RunStates.Counts.{IsCounted, queued_count}
use project_arachne.RunStates.Once.{complete_task-left}
use project_arachne.Processor.{Reply, answered, lost, refused, call, System}
use project_arachne.Crawler.{
  Visit, ProcessError, children_not_sent, process_task, already_handled, finish_run, completing,
  finish_if_last, complete, after_processing, handle_identified, handle_task,
}

module _ (net : NetUrl) (digest : Text → Text) (v : Visit) (t : Task) (sys : System) where
  -- What `processTask` reports for the task of this visit.
  abbrev pub processed : Option ProcessError × System
  processed =
      process_task net digest v (ensure_id digest t)
        (record sys { store = (already_handled v (ensure_id digest t) sys.store).1 })

  abbrev pub was_handled : Bool
  was_handled = (already_handled v (ensure_id digest t) sys.store).0

  -- Redis has answered that the task is done, or that its run holds no slot any more.
  abbrev pub IsOver : Type 0
  IsOver =
      (v.asking ≡ answered)
      × ((lookup (ensure_id digest t).id (sys.store.runs (ensure_id digest t).run.id).tasks
            ≡ some finished)
          ⊎ (holds_lease (ensure_id digest t).run.id v.now sys.store ≡ false))

  -- A task that is still to be done and whose links were not all sent is not acknowledged, and the
  -- system is as sending left it: the task is not completed.
  pub handle_task-children_not_sent :
      was_handled ≡ false
      → processed.0 ≡ some children_not_sent
      → handle_task net digest v t sys ≡ (0, processed.1)
  unfolding handle_task handle_identified after_processing
  handle_task-children_not_sent new e = rw (new, handle_identified) (rw (e, after_processing))

complete_answered :
    (v : Visit) (t : Task) (s : Store)
    → v.completing ≡ answered
    → (complete v t s).1 ≡ finish_if_last v t (completing v t s).0 (completing v t s).1
unfolding complete call
complete_answered v t s = go v.completing
  where
    go :
        (r : Reply)
        → r ≡ answered
        → (elim (call r (completing v t) s).0 as (λ _. ℕ × Store) [
          | none ↦ (0, (call r (completing v t) s).1)
          | some reply ↦ ((ack t).1, finish_if_last v t reply (call r (completing v t) s).1)
        ]).1
          ≡ finish_if_last v t (completing v t s).0 (completing v t s).1
    go answered e = refl
    go lost e = cc
    go refused e = cc

finish_if_last-left :
    (v : Visit) (t : Task) (n : ℕ) (c : Counter) (s : Store)
    → c ≡ pos n
    → (0 < n → finish_if_last v t (c, true) s ≡ s)
      × (n ≡ 0 → finish_if_last v t (c, true) s ≡ finish_run v t.run.id s)
unfolding finish_if_last
finish_if_last-left v t n c s e = rw e ((λ h. ground arith), (λ h. ground arith))

-- The slot and the keys of the run are gone, each if the call that removes it was executed, and those
-- of all other runs are left alone.
pub record IsFreed (v : Visit) (run : Text) (s s' : Store) : Type 0 where
  pub slot : v.releasing ≢ refused → lookup run s'.slots ≡ none
  pub keys : v.cleaning ≢ refused → s'.runs run ≡ no_keys
  pub other_slots : (r : Text) → run ≢ r → lookup r s'.slots ≡ lookup r s.slots
  pub other_keys : (r : Text) → run ≢ r → s'.runs r ≡ s.runs r

released :
    (run : Text) (r : Reply) (s : Store)
    → let s' = (call {0} {A = Unit {0}} r (λ s. (tt, release_run_slot run s)) s).1 in
      (r ≢ refused → lookup run s'.slots ≡ none)
      × ((u : Text) → run ≢ u → lookup u s'.slots ≡ lookup u s.slots)
      × (s'.runs ≡ s.runs)
unfolding call release_run_slot
released run answered s = (
  λ h. lookup-delete run run s.slots ∙ rw (==_refl run) refl,
  λ u ne. ground (arith, lookup-delete run u s.slots, ==_iff run u),
  refl,
)
released run lost s = (
  λ h. lookup-delete run run s.slots ∙ rw (==_refl run) refl,
  λ u ne. ground (arith, lookup-delete run u s.slots, ==_iff run u),
  refl,
)
released run refused s = (λ h. absurd (h refl), λ u ne. refl, refl)

cleaned :
    (run : Text) (r : Reply) (s : Store)
    → let s' = (call {0} {A = Unit {0}} r (λ s. (tt, cleanup_run run s)) s).1 in
      (r ≢ refused → s'.runs run ≡ no_keys)
      × ((u : Text) → run ≢ u → s'.runs u ≡ s.runs u)
      × (s'.slots ≡ s.slots)
unfolding call cleanup_run
cleaned run answered s = (λ h. rw (==_refl run) refl, λ u ne. ground (arith, ==_iff run u), refl)
cleaned run lost s = (λ h. rw (==_refl run) refl, λ u ne. ground (arith, ==_iff run u), refl)
cleaned run refused s = (λ h. absurd (h refl), λ u ne. refl, refl)

finish_run-IsFreed : (v : Visit) (run : Text) (s : Store) → IsFreed v run s (finish_run v run s)
unfolding finish_run
finish_run-IsFreed v run s =
    let between = (call {0} {A = Unit {0}} v.releasing (λ s. (tt, release_run_slot run s)) s).1 in
    let (free, others, runs) = released run v.releasing s in
    let (gone, other_keys, slots) = cleaned run v.cleaning between in
    record {
      slot = λ h. ap (lookup run) slots ∙ free h;
      keys = gone;
      other_slots = λ r ne. ap (lookup r) slots ∙ others r ne;
      other_keys = λ r ne. other_keys r ne ∙ ap (λ (f : Text → RunKeys). f r) runs;
    }

-- Where the counters of a run are right and Redis answers its completion: a counted completion that
-- leaves some unfinished task behind changes nothing more, and one that leaves none frees the slot of
-- the run and removes its keys, each if that call is executed, and touches no other run.
pub complete-finishes :
    (v : Visit) (t : Task) (s : Store)
    → IsCounted (s.runs t.run.id)
    → v.completing ≡ answered
    → (complete_task t.run.id t.id v.lease v.done_at s).1 ≡ true
    → let s' = (complete_task t.run.id t.id v.lease v.done_at s).2 in
      (0 < queued_count (s'.runs t.run.id).tasks → (complete v t s).1 ≡ s')
      × (queued_count (s'.runs t.run.id).tasks ≡ 0 → IsFreed v t.run.id s' (complete v t s).1)
complete-finishes v t s ok e counted =
    let (left, counts, s') = complete_task t.run.id t.id v.lease v.done_at s in
    let n = queued_count (s'.runs t.run.id).tasks in
    let (more, last) =
      finish_if_last-left v t n left s'
        (complete_task-left t.run.id t.id v.lease v.done_at s ok counted) in
    subst (λ st. (0 < n → st ≡ s') × (n ≡ 0 → IsFreed v t.run.id s' st))
      (sym (complete_answered v t s e ∙ ap (λ b. finish_if_last v t (left, b) s') counted))
      (more, λ h. subst (IsFreed v t.run.id s') (sym (last h)) (finish_run-IsFreed v t.run.id s'))
