-- ===== src/Queue/Offsets/Safety.antt =====
-- What internal/processor/queue/offsets.go hands out to be committed, over whole histories of
-- deliveries, acknowledgements, commits and rebalances.
use project_arachne.Prelude.{
  ℕ, ◌≡◌, ◌≢◌, refl, inl, inr, List, [], ◌∷◌, pair_eq, list_eq, nat_eq, All, All-mono, All-map,
  All-append, Option-cases, lookup, lookup-All, Text,
}
use project_arachne.Queue.Offsets.{
  TopicPartition, Record, OffsetTracker, partition_of, update, new_offset_tracker, take,
  partitions_of, release_one, release_all, release,
}
use project_arachne.Queue.Offsets.Log.{drop_done, Committable, Committable-append, Committable-mark}
use project_arachne.Queue.Offsets.History.{
  Event, delivered, acked, taken, restored, released, step, run, Logs, empty_logs, log_step,
  log_run, IsDue, AreLegal, Entry, Inv,
}
use project_arachne.Queue.Offsets.Invariant.{update_elim, release_one-Inv, history-Inv}

-- After every legal history the tracker holds, for each partition, exactly what follows the
-- finished records at the front of everything that was delivered since the last release.
pub in_flight-drop_done :
    (es : List Event) (tp : TopicPartition)
    → AreLegal es empty_logs
    → (run es new_offset_tracker).in_flight tp ≡ drop_done (log_run es empty_logs tp)
in_flight-drop_done es tp legal = (history-Inv es legal).in_flight_rest tp

clear-Committable :
    (tp : TopicPartition) (logs : Logs) (r : Record) → IsDue (update logs tp []) r → IsDue logs r
clear-Committable tp logs r =
    update_elim (λ j l. Committable r l → Committable r (logs j)) logs tp [] (λ c. absurd c)
      (λ j c. c) (partition_of r)

release_one-IsDue :
    (tp : TopicPartition) (logs : Logs) (t : OffsetTracker)
    → Inv logs t
    → All (IsDue logs) (release_one tp t).0
unfolding release_one
release_one-IsDue tp logs t v = elim (Option-cases (lookup tp t.committed)) [
  | inl e ↦ rw (e, release_one) tt
  | inr (r, e) ↦ rw (e, release_one) ((lookup-All (Entry logs) tp r t.committed v.due e).1, tt)
]

release_all-IsDue :
    (tps : List TopicPartition) (logs : Logs) (t : OffsetTracker)
    → Inv logs t
    → All (IsDue logs) (release_all tps t).0
unfolding release_all
release_all-IsDue [] logs t v = tt
release_all-IsDue (tp ∷ tps) logs t v =
    All-append (IsDue logs) (release_one tp t).0 _ (release_one-IsDue tp logs t v) (
      All-mono (IsDue (update logs tp [])) (IsDue logs) _ (clear-Committable tp logs) (
        release_all-IsDue tps (update logs tp []) (release_one tp t).1
          (release_one-Inv tp logs t v)))

step-IsDue :
    (e : Event) (logs : Logs) (t : OffsetTracker) → Inv logs t → All (IsDue logs) (step e t).0
unfolding step take release
step-IsDue (delivered r) logs t v = tt
step-IsDue (acked r) logs t v = tt
step-IsDue taken logs t v =
    All-map (IsDue logs) (λ e. e.1) t.committed
      (All-mono (Entry logs) (λ e. IsDue logs e.1) t.committed (λ e d. d.1) v.due)
step-IsDue (restored records) logs t v = tt
step-IsDue (released partitions) logs t v = release_all-IsDue (partitions_of partitions) logs t v

-- Whatever the next call hands out to be committed, after any legal history, is done, and so is
-- every record delivered before it in its partition since that was last released.
pub step_run-IsDue :
    (es : List Event) (e : Event)
    → AreLegal es empty_logs
    → All (IsDue (log_run es empty_logs)) (step e (run es new_offset_tracker)).0
step_run-IsDue es e legal = step-IsDue e _ _ (history-Inv es legal)

-- A record that may be committed stays so until its partition is released: after every event but
-- a release, so what a failed commit restores is legal to restore.
pub step-keeps-IsDue :
    (e : Event) (logs : Logs) (r : Record)
    → ((partitions : List (Text × List ℕ)) → e ≢ released partitions)
    → IsDue logs r
    → IsDue (log_step e logs) r
unfolding log_step
step-keeps-IsDue (delivered s) logs r kept c =
    update_elim (λ j l. Committable r (logs j) → Committable r l) logs (partition_of s) _
      (Committable-append r s (logs (partition_of s))) (λ j c'. c') (partition_of r) c
step-keeps-IsDue (acked s) logs r kept c =
    update_elim (λ j l. Committable r (logs j) → Committable r l) logs (partition_of s) _
      (Committable-mark r s (logs (partition_of s))) (λ j c'. c') (partition_of r) c
step-keeps-IsDue taken logs r kept c = c
step-keeps-IsDue (restored records) logs r kept c = c
step-keeps-IsDue (released partitions) logs r kept c = absurd (kept partitions refl)
