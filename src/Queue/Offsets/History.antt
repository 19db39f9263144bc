-- ===== src/Queue/Offsets/History.antt =====
-- Histories of calls of the tracker in internal/processor/queue/offsets.go, and the logs that give
-- them their meaning.
use project_arachne.Prelude.{ℕ, ◌≡◌, List, [], ◌∷◌, ◌++◌, pair_eq, list_eq, nat_eq, All, Text}
use project_arachne.Queue.Offsets.{
  TopicPartition, Record, TrackedRecord, OffsetTracker, partition_of, update, pending, track, mark,
  done, take, restore, partitions_of, release,
}
use project_arachne.Queue.Offsets.Log.{drop_done, Committable, Lacks, Distinct}

-- One call of a method of the tracker.
pub data Event : Type 0 where
  delivered : Record → Event
  acked : Record → Event
  taken : Event
  restored : List Record → Event
  released : List (Text × List ℕ) → Event

-- The records that the call hands out, and the tracker behind it.
unfoldable pub step : Event → OffsetTracker → List Record × OffsetTracker
step (delivered r) t = ([], track r t)
step (acked r) t = ([], done r t)
step taken t = take t
step (restored records) t = ([], restore records t)
step (released partitions) t = release partitions t

unfoldable pub run : List Event → OffsetTracker → OffsetTracker
run [] t = t
run (e ∷ es) t = run es (step e t).1

abbrev pub Logs : Type 0
Logs = TopicPartition → List TrackedRecord

abbrev pub empty_logs : Logs
empty_logs _ = []

unfoldable pub clear : List TopicPartition → Logs → Logs
clear [] logs = logs
clear (tp ∷ tps) logs = clear tps (update logs tp [])

-- What the call means for the logs: a delivery is added, an acknowledgement is noted, a released
-- partition starts afresh.
unfoldable pub log_step : Event → Logs → Logs
log_step (delivered r) logs = update logs (partition_of r) (logs (partition_of r) ++ pending r ∷ [])
log_step (acked r) logs = update logs (partition_of r) (mark r (logs (partition_of r)))
log_step taken logs = logs
log_step (restored records) logs = logs
log_step (released partitions) logs = clear (partitions_of partitions) logs

unfoldable pub log_run : List Event → Logs → Logs
log_run [] logs = logs
log_run (e ∷ es) logs = log_run es (log_step e logs)

-- The record may be committed: it is done, and so is all that came before it in its partition.
abbrev pub IsDue : Logs → Record → Type 0
IsDue logs r = Committable r (logs (partition_of r))

-- Each delivery is a record of its own, and what is restored may still be committed.
abbrev pub IsLegal : Event → Logs → Type 0
IsLegal (delivered r) logs = Lacks r.id (logs (partition_of r))
IsLegal (restored records) logs = All (IsDue logs) records
IsLegal _ logs = Unit {0}

abbrev pub AreLegal : List Event → Logs → Type 0
AreLegal [] logs = Unit {0}
AreLegal (e ∷ es) logs = IsLegal e logs × AreLegal es (log_step e logs)

abbrev pub Entry : Logs → TopicPartition × Record → Type 0
Entry logs (tp, r) = (partition_of r ≡ tp) × IsDue logs r

pub record Inv (logs : Logs) (t : OffsetTracker) : Type 0 where
  pub in_flight_rest : (tp : TopicPartition) → t.in_flight tp ≡ drop_done (logs tp)
  pub distinct : (tp : TopicPartition) → Distinct (logs tp)
  pub placed : (tp : TopicPartition) → All (λ x. partition_of x.item ≡ tp) (logs tp)
  pub due : All (Entry logs) t.committed
