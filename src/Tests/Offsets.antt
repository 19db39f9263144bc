-- ===== src/Tests/Offsets.antt =====
-- Examples for the offset tracker of internal/processor/queue.
use project_arachne.Prelude.{
  true, In, ℕ, ◌+◌, ◌≡◌, refl, List, [], ◌∷◌, false, none, some, All, arith, lookup, insert, codes,
  pair_eq, list_eq, nat_eq,
}
use project_arachne.Queue.Offsets.{
  TopicPartition, Record, OffsetTracker, partition_of, new_offset_tracker, mark, restore, track,
  done, advance,
}
use project_arachne.Queue.Offsets.Log.{drop_done}
use project_arachne.Queue.Offsets.History.{
  Event, delivered, acked, taken, step, run, empty_logs, log_step, log_run, IsDue, AreLegal,
}
use project_arachne.Queue.Offsets.Safety.{in_flight-drop_done, step_run-IsDue}
use project_arachne.Queue.Offsets.Newest.{last_item, committed-last_item}
use project_arachne.Queue.Offsets.Restoring.{AtLeast, restore-AtLeast}
use project_arachne.Queue.Commit.{commit_tick, on_revoked, on_revoked-restores}

abbrev record_at : ℕ → Record
record_at n = record { id = n; topic = codes "tasks"; partition = 0; offset = 10 + n }

abbrev tasks_0 : TopicPartition
tasks_0 = (codes "tasks", 0)

-- Two records, acknowledged in the wrong order.
abbrev history : List Event
history =
    delivered (record_at 0)
    ∷ delivered (record_at 1)
    ∷ acked (record_at 1)
    ∷ acked (record_at 0)
    ∷ []

history-AreLegal : AreLegal history empty_logs
unfolding log_step mark
history-AreLegal = (tt, (omega arith, (tt, (tt, tt))))

in_flight-drop_done_example :
    (run history new_offset_tracker).in_flight tasks_0
    ≡ drop_done (log_run history empty_logs tasks_0)
in_flight-drop_done_example = in_flight-drop_done history tasks_0 history-AreLegal

step_run-IsDue_example :
    All (IsDue (log_run history empty_logs)) (step taken (run history new_offset_tracker)).0
step_run-IsDue_example = step_run-IsDue history taken history-AreLegal

committed-last_item_example :
    ((run history new_offset_tracker).in_flight tasks_0 ≡ [])
    × (lookup tasks_0 (run history new_offset_tracker).committed
        ≡ last_item (log_run history empty_logs tasks_0))
unfolding log_run log_step mark
committed-last_item_example =
    committed-last_item history tasks_0 (tt, (tt, (tt, (tt, tt)))) history-AreLegal
      (refl, (refl, tt))

-- The commit point waits for the first record.
wait_for_first :
    lookup tasks_0
      (run
        (delivered (record_at 0) ∷ delivered (record_at 1) ∷ acked (record_at 1) ∷ [])
        new_offset_tracker).committed
    ≡ none
unfolding run step track done mark advance new_offset_tracker lookup insert
wait_for_first = refl

abbrev with_newer : OffsetTracker
with_newer = record { in_flight = λ _. []; committed = (tasks_0, record_at 1) ∷ [] }

restore-AtLeast_example :
    All
      (λ r. AtLeast r.offset (partition_of r) (restore (record_at 0 ∷ []) with_newer).committed)
      (record_at 0 ∷ [])
    × ((n : ℕ) (tp : TopicPartition)
        → AtLeast n tp with_newer.committed
        → AtLeast n tp (restore (record_at 0 ∷ []) with_newer).committed)
restore-AtLeast_example = restore-AtLeast (record_at 0 ∷ []) with_newer

on_revoked-restores_example :
    let t' = (on_revoked false ((codes "tasks", 0 ∷ []) ∷ []) with_newer).1 in
    (lookup tasks_0 t'.committed ≡ some (record_at 1)) × In (record_at 1) (commit_tick true t').0
unfolding lookup
on_revoked-restores_example = on_revoked-restores with_newer (record_at 1) refl
