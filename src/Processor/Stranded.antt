-- ===== src/Processor/Stranded.antt =====
-- `SendTask` of internal/processor/processor_queue.go: a duplicate that is in no queue.
use project_arachne.Prelude.{
  ◌<◌, ◌≡◌, refl, true, false, none, some, leb, Text, arith, lookup, lookup-insert, list_eq, nat_eq,
  ==_refl,
}
use project_arachne.Urlnorm.{NetUrl, canonical}
use project_arachne.Domain.{Task, ensure_id}
use project_arachne.RunStates.{queued, at_least, duplicate, holds_lease, admit_task}
use project_arachne.Processor.{
  answered, lost, call, System, Weather, redis_failed, sent, failed, after_admission,
  admit_and_produce, send_task,
}
use project_arachne.Processor.Sending.{IsKnown}

module _ (w w' : Weather) (t : Task) (sys : System)
    (held : holds_lease t.run.id w.now sys.store ≡ true)
    (new : lookup t.id (sys.store.runs t.run.id).tasks ≡ none)
    (room : at_least t.run.max_links (sys.store.runs t.run.id).current_links ≡ false)
    (unanswered : w.admitting ≡ lost) (answers : w'.admitting ≡ answered)
    (still_held : holds_lease t.run.id w'.now sys.store ≡ true) where
  stranded_admission :
      let sys' = (admit_and_produce w t sys).1 in
      ((admit_and_produce w t sys).0 ≡ failed redis_failed)
      × (sys'.queue ≡ sys.queue)
      × (admit_task t.run.id t.id t.run.max_links w'.now sys'.store ≡ (duplicate, sys'.store))
      × IsKnown t sys'.store
  unfolding admit_and_produce after_admission call admit_task holds_lease
  stranded_admission = ground (
    arith,
    ==_refl t.run.id,
    lookup-insert t.id t.id queued (sys.store.runs t.run.id).tasks,
    ==_refl t.id,
  )

duplicate_again :
    (w : Weather) (t : Task) (sys : System)
    → w.admitting ≡ answered
    → admit_task t.run.id t.id t.run.max_links w.now sys.store ≡ (duplicate, sys.store)
    → admit_and_produce w t sys ≡ (sent, sys)
unfolding admit_and_produce after_admission call
duplicate_again w t sys answers again =
    rw (answers, admit_and_produce) (rw (again, after_admission) refl)

send_task_lem :
    (net : NetUrl) (digest : Text → Text) (w : Weather) (t : Task) (url : Text) (sys : System)
    → t.current_depth < t.run.max_depth
    → canonical net t.url none ≡ some url
    → send_task net digest w t sys
      ≡ admit_and_produce w (ensure_id digest (record t { url = url })) sys
unfolding send_task
send_task_lem net digest w t url sys shallow good =
    rw (not_deep shallow) (rw (good, send_task) refl)
  where
    not_deep : t.current_depth < t.run.max_depth → leb t.run.max_depth t.current_depth ≡ false
    not_deep h = ground arith

-- Where Redis executes the admission of a new task of an active run with room, but its answer is lost,
-- `SendTask` reports a failure and has queued nothing; and when the same task is sent again while the
-- run holds its slot, Redis answers that it is a duplicate: `SendTask` then reports success, although
-- the task is still not queued.
pub send_task-stranded :
    (net : NetUrl) (digest : Text → Text) (w w' : Weather) (t : Task) (url : Text) (sys : System)
    → t.current_depth < t.run.max_depth
    → canonical net t.url none ≡ some url
    → let t' = ensure_id digest (record t { url = url }) in
      holds_lease t'.run.id w.now sys.store ≡ true
      → lookup t'.id (sys.store.runs t'.run.id).tasks ≡ none
      → at_least t'.run.max_links (sys.store.runs t'.run.id).current_links ≡ false
      → w.admitting ≡ lost
      → w'.admitting ≡ answered
      → holds_lease t'.run.id w'.now sys.store ≡ true
      → let (first, sys') = send_task net digest w t sys in
        let (second, sys'') = send_task net digest w' t sys' in
        (first ≡ failed redis_failed)
        × (second ≡ sent)
        × (sys''.queue ≡ sys.queue)
        × IsKnown t' sys''.store
send_task-stranded net digest w w' t url sys shallow good held new room unanswered answers still =
    let t' = ensure_id digest (record t { url = url }) in
    let (first, same, again, known) =
      stranded_admission w w' t' sys held new room unanswered answers still in
    rw (send_task_lem net digest w t url sys shallow good) (
      rw (send_task_lem net digest w' t url (admit_and_produce w t' sys).1 shallow good) (
        rw (duplicate_again w' t' (admit_and_produce w t' sys).1 answers again)
          (first, refl, same, known)))
