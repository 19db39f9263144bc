-- ===== src/Queue/Offsets/Newest.antt =====
-- The commit point of internal/processor/queue/offsets.go is as new as it may be: it stands on the
-- last record of the finished front.
use mathlib.Core.Option
use project_arachne.Prelude.{
  ◌≡◌, refl, sym, ◌∙◌, ap, subst, inl, inr, List, [], ◌∷◌, ◌++◌, true, false, Option, none, some,
  arith, ◌==◌, ==_iff, ==_refl, pair_eq, list_eq, nat_eq, All, Bool-cases, lookup, insert,
  lookup-insert, last?,
}
use project_arachne.Queue.Offsets.{
  TopicPartition, Record, TrackedRecord, OffsetTracker, partition_of, update, new_offset_tracker,
  pending, track, mark, advance, done,
}
use project_arachne.Queue.Offsets.Log.{drop_done, Distinct, mark_absent, drop_done-Lacks}
use project_arachne.Queue.Offsets.History.{
  Event, delivered, acked, taken, restored, released, step, run, Logs, empty_logs, log_step,
  log_run, AreLegal, Inv,
}
use project_arachne.Queue.Offsets.Invariant.{update_elim, history-Inv, step-Inv, new-Inv}

-- The last record of the finished front of a log, and the given one if that front is empty.
newest : List TrackedRecord → Option Record → Option Record
newest [] d = d
newest (x ∷ log) d = elim x.is_done [ true ↦ newest log (some x.item) | false ↦ d ]

-- The last record of a log.
abbrev pub last_item : List TrackedRecord → Option Record
last_item log = Option.map (λ x. x.item) (last? log)

advance-newest :
    (tp : TopicPartition) (queue : List TrackedRecord) (m : List (TopicPartition × Record))
    → lookup tp (advance tp queue m).1 ≡ newest queue (lookup tp m)
unfolding advance newest
advance-newest tp [] m = refl
advance-newest tp (x ∷ queue) m = elim (Bool-cases x.is_done) [
  | inl finished ↦
      rw (finished, advance, newest)
        (advance-newest tp queue (insert tp x.item m)
          ∙ ap (newest queue) (lookup-insert tp tp x.item m ∙ rw (==_refl tp) refl))
  | inr waiting ↦ rw (waiting, advance, newest)
]

-- Under `Distinct`, an acknowledgement moves the newest record on from where it was.
newest-mark :
    (r : Record) (log : List TrackedRecord) (d : Option Record)
    → Distinct log
    → newest (mark r log) d ≡ newest (mark r (drop_done log)) (newest log d)
unfolding newest mark drop_done
newest-mark r [] d h = refl
newest-mark r (x ∷ log) d h = ground (
  arith,
  newest-mark r log (some x.item) h.1,
  mark_absent r (drop_done log),
  drop_done-Lacks x.item.id log h.0,
  newest-drop_done log (newest log (some x.item)),
)
  where
    newest-drop_done : (l : List TrackedRecord) (e : Option Record) → newest (drop_done l) e ≡ e
    newest-drop_done [] e = refl
    newest-drop_done (y ∷ l) e = ground (arith, newest-drop_done l e)

newest-append :
    (log : List TrackedRecord) (r : Record) (d : Option Record)
    → newest (log ++ pending r ∷ []) d ≡ newest log d
unfolding newest
newest-append [] r d = refl
newest-append (x ∷ log) r d = ground (arith, newest-append log r (some x.item))

advance_other :
    (tp j : TopicPartition) (queue : List TrackedRecord) (m : List (TopicPartition × Record))
    → (tp == j) ≡ false
    → lookup j (advance tp queue m).1 ≡ lookup j m
unfolding advance
advance_other tp j [] m miss = refl
advance_other tp j (x ∷ queue) m miss = elim (Bool-cases x.is_done) [
  | inl finished ↦
      rw (finished, advance)
        (advance_other tp j queue (insert tp x.item m) miss
          ∙ lookup-insert tp j x.item m
          ∙ rw miss refl)
  | inr waiting ↦ rw (waiting, advance)
]

-- Every commit point stands on the last record of the finished front.
abbrev IsNewest : Logs → OffsetTracker → Type 0
IsNewest logs t = (tp : TopicPartition) → lookup tp t.committed ≡ newest (logs tp) none

-- Nothing is taken, restored or released.
abbrev pub IsWork : Event → Type 0
IsWork (delivered r) = Unit {0}
IsWork (acked r) = Unit {0}
IsWork _ = ⊥

done-newest :
    (r : Record) (logs : Logs) (t : OffsetTracker)
    → Inv logs t
    → IsNewest logs t
    → lookup (partition_of r) (done r t).committed ≡ newest (mark r (logs (partition_of r))) none
unfolding done
done-newest r logs t v h =
    let tp = partition_of r in
    advance-newest tp (mark r (t.in_flight tp)) t.committed
    ∙ rw (v.in_flight_rest tp, h tp) (sym (newest-mark r (logs tp) none (v.distinct tp)))

done-IsNewest :
    (r : Record) (logs : Logs) (t : OffsetTracker)
    → Inv logs t
    → IsNewest logs t
    → IsNewest (update logs (partition_of r) (mark r (logs (partition_of r)))) (done r t)
done-IsNewest r logs t v h j = elim (Bool-cases (partition_of r == j)) [
  | inl hit ↦
      subst
        (λ i.
          lookup i (done r t).committed
          ≡ newest (update logs (partition_of r) (mark r (logs (partition_of r))) i) none)
        ((==_iff (partition_of r) j).0 hit)
        (rw (==_refl (partition_of r)) (done-newest r logs t v h))
  | inr miss ↦ rw miss (unfold done in advance_other (partition_of r) j _ t.committed miss ∙ h j)
]

step-IsNewest :
    (e : Event) (logs : Logs) (t : OffsetTracker)
    → IsWork e
    → Inv logs t
    → IsNewest logs t
    → IsNewest (log_step e logs) (step e t).1
unfolding step log_step
step-IsNewest (delivered r) logs t w v h =
    unfold track in
    update_elim (λ j l. lookup j t.committed ≡ newest l none) logs (partition_of r) _
      (h (partition_of r) ∙ sym (newest-append (logs (partition_of r)) r none)) h
step-IsNewest (acked r) logs t w v h = done-IsNewest r logs t v h
step-IsNewest taken logs t w v h = absurd w
step-IsNewest (restored records) logs t w v h = absurd w
step-IsNewest (released partitions) logs t w v h = absurd w

newest-last :
    (x : TrackedRecord) (log : List TrackedRecord) (d : Option Record)
    → All (λ y. y.is_done ≡ true) (x ∷ log)
    → newest (x ∷ log) d ≡ last_item (x ∷ log)
unfolding newest
newest-last x [] d h = ground arith
newest-last x (y ∷ log) d h = ground (arith, newest-last y log (some x.item) h.1)

abbrev pub AreWork : List Event → Type 0
AreWork = All IsWork

run-IsNewest :
    (es : List Event) (logs : Logs) (t : OffsetTracker)
    → AreWork es
    → AreLegal es logs
    → Inv logs t
    → IsNewest logs t
    → IsNewest (log_run es logs) (run es t)
unfolding run log_run
run-IsNewest [] logs t w legal v h = h
run-IsNewest (e ∷ es) logs t w legal v h =
    run-IsNewest es (log_step e logs) (step e t).1 w.1 legal.1 (step-Inv e logs t legal.0 v)
      (step-IsNewest e logs t w.0 v h)

drop_done-nil : (log : List TrackedRecord) → All (λ x. x.is_done ≡ true) log → drop_done log ≡ []
unfolding drop_done
drop_done-nil [] h = refl
drop_done-nil (x ∷ log) h = ground (arith, drop_done-nil log h.1)

newest-last_item :
    (log : List TrackedRecord) → All (λ x. x.is_done ≡ true) log → newest log none ≡ last_item log
newest-last_item [] h = unfold newest in refl
newest-last_item (x ∷ log) h = newest-last x log none h

-- However the acknowledgements are ordered, and while nothing is taken, restored or released: once
-- every delivered record of a partition is acknowledged, nothing of it is in flight and its commit
-- point is the last delivered record.
pub committed-last_item :
    (es : List Event) (tp : TopicPartition)
    → AreWork es
    → AreLegal es empty_logs
    → All (λ x. x.is_done ≡ true) (log_run es empty_logs tp)
    → ((run es new_offset_tracker).in_flight tp ≡ [])
      × (lookup tp (run es new_offset_tracker).committed ≡ last_item (log_run es empty_logs tp))
committed-last_item es tp work legal finished = (
  (history-Inv es legal).in_flight_rest tp ∙ drop_done-nil _ finished,
  run-IsNewest es empty_logs new_offset_tracker work legal new-Inv new-IsNewest tp
      ∙ newest-last_item _ finished,
)
  where
    new-IsNewest : IsNewest empty_logs new_offset_tracker
    new-IsNewest j = unfold new_offset_tracker newest lookup in refl
