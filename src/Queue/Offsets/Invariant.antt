-- ===== src/Queue/Offsets/Invariant.antt =====
-- The invariant of the tracker in internal/processor/queue/offsets.go, kept by each of its methods.
use project_arachne.Prelude.{
  ◌≡◌, refl, sym, ◌∙◌, subst, inl, inr, List, [], ◌∷◌, false, arith, ltb, ◌==◌, ==_iff, ==_refl,
  ==_false_sym, pair_eq, list_eq, nat_eq, All, All-mono, All-append, Bool-cases, Option-cases,
  lookup, insert, insert-All, delete-All,
}
use project_arachne.Queue.Offsets.{
  TopicPartition, Record, TrackedRecord, OffsetTracker, partition_of, update, new_offset_tracker,
  pending, track, mark, advance, done, take, restore_one, restore_all, restore, partitions_of,
  release_one, release_all, release,
}
use project_arachne.Queue.Offsets.Log.{
  drop_done, Committable, Lacks, Distinct, mark-Distinct, append-Distinct, drop_done-append,
  drop_done-mark, Committable-append, Committable-mark, Committable-drop_done,
}
use project_arachne.Queue.Offsets.History.{
  Event, delivered, acked, taken, restored, released, step, run, Logs, empty_logs, clear, log_step,
  log_run, IsDue, IsLegal, AreLegal, Entry, Inv,
}

pub advance-drop_done :
    (tp : TopicPartition) (queue : List TrackedRecord) (m : List (TopicPartition × Record))
    → (advance tp queue m).0 ≡ drop_done queue
unfolding advance drop_done
advance-drop_done tp [] m = refl
advance-drop_done tp (x ∷ queue) m = ground (arith, advance-drop_done tp queue (insert tp x.item m))

advance-All {ℓ} :
    (P : TopicPartition × Record → Type ℓ) (tp : TopicPartition) (queue : List TrackedRecord)
    (m : List (TopicPartition × Record))
    → ((r : Record) → Committable r queue → P (tp, r))
    → All P m
    → All P (advance tp queue m).1
unfolding advance
advance-All P tp [] m f h = h
advance-All P tp (x ∷ queue) m f h = elim (Bool-cases x.is_done) [
  | inl finished ↦
      rw (finished, advance)
        (advance-All P tp queue (insert tp x.item m) (λ r c. f r (finished, inr c))
          (insert-All P tp x.item m (f x.item (finished, inl refl)) h))
  | inr waiting ↦ rw (waiting, advance) h
]

-- What holds at the key that was assigned and at all others holds everywhere.
pub update_elim {ℓ} :
    {A : Type 0} (P : TopicPartition → A → Type ℓ) (f : TopicPartition → A) (k : TopicPartition)
    (v : A)
    → P k v
    → ((j : TopicPartition) → P j (f j))
    → (j : TopicPartition) → P j (update f k v j)
update_elim {A} P f k v new old j = elim (Bool-cases (k == j)) [
  | inl hit ↦ rw hit (subst (λ i. P i v) ((==_iff k j).0 hit) new)
  | inr miss ↦ rw miss (old j)
]

update_self :
    {A : Type 0} (f : TopicPartition → A) (k : TopicPartition) (v : A) → update f k v k ≡ v
update_self f k v = rw (==_refl k)

update_other :
    {A : Type 0} (f : TopicPartition → A) (k : TopicPartition) (v : A) (j : TopicPartition)
    → (k == j) ≡ false
    → update f k v j ≡ f j
update_other f k v j miss = rw miss

-- An assignment to the logs that keeps what was committable keeps the entries.
due_mono :
    (logs : Logs) (k : TopicPartition) (v : List TrackedRecord) (m : List (TopicPartition × Record))
    → ((r : Record) → Committable r (logs k) → Committable r v)
    → All (Entry logs) m
    → All (Entry (update logs k v)) m
due_mono logs k v m keep = All-mono (Entry logs) (Entry (update logs k v)) m λ e (at, c). (
  at,
  update_elim (λ j l. Committable e.1 (logs j) → Committable e.1 l) logs k v (keep e.1) (λ j c'. c')
      (partition_of e.1) c,
)

-- The same assignment on both sides keeps the tracker's lists the rests of the logs.
rest_update :
    (f : TopicPartition → List TrackedRecord) (logs : Logs) (k : TopicPartition)
    (a v : List TrackedRecord)
    → a ≡ drop_done v
    → ((j : TopicPartition) → f j ≡ drop_done (logs j))
    → (j : TopicPartition) → update f k a j ≡ drop_done (update logs k v j)
rest_update f logs k a v e h j = elim (Bool-cases (k == j)) [
  | inl hit ↦ rw hit e
  | inr miss ↦ rw miss (h j)
]

track-Inv :
    (r : Record) (logs : Logs) (t : OffsetTracker)
    → Lacks r.id (logs (partition_of r))
    → Inv logs t
    → Inv (log_step (delivered r) logs) (track r t)
unfolding track log_step
track-Inv r logs t fresh v =
    let tp = partition_of r in
    record {
      in_flight_rest =
          rest_update t.in_flight logs tp _ _
            (rw (v.in_flight_rest tp) (sym (drop_done-append (logs tp) r))) v.in_flight_rest;
      distinct =
          update_elim (λ j l. Distinct l) logs tp _
            (append-Distinct (logs tp) r (v.distinct tp) fresh) v.distinct;
      placed =
          update_elim (λ j l. All (λ x. partition_of x.item ≡ j) l) logs tp _
            (All-append _ (logs tp) (pending r ∷ []) (v.placed tp) (refl, tt)) v.placed;
      due = due_mono logs tp _ t.committed (λ s. Committable-append s r (logs tp)) v.due;
    }

mark-placed :
    (tp : TopicPartition) (r : Record) (log : List TrackedRecord)
    → All (λ x. partition_of x.item ≡ tp) log
    → All (λ x. partition_of x.item ≡ tp) (mark r log)
unfolding mark
mark-placed tp r [] h = tt
mark-placed tp r (x ∷ log) h = elim (Bool-cases (x.item.id == r.id)) [
  | inl hit ↦ rw hit h
  | inr miss ↦ rw miss (h.0, mark-placed tp r log h.1)
]

Committable-placed :
    (tp : TopicPartition) (r : Record) (log : List TrackedRecord)
    → All (λ x. partition_of x.item ≡ tp) log
    → Committable r log
    → partition_of r ≡ tp
Committable-placed tp r [] h c = absurd c
Committable-placed tp r (x ∷ log) h (d, inl e) = subst (λ s. partition_of s ≡ tp) e h.0
Committable-placed tp r (x ∷ log) h (d, inr c) = Committable-placed tp r log h.1 c

done-Inv :
    (r : Record) (logs : Logs) (t : OffsetTracker)
    → Inv logs t
    → Inv (log_step (acked r) logs) (done r t)
unfolding done log_step
done-Inv r logs t v =
    let tp = partition_of r in
    let log' = mark r (logs tp) in
    let placed' = mark-placed tp r (logs tp) (v.placed tp) in
    record {
      in_flight_rest =
          rest_update t.in_flight logs tp _ log'
            (advance-drop_done tp _ t.committed
              ∙ rw (v.in_flight_rest tp) (drop_done-mark r (logs tp) (v.distinct tp)))
            v.in_flight_rest;
      distinct =
          update_elim (λ j l. Distinct l) logs tp log' (mark-Distinct r (logs tp) (v.distinct tp))
            v.distinct;
      placed =
          update_elim (λ j l. All (λ x. partition_of x.item ≡ j) l) logs tp log' placed' v.placed;
      due =
          advance-All (Entry (update logs tp log')) tp (mark r (t.in_flight tp)) t.committed
            (λ s c.
              let c' =
                Committable-drop_done s r (logs tp) (v.distinct tp)
                  (subst (λ l. Committable s (mark r l)) (v.in_flight_rest tp) c) in
              let at = Committable-placed tp s log' placed' c' in
              (
                at,
                subst (λ j. Committable s (update logs tp log' j)) (sym at)
                    (subst (Committable s) (sym (update_self logs tp log')) c'),
              ))
            (due_mono logs tp log' t.committed (λ s. Committable-mark s r (logs tp)) v.due);
    }

take-Inv : (logs : Logs) (t : OffsetTracker) → Inv logs t → Inv logs (take t).1
unfolding take
take-Inv logs t v = record {
  in_flight_rest = v.in_flight_rest;
  distinct = v.distinct;
  placed = v.placed;
  due = tt;
}

restore_one-All {ℓ} :
    (P : TopicPartition × Record → Type ℓ) (r : Record) (m : List (TopicPartition × Record))
    → P (partition_of r, r)
    → All P m
    → All P (restore_one r m)
unfolding restore_one
restore_one-All P r m p h = elim (Option-cases (lookup (partition_of r) m)) [
  | inl e ↦ rw (e, restore_one) (insert-All P (partition_of r) r m p h)
  | inr (newer, e) ↦ elim (Bool-cases (ltb newer.offset r.offset)) [
    | inl later ↦ rw (e, restore_one) (rw later (insert-All P (partition_of r) r m p h))
    | inr not_later ↦ rw (e, restore_one) (rw not_later h)
  ]
]

restore_all-All :
    (logs : Logs) (records : List Record) (m : List (TopicPartition × Record))
    → All (IsDue logs) records
    → All (Entry logs) m
    → All (Entry logs) (restore_all records m)
unfolding restore_all
restore_all-All logs [] m p h = h
restore_all-All logs (r ∷ records) m p h =
    restore_all-All logs records (restore_one r m) p.1
      (restore_one-All (Entry logs) r m (refl, p.0) h)

restore-Inv :
    (records : List Record) (logs : Logs) (t : OffsetTracker)
    → All (IsDue logs) records
    → Inv logs t
    → Inv logs (restore records t)
unfolding restore
restore-Inv records logs t p v = record {
  in_flight_rest = v.in_flight_rest;
  distinct = v.distinct;
  placed = v.placed;
  due = restore_all-All logs records t.committed p v.due;
}

pub release_one-Inv :
    (tp : TopicPartition) (logs : Logs) (t : OffsetTracker)
    → Inv logs t
    → Inv (update logs tp []) (release_one tp t).1
unfolding release_one
release_one-Inv tp logs t v = record {
  in_flight_rest =
      rest_update t.in_flight logs tp [] [] (unfold drop_done in refl) v.in_flight_rest;
  distinct = update_elim (λ j l. Distinct l) logs tp [] tt v.distinct;
  placed = update_elim (λ j l. All (λ x. partition_of x.item ≡ j) l) logs tp [] tt v.placed;
  due =
      delete-All (Entry logs) (Entry (update logs tp [])) tp t.committed
        (λ j r other (at, c). (
          at,
          subst (Committable r)
              (sym (
                update_other logs tp [] (partition_of r)
                  (==_false_sym _ tp (subst (λ i. (i == tp) ≡ false) (sym at) other))))
              c,
        ))
        v.due;
}

release_all-Inv :
    (tps : List TopicPartition) (logs : Logs) (t : OffsetTracker)
    → Inv logs t
    → Inv (clear tps logs) (release_all tps t).1
unfolding release_all clear
release_all-Inv [] logs t v = v
release_all-Inv (tp ∷ tps) logs t v =
    release_all-Inv tps (update logs tp []) (release_one tp t).1 (release_one-Inv tp logs t v)

pub step-Inv :
    (e : Event) (logs : Logs) (t : OffsetTracker)
    → IsLegal e logs
    → Inv logs t
    → Inv (log_step e logs) (step e t).1
unfolding step log_step
step-Inv (delivered r) logs t fresh v = unfold log_step in track-Inv r logs t fresh v
step-Inv (acked r) logs t legal v = done-Inv r logs t v
step-Inv taken logs t legal v = take-Inv logs t v
step-Inv (restored records) logs t legal v = restore-Inv records logs t legal v
step-Inv (released partitions) logs t legal v =
    unfold release in release_all-Inv (partitions_of partitions) logs t v

pub run-Inv :
    (es : List Event) (logs : Logs) (t : OffsetTracker)
    → AreLegal es logs
    → Inv logs t
    → Inv (log_run es logs) (run es t)
unfolding run log_run
run-Inv [] logs t legal v = v
run-Inv (e ∷ es) logs t legal v =
    run-Inv es (log_step e logs) (step e t).1 legal.1 (step-Inv e logs t legal.0 v)

pub new-Inv : Inv empty_logs new_offset_tracker
unfolding new_offset_tracker drop_done
new-Inv = record { in_flight_rest = λ tp. refl; distinct = λ tp. tt; placed = λ tp. tt; due = tt }

pub history-Inv :
    (es : List Event)
    → AreLegal es empty_logs
    → Inv (log_run es empty_logs) (run es new_offset_tracker)
history-Inv es legal = run-Inv es empty_logs new_offset_tracker legal new-Inv
