-- ===== src/Queue/Commit.antt =====
-- internal/processor/queue/kafka_queue.go: what the committer and the rebalance callbacks do with
-- the offset tracker. The broker's answer to `CommitRecords` is the Boolean argument `accepted`.
use project_arachne.Prelude.{
  In, map, Eq, ◌==◌, Bool-cases, inl, inr, arith, ==_refl, lookup-delete, lookup-insert, delete,
  ◌∙◌, refl, none, ℕ, ◌≡◌, List, [], ◌∷◌, Bool, true, false, none, some, pair_eq, list_eq, nat_eq,
  lookup, Text,
}
use project_arachne.Queue.Offsets.{
  Record, OffsetTracker, partition_of, take, restore, restore_all, restore_one, release,
  release_all, release_one,
}

-- The records that reach the broker, and the tracker behind the call.
unfoldable pub commit : Bool → List Record → OffsetTracker → List Record × OffsetTracker
commit accepted [] t = ([], t)
commit true (r ∷ records) t = (r ∷ records, t)
commit false (r ∷ records) t = ([], restore (r ∷ records) t)

-- One tick of `runCommitter`, or its last round when the queue stops.
unfoldable pub commit_tick : Bool → OffsetTracker → List Record × OffsetTracker
commit_tick accepted t = let (records, t') = take t in commit accepted records t'

unfoldable pub on_revoked :
    Bool → List (Text × List ℕ) → OffsetTracker → List Record × OffsetTracker
on_revoked accepted revoked t = let (records, t') = release revoked t in commit accepted records t'

unfoldable pub on_lost : List (Text × List ℕ) → OffsetTracker → OffsetTracker
on_lost lost t = (release lost t).1

lookup-In :
    {K V : Type 0} ⦃e : Eq K⦄ (k : K) (v : V) (m : List (K × V))
    → lookup k m ≡ some v
    → In v (map (λ e. e.1) m)
unfolding lookup
lookup-In k v [] h = absurd (ground arith)
lookup-In k v ((j, w) ∷ m) h = elim (Bool-cases (j == k)) [
  | inl hit ↦ inl (ground arith)
  | inr miss ↦ inr (lookup-In k v m (ground arith))
]

commit_tick-In :
    (t : OffsetTracker) (r : Record)
    → lookup (partition_of r) t.committed ≡ some r
    → In r (commit_tick true t).0
unfolding commit_tick take commit
commit_tick-In t r h =
    sends (map (λ e. e.1) t.committed) (lookup-In (partition_of r) r t.committed h)
  where
    sends : (records : List Record) → In r records → In r (commit true records (take t).1).0
    sends [] h = absurd h
    sends (x ∷ records) h = h

revoked_restored :
    (t : OffsetTracker) (r : Record)
    → lookup (partition_of r) t.committed ≡ some r
    → lookup (partition_of r) (on_revoked false ((r.topic, r.partition ∷ []) ∷ []) t).1.committed
      ≡ some r
unfolding on_revoked commit release release_all release_one restore restore_all restore_one
revoked_restored t r h =
    let tp = partition_of r in
    let gone : lookup tp (delete tp t.committed) ≡ none =
      lookup-delete tp tp t.committed ∙ rw (==_refl tp) refl in
    rw (h, on_revoked, release, release_all, release_one, commit, restore, restore_all)
      (rw (gone, restore_one)
        (lookup-insert tp tp r (delete tp t.committed) ∙ rw (==_refl tp) refl))

-- If a partition with a commit point is revoked and the commit of its record fails, the commit point is
-- put back, although the consumer no longer owns the partition, and a tick of the committer right
-- behind it sends that record to the broker, if the broker then accepts it.
pub on_revoked-restores :
    (t : OffsetTracker) (r : Record)
    → lookup (partition_of r) t.committed ≡ some r
    → let t' = (on_revoked false ((r.topic, r.partition ∷ []) ∷ []) t).1 in
      (lookup (partition_of r) t'.committed ≡ some r) × In r (commit_tick true t').0
on_revoked-restores t r h =
    let back = revoked_restored t r h in
    (back, commit_tick-In (on_revoked false ((r.topic, r.partition ∷ []) ∷ []) t).1 r back)
