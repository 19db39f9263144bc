-- ===== src/Queue/Offsets/Restoring.antt =====
-- `restore` of internal/processor/queue/offsets.go: a restored commit never replaces a newer one.
use project_arachne.Prelude.{
  ℕ, ◌≤◌, ◌≡◌, refl, sym, ◌∙◌, ap, subst, inl, inr, List, [], ◌∷◌, Option, none, some, arith, ltb,
  if◌then◌else◌, ◌==◌, ==_iff, ==_refl, pair_eq, list_eq, nat_eq, All, Bool-cases, Option-cases,
  lookup, lookup-insert,
}
use project_arachne.Queue.Offsets.{
  TopicPartition, Record, OffsetTracker, partition_of, restore_one, restore_all, restore,
}

-- The commit point of the partition is at this offset or behind it.
abbrev pub AtLeast : ℕ → TopicPartition → List (TopicPartition × Record) → Type 0
AtLeast n tp m = (u : Record) × (lookup tp m ≡ some u) × (n ≤ u.offset)

newer_of : Record → Option Record → Record
newer_of r none = r
newer_of r (some s) = if ltb s.offset r.offset then r else s

le-newer_of : (r : Record) (o : Option Record) → r.offset ≤ (newer_of r o).offset
unfolding newer_of
le-newer_of r none = omega arith
le-newer_of r (some s) = ground arith

restore_one-lookup :
    (r : Record) (tp : TopicPartition) (m : List (TopicPartition × Record))
    → lookup tp (restore_one r m) ≡ (
        if partition_of r == tp then some (newer_of r (lookup (partition_of r) m)) else lookup tp m)
unfolding restore_one newer_of
restore_one-lookup r tp m = elim (Option-cases (lookup (partition_of r) m)) [
  | inl e ↦ rw (e, restore_one, newer_of) (lookup-insert (partition_of r) tp r m)
  | inr (s, e) ↦ elim (Bool-cases (ltb s.offset r.offset)) [
    | inl later ↦ rw (e, restore_one, newer_of) (rw later (lookup-insert (partition_of r) tp r m))
    | inr older ↦
        rw (e, restore_one, newer_of)
          (rw older (elim (Bool-cases (partition_of r == tp)) [
            | inl hit ↦
                rw hit (subst (λ j. lookup j m ≡ some s) ((==_iff (partition_of r) tp).0 hit) e)
            | inr miss ↦ rw miss
          ]))
  ]
]

restore_one-keeps :
    (r : Record) (n : ℕ) (tp : TopicPartition) (m : List (TopicPartition × Record))
    → AtLeast n tp m
    → AtLeast n tp (restore_one r m)
restore_one-keeps r n tp m (s, e, le) = elim (Bool-cases (partition_of r == tp)) [
  | inl hit ↦ (
    newer_of r (some s),
    restore_one-lookup r tp m
        ∙ rw hit (
            ap (λ o. some (newer_of r o))
              (subst (λ j. lookup j m ≡ some s) (sym ((==_iff (partition_of r) tp).0 hit)) e)),
    unfold newer_of in ground arith,
  )
  | inr miss ↦ (s, restore_one-lookup r tp m ∙ rw miss e, le)
]

restore_one-adds :
    (r : Record) (m : List (TopicPartition × Record))
    → AtLeast r.offset (partition_of r) (restore_one r m)
restore_one-adds r m = (
  newer_of r (lookup (partition_of r) m),
  restore_one-lookup r (partition_of r) m ∙ rw (==_refl (partition_of r)) refl,
  le-newer_of r (lookup (partition_of r) m),
)

restore_all-keeps :
    (records : List Record) (n : ℕ) (tp : TopicPartition) (m : List (TopicPartition × Record))
    → AtLeast n tp m
    → AtLeast n tp (restore_all records m)
unfolding restore_all
restore_all-keeps [] n tp m h = h
restore_all-keeps (r ∷ records) n tp m h =
    restore_all-keeps records n tp (restore_one r m) (restore_one-keeps r n tp m h)

restore_all-adds :
    (records : List Record) (m : List (TopicPartition × Record))
    → All (λ r. AtLeast r.offset (partition_of r) (restore_all records m)) records
unfolding restore_all
restore_all-adds [] m = tt
restore_all-adds (r ∷ records) m = (
  restore_all-keeps records r.offset (partition_of r) (restore_one r m) (restore_one-adds r m),
  restore_all-adds records (restore_one r m),
)

-- Restoring failed commits loses none of them and moves no commit point back: for each partition
-- the commit point behind it is at the offset of every restored record of it, or behind that, and
-- wherever there was a commit point before there is one at that offset or behind it.
pub restore-AtLeast :
    (records : List Record) (t : OffsetTracker)
    → All (λ r. AtLeast r.offset (partition_of r) (restore records t).committed) records
      × ((n : ℕ) (tp : TopicPartition)
          → AtLeast n tp t.committed
          → AtLeast n tp (restore records t).committed)
unfolding restore
restore-AtLeast records t =
    (restore_all-adds records t.committed, λ n tp. restore_all-keeps records n tp t.committed)
