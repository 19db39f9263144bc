-- ===== src/Queue/Offsets.antt =====
-- internal/processor/queue/offsets.go: the tracker that decides which offsets may be committed.
-- The mutex makes each method one step. A record's `id` is its address, by which `done` compares
-- records; partitions and offsets are not negative. A missing list of `inFlight` is the empty one.
pub mod Log
pub mod History
pub mod Invariant
pub mod Safety
pub mod Newest
pub mod Restoring
use project_arachne.Prelude.{
  ℕ, ◌≡◌, List, [], ◌∷◌, ◌++◌, map, Bool, true, false, Option, none, some, ltb, if◌then◌else◌, Eq,
  ◌==◌, pair_eq, list_eq, nat_eq, lookup, insert, delete, Text,
}

-- A topic and a partition of it.
abbrev pub TopicPartition : Type 0
TopicPartition = Text × ℕ

pub record Record : Type 0 where
  pub id : ℕ
  pub topic : Text
  pub partition : ℕ
  pub offset : ℕ

pub record TrackedRecord : Type 0 where
  pub item : Record
  pub is_done : Bool

pub record OffsetTracker : Type 0 where
  pub in_flight : TopicPartition → List TrackedRecord
  pub committed : List (TopicPartition × Record)

abbrev pub partition_of : Record → TopicPartition
partition_of r = (r.topic, r.partition)

-- Assignment to a key of `inFlight`.
abbrev pub update : {A : Type 0} → (TopicPartition → A) → TopicPartition → A → TopicPartition → A
update f k v j = if k == j then v else f j

unfoldable pub new_offset_tracker : OffsetTracker
new_offset_tracker = record { in_flight = λ _. []; committed = [] }

abbrev pub pending : Record → TrackedRecord
pending r = record { item = r; is_done = false }

unfoldable pub track : Record → OffsetTracker → OffsetTracker
track r t = record t {
  in_flight = update t.in_flight (partition_of r) (t.in_flight (partition_of r) ++ pending r ∷ []);
}

-- The first loop of `done`: it marks the first entry that holds this very record.
unfoldable pub mark : Record → List TrackedRecord → List TrackedRecord
mark r [] = []
mark r (x ∷ queue) =
    if x.item.id == r.id then record x { is_done = true } ∷ queue else x ∷ mark r queue

-- The second loop: the commit point moves over the finished entries at the front.
unfoldable pub advance :
    TopicPartition
    → List TrackedRecord
    → List (TopicPartition × Record)
    → List TrackedRecord × List (TopicPartition × Record)
advance tp [] committed = ([], committed)
advance tp (x ∷ queue) committed = elim x.is_done [
  | true ↦ advance tp queue (insert tp x.item committed)
  | false ↦ (x ∷ queue, committed)
]

unfoldable pub done : Record → OffsetTracker → OffsetTracker
done r t =
    let (rest, committed) =
      advance (partition_of r) (mark r (t.in_flight (partition_of r))) t.committed in
    record { in_flight = update t.in_flight (partition_of r) rest; committed = committed }

-- The records in the order of the map; Go leaves that order open.
unfoldable pub take : OffsetTracker → List Record × OffsetTracker
take t = (map (λ e. e.1) t.committed, record t { committed = [] })

unfoldable pub restore_one :
    Record → List (TopicPartition × Record) → List (TopicPartition × Record)
restore_one r committed = elim (lookup (partition_of r) committed) [
  | none ↦ insert (partition_of r) r committed
  | some newer ↦
      if ltb newer.offset r.offset then insert (partition_of r) r committed else committed
]

unfoldable pub restore_all :
    List Record → List (TopicPartition × Record) → List (TopicPartition × Record)
restore_all [] committed = committed
restore_all (r ∷ records) committed = restore_all records (restore_one r committed)

unfoldable pub restore : List Record → OffsetTracker → OffsetTracker
restore records t = record t { committed = restore_all records t.committed }

-- The body of the inner loop of `release`.
unfoldable pub release_one : TopicPartition → OffsetTracker → List Record × OffsetTracker
release_one tp t = (
  elim (lookup tp t.committed) [ none ↦ [] | some r ↦ r ∷ [] ],
  record { in_flight = update t.in_flight tp []; committed = delete tp t.committed },
)

-- The partitions as the two loops of `release` meet them.
abbrev pub pairs_of : Text → List ℕ → List TopicPartition
pairs_of topic [] = []
pairs_of topic (p ∷ ps) = (topic, p) ∷ pairs_of topic ps

abbrev pub partitions_of : List (Text × List ℕ) → List TopicPartition
partitions_of [] = []
partitions_of ((topic, ps) ∷ rest) = pairs_of topic ps ++ partitions_of rest

unfoldable pub release_all : List TopicPartition → OffsetTracker → List Record × OffsetTracker
release_all [] t = ([], t)
release_all (tp ∷ tps) t =
    let (out, t') = release_one tp t in let (more, u) = release_all tps t' in (out ++ more, u)

unfoldable pub release : List (Text × List ℕ) → OffsetTracker → List Record × OffsetTracker
release partitions t = release_all (partitions_of partitions) t
