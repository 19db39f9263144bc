-- ===== src/Indexing/Shards.antt =====
-- internal/indexing/sink_async.go: the queue in front of the indexing. A channel is the list of what it
-- holds; the goroutines are steps of the whole, in any order. `hash` is FNV-1a of 32 bits.
use project_arachne.Prelude.{
  ℕ, ◌+◌, ◌-◌, ◌/◌, ◌%◌, ◌^◌, max, List, [], ◌∷◌, ◌++◌, Bool, true, false, Option, none, some, ltb,
  if◌then◌else◌, ◌==◌, nat_eq, length, Text,
}
use project_arachne.Documents.{Document}

pub record Sink : Type 0 where
  -- The length of `shards`, and the capacity of each.
  pub workers : ℕ
  pub per_shard : ℕ
  pub shards : ℕ → List Document
  pub closed : Bool
  pub dropped : ℕ
  pub failed : ℕ
  pub abandoned : ℕ
  -- What `Submit` took and what the sink behind was given, in the order of time.
  pub accepted : List Document
  pub processed : List Document

unfoldable pub new_async_sink : ℕ → ℕ → Sink
new_async_sink workers queue_size =
    let n = max workers 1 in
    record {
      workers = n;
      per_shard = max ((queue_size + n - 1) / n) 1;
      shards = λ i. [];
      closed = false;
      dropped = 0;
      failed = 0;
      abandoned = 0;
      accepted = [];
      processed = [];
    }

unfoldable pub shard_of : (Text → ℕ) → Text → ℕ → ℕ
shard_of hash url n = hash url % (n % 2 ^ 32)

-- Which case of `select` goes on, where the shard has room or gets it in time or does not.
pub data Pick : Type 0 where
  sends closes times_out is_cancelled : Pick

pub data Taken : Type 0 where
  accepts nil_document sink_closed queue_full cancelled : Taken

unfoldable pub put_shard : ℕ → List Document → Sink → Sink
put_shard i queue s = record s { shards = λ j. if j == i then queue else s.shards j }

unfoldable pub drop_document : Sink → Sink
drop_document s = record s { dropped = s.dropped + 1 }

unfoldable pub enqueue : ℕ → Document → Sink → Sink
enqueue i doc s = record (put_shard i (s.shards i ++ doc ∷ []) s) {
  accepted = s.accepted ++ doc ∷ [];
}

-- A send to a full shard is none: it waits until the time is over.
unfoldable pub select_case : (Text → ℕ) → Pick → Document → Sink → Taken × Sink
select_case hash sends doc s =
    let i = shard_of hash doc.url s.workers in
    if ltb (length (s.shards i)) s.per_shard
    then (accepts, enqueue i doc s)
    else (queue_full, drop_document s)
select_case hash closes doc s = (sink_closed, s)
select_case hash times_out doc s = (queue_full, drop_document s)
select_case hash is_cancelled doc s = (cancelled, s)

unfoldable pub submit_document : (Text → ℕ) → Pick → Option Document → Sink → Taken × Sink
submit_document hash pick none s = (nil_document, s)
submit_document hash pick (some doc) s =
    if s.closed then (sink_closed, s) else select_case hash pick doc s

-- How `Submit` of the inner sink ends, in `process`.
pub data Processing : Type 0 where
  succeeds fails fails_in_shutdown : Processing

unfoldable pub count : Processing → Sink → Sink
count succeeds s = s
count fails s = record s { failed = s.failed + 1 }
count fails_in_shutdown s = record s { abandoned = s.abandoned + 1 }

unfoldable pub process : Processing → Document → Sink → Sink
process p doc s = count p (record s { processed = s.processed ++ doc ∷ [] })

unfoldable pub take_from : Processing → ℕ → List Document → Sink → Sink
take_from p i [] s = s
take_from p i (doc ∷ queue) s = process p doc (put_shard i queue s)

-- One turn of the worker of a shard, before and after the sink is closed.
unfoldable pub work : Processing → ℕ → Sink → Sink
work p i s = take_from p i (s.shards i) s

unfoldable pub close : Sink → Sink
close s = record s { closed = true }

pub data Move : Type 0 where
  submits : Pick → Option Document → Move
  works : Processing → ℕ → Move
  shuts_down : Move

unfoldable pub move : (Text → ℕ) → Move → Sink → Sink
move hash (submits pick doc) s = (submit_document hash pick doc s).1
move hash (works p i) s = work p i s
move hash shuts_down s = close s

unfoldable pub run_moves : (Text → ℕ) → List Move → Sink → Sink
run_moves hash [] s = s
run_moves hash (m ∷ moves) s = run_moves hash moves (move hash m s)
