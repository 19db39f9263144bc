-- ===== src/Queue/Producer.antt =====
-- internal/processor/queue/kafka_queue.go: `runProducer`, which batches payloads. The rounds of its loop
-- are an explicit sequence of events, and what the channel still holds at the stop is the argument
-- `buffered`.
use mathlib.Core.List.{flatten}
use project_arachne.Prelude.{
  ℕ, ◌-◌, ◌≤◌, ◌<◌, ◌≡◌, refl, sym, ◌∙◌, ap, List, [], ◌∷◌, ◌++◌, append_assoc, append-nil, arith,
  leb, ltb, if◌then◌else◌, length, length-append, All, All-append, Text, Bool-cases, inl, inr, max,
}

-- A batch of payloads.
abbrev pub Batch : Type 0
Batch = List Text

-- One round of the loop before the stop.
pub data Round : Type 0 where
  item : Text → Round
  ticker : Round

-- The buffer, and the batches that were flushed.
pub record Producer : Type 0 where
  pub items : Batch
  pub flushed : List Batch

unfoldable pub send : Producer → Producer
send p =
    if ltb 0 (length p.items) then record { items = []; flushed = p.flushed ++ p.items ∷ [] } else p

unfoldable pub on_item : ℕ → Text → Producer → Producer
unfolding send
on_item batch_size payload p =
    let p' = record p { items = p.items ++ payload ∷ [] } in
    if leb batch_size (length p'.items) then send p' else p'

unfoldable pub on_round : ℕ → Round → Producer → Producer
on_round batch_size (item payload) p = on_item batch_size payload p
on_round batch_size ticker p = send p

unfoldable pub rounds : ℕ → List Round → Producer → Producer
rounds batch_size [] p = p
rounds batch_size (e ∷ es) p = rounds batch_size es (on_round batch_size e p)

-- The inner loop, behind the stop.
unfoldable pub drain : ℕ → List Text → Producer → Producer
drain batch_size [] p = send p
drain batch_size (payload ∷ rest) p = drain batch_size rest (on_item batch_size payload p)

unfoldable pub run_producer : ℕ → List Round → List Text → List Batch
run_producer batch_size es buffered =
    (drain batch_size buffered (rounds batch_size es (record { items = []; flushed = [] }))).flushed

-- What the channel delivers before the stop.
abbrev pub payloads : List Round → List Text
payloads [] = []
payloads (item payload ∷ es) = payload ∷ payloads es
payloads (ticker ∷ es) = payloads es

-- Everything that the producer has received, in order.
received : Producer → List Text
received p = flatten p.flushed ++ p.items

flatten_snoc : (bs : List Batch) (b : Batch) → flatten (bs ++ b ∷ []) ≡ flatten bs ++ b
unfolding flatten
flatten_snoc [] b = append-nil b
flatten_snoc (c ∷ bs) b = simp (flatten_snoc bs, append_assoc)

received-send : (p : Producer) → received (send p) ≡ received p
unfolding received send
received-send p = elim (Bool-cases (ltb 0 (length p.items))) [
  | inl some_ ↦ rw some_ (append-nil _ ∙ flatten_snoc p.flushed p.items)
  | inr none_ ↦ rw none_
]

appended :
    (p : Producer) (x : Text)
    → received (record p { items = p.items ++ x ∷ [] }) ≡ received p ++ x ∷ []
unfolding received
appended p x = sym (append_assoc (flatten p.flushed) p.items (x ∷ []))

received-on_item :
    (n : ℕ) (x : Text) (p : Producer) → received (on_item n x p) ≡ received p ++ x ∷ []
unfolding on_item
received-on_item n x p =
    let p' : Producer = record p { items = p.items ++ x ∷ [] } in
    let grown : received p' ≡ received p ++ x ∷ [] = appended p x in
    elim (Bool-cases (leb n (length p'.items))) [
      | inl full ↦ rw full (received-send p' ∙ grown)
      | inr room ↦ rw room grown
    ]

received-rounds :
    (n : ℕ) (es : List Round) (p : Producer) → received (rounds n es p) ≡ received p ++ payloads es
unfolding rounds on_round
received-rounds n [] p = sym (append-nil _)
received-rounds n (item x ∷ es) p =
    received-rounds n es (on_item n x p)
    ∙ rw (received-on_item n x p) (append_assoc (received p) (x ∷ []) (payloads es))
received-rounds n (ticker ∷ es) p = received-rounds n es (send p) ∙ rw (received-send p)

items-send : (p : Producer) → (send p).items ≡ []
unfolding send
items-send p = go p.items refl
  where
    go :
        (l : Batch)
        → p.items ≡ l
        → (if ltb 0 (length p.items)
            then record { items = []; flushed = p.flushed ++ p.items ∷ [] }
            else p).items
          ≡ []
    go [] e = ground arith
    go (x ∷ l) e = ground arith

-- Behind a `send` all that was received is flushed.
flushed-send : (p : Producer) → flatten (send p).flushed ≡ received p
unfolding received
flushed-send p =
    sym (append-nil (flatten (send p).flushed))
    ∙ ap (λ l. flatten (send p).flushed ++ l) (sym (items-send p))
    ∙ received-send p

received-drain :
    (n : ℕ) (xs : List Text) (p : Producer) → flatten (drain n xs p).flushed ≡ received p ++ xs
unfolding drain
received-drain n [] p = flushed-send p ∙ sym (append-nil (received p))
received-drain n (x ∷ xs) p =
    received-drain n xs (on_item n x p)
    ∙ rw (received-on_item n x p) (append_assoc (received p) (x ∷ []) xs)

-- Nothing that was sent into the channel is lost, doubled or reordered: the flushed batches are, in
-- order, all that arrived before the stop and all that the channel still held behind it.
pub flatten-run_producer :
    (n : ℕ) (es : List Round) (buffered : List Text)
    → flatten (run_producer n es buffered) ≡ payloads es ++ buffered
unfolding run_producer
flatten-run_producer n es buffered =
    let start : Producer = record { items = []; flushed = [] } in
    received-drain n buffered (rounds n es start)
    ∙ rw (received-rounds n es start) (unfold received flatten in refl)

-- A batch is never empty, and never larger than the batch size (or one payload, at size 0).
abbrev IsBatch : ℕ → Batch → Type 0
IsBatch n b = (0 < length b) × (length b ≤ max n 1)

-- The buffer is below the batch size between the rounds.
record IsBounded (n : ℕ) (p : Producer) : Type 0 where
  room : length p.items ≤ max n 1 - 1
  batches : All (IsBatch n) p.flushed

send-IsBounded :
    (n : ℕ) (p : Producer)
    → length p.items ≤ max n 1
    → All (IsBatch n) p.flushed
    → IsBounded n (send p)
unfolding send
send-IsBounded n p room ok = ground (
  arith,
  λ (h : 0 < length p.items). All-append (IsBatch n) p.flushed (p.items ∷ []) ok ((h, room), tt),
)

on_item-IsBounded : (n : ℕ) (x : Text) (p : Producer) → IsBounded n p → IsBounded n (on_item n x p)
unfolding on_item
on_item-IsBounded n x p v = ground (
  arith,
  length-append p.items (x ∷ []),
  send-IsBounded n (record p { items = p.items ++ x ∷ [] }),
)

rounds-IsBounded :
    (n : ℕ) (es : List Round) (p : Producer) → IsBounded n p → IsBounded n (rounds n es p)
unfolding rounds on_round
rounds-IsBounded n [] p v = v
rounds-IsBounded n (item x ∷ es) p v =
    rounds-IsBounded n es (on_item n x p) (on_item-IsBounded n x p v)
rounds-IsBounded n (ticker ∷ es) p v =
    rounds-IsBounded n es (send p) (send-IsBounded n p (omega (arith, v.room)) v.batches)

drain-batches :
    (n : ℕ) (xs : List Text) (p : Producer) → IsBounded n p → All (IsBatch n) (drain n xs p).flushed
unfolding drain
drain-batches n [] p v = (send-IsBounded n p (omega (arith, v.room)) v.batches).batches
drain-batches n (x ∷ xs) p v = drain-batches n xs (on_item n x p) (on_item-IsBounded n x p v)

-- Every flushed batch has a payload, and at most as many as the batch size (one, at size 0).
pub run_producer-IsBatch :
    (n : ℕ) (es : List Round) (buffered : List Text)
    → All (λ b. (0 < length b) × (length b ≤ max n 1)) (run_producer n es buffered)
unfolding run_producer
run_producer-IsBatch n es buffered =
    drain-batches n buffered _
      (rounds-IsBounded n es _ (record { room = omega arith; batches = tt }))
