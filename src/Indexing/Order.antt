-- ===== src/Indexing/Order.antt =====
-- internal/indexing/sink_async.go: the versions of a page are indexed in the order they arrived.
use project_arachne.Prelude.{
  ℕ, ◌≤◌, ◌<◌, ◌≡◌, refl, sym, ap, ◌∙◌, subst, inl, inr, List, [], ◌∷◌, ◌++◌, append_assoc,
  append-nil, Bool, true, false, none, some, ltb, if◌then◌else◌, arith, All, All-append, ◌==◌,
  ==_iff, nat_eq, list_eq, filter, length, length-append, Bool-cases, Text,
}
use project_arachne.Documents.{Document}
use project_arachne.Indexing.Shards.{
  Sink, Taken, sink_closed, new_async_sink, shard_of, Pick, sends, closes, times_out, is_cancelled,
  put_shard, drop_document, enqueue, select_case, submit_document, Processing, succeeds, fails,
  fails_in_shutdown, count, process, take_from, work, close, Move, submits, works, shuts_down, move,
  run_moves,
}

-- The documents of a page.
abbrev pub of_url : Text → List Document → List Document
of_url url = filter (λ d. d.url == url)

filter-append :
    {A : Type 0} (p : A → Bool) (xs ys : List A) → filter p (xs ++ ys) ≡ filter p xs ++ filter p ys
filter-append p [] ys = refl
filter-append p (x ∷ xs) ys = ground (arith, filter-append p xs ys)

of_url-append :
    (url : Text) (ds es : List Document) → of_url url (ds ++ es) ≡ of_url url ds ++ of_url url es
of_url-append url ds es = filter-append (λ d. d.url == url) ds es

of_url-other :
    (url : Text) (ds : List Document) (d : Document)
    → (d.url == url) ≡ false
    → of_url url (ds ++ d ∷ []) ≡ of_url url ds
of_url-other url ds d other =
    of_url-append url ds (d ∷ [])
    ∙ (ap (λ es. of_url url ds ++ es) (ground arith) ∙ append-nil (of_url url ds))

-- A document that comes to the end of a queue and of the list of all, and one that goes from the head
-- of a queue to the end of a list.
of_url-enqueue :
    (url : Text) (before queue all : List Document) (d : Document)
    → of_url url before ++ of_url url queue ≡ of_url url all
    → of_url url before ++ of_url url (queue ++ d ∷ []) ≡ of_url url (all ++ d ∷ [])
of_url-enqueue url before queue all d e =
    ap (λ es. of_url url before ++ es) (of_url-append url queue (d ∷ []))
    ∙ (sym (append_assoc (of_url url before) (of_url url queue) (of_url url (d ∷ [])))
        ∙ (ap (λ es. es ++ of_url url (d ∷ [])) e ∙ sym (of_url-append url all (d ∷ []))))

of_url-dequeue :
    (url : Text) (before queue : List Document) (d : Document)
    → of_url url (before ++ d ∷ []) ++ of_url url queue
      ≡ of_url url before ++ of_url url (d ∷ queue)
of_url-dequeue url before queue d =
    ap (λ es. es ++ of_url url queue) (of_url-append url before (d ∷ []))
    ∙ (append_assoc (of_url url before) (of_url url (d ∷ [])) (of_url url queue)
        ∙ ap (λ es. of_url url before ++ es) (sym (of_url-append url (d ∷ []) queue)))

module _ (hash : Text → ℕ) where
  elsewhere :
      (url url' : Text) (n : ℕ)
      → (shard_of hash url n == shard_of hash url' n) ≡ false
      → (url' == url) ≡ false
  elsewhere url url' n other = ground (arith, ==_iff url' url, ap (λ u. shard_of hash u n))

  -- Each document stands in the shard of its URL, no shard holds more than its capacity, and what was
  -- processed of a page, with what its shard holds of it, is what was accepted of it, in this order.
  pub record IsInOrder (s : Sink) : Type 0 where
    pub placed : (i : ℕ) → All (λ d. shard_of hash d.url s.workers ≡ i) (s.shards i)
    pub bounded : (i : ℕ) → length (s.shards i) ≤ s.per_shard
    pub in_order :
        (url : Text)
        → of_url url s.processed ++ of_url url (s.shards (shard_of hash url s.workers))
          ≡ of_url url s.accepted

  new-IsInOrder : (workers queue_size : ℕ) → IsInOrder (new_async_sink workers queue_size)
  unfolding new_async_sink
  new-IsInOrder workers queue_size = record {
    placed = λ i. tt;
    bounded = λ i. omega arith;
    in_order = λ url. refl;
  }

  enqueue-IsInOrder :
      (doc : Document) (s : Sink)
      → length (s.shards (shard_of hash doc.url s.workers)) < s.per_shard
      → IsInOrder s
      → IsInOrder (enqueue (shard_of hash doc.url s.workers) doc s)
  unfolding enqueue put_shard
  enqueue-IsInOrder doc s room o = record {
    placed = λ j. elim (Bool-cases (j == shard_of hash doc.url s.workers)) [
      | inl e ↦ rw e (
          All-append (λ d. shard_of hash d.url s.workers ≡ j) (s.shards _) (doc ∷ [])
            (subst (λ i. All (λ d. shard_of hash d.url s.workers ≡ j) (s.shards i))
              ((==_iff j (shard_of hash doc.url s.workers)).0 e) (o.placed j))
            (sym ((==_iff j (shard_of hash doc.url s.workers)).0 e), tt))
      | inr e ↦ rw e (o.placed j)
    ];
    bounded = λ j. elim (Bool-cases (j == shard_of hash doc.url s.workers)) [
      | inl e ↦
          rw e
            (omega (arith, length-append (s.shards (shard_of hash doc.url s.workers)) (doc ∷ [])))
      | inr e ↦ rw e (o.bounded j)
    ];
    in_order = λ url.
        elim (Bool-cases (shard_of hash url s.workers == shard_of hash doc.url s.workers)) [
          | inl e ↦ rw e (
              of_url-enqueue url s.processed (s.shards (shard_of hash doc.url s.workers)) s.accepted
                doc
                (subst
                  (λ i. of_url url s.processed ++ of_url url (s.shards i) ≡ of_url url s.accepted)
                  ((==_iff _ _).0 e) (o.in_order url)))
          | inr e ↦ rw e (
              o.in_order url
              ∙ sym (of_url-other url s.accepted doc (elsewhere url doc.url s.workers e)))
        ];
  }

  count-IsInOrder : (p : Processing) (s : Sink) → IsInOrder s → IsInOrder (count p s)
  unfolding count
  count-IsInOrder succeeds s o = o
  count-IsInOrder fails s o = record {
    placed = o.placed;
    bounded = o.bounded;
    in_order = o.in_order;
  }
  count-IsInOrder fails_in_shutdown s o = record {
    placed = o.placed;
    bounded = o.bounded;
    in_order = o.in_order;
  }

  take_from-IsInOrder :
      (p : Processing) (i : ℕ) (queue : List Document) (s : Sink)
      → s.shards i ≡ queue
      → IsInOrder s
      → IsInOrder (take_from p i queue s)
  unfolding take_from process put_shard
  take_from-IsInOrder p i [] s e o = o
  take_from-IsInOrder p i (doc ∷ queue) s e o = count-IsInOrder p _ (record {
    placed = λ j. elim (Bool-cases (j == i)) [
      | inl here ↦
          rw here
            (subst (All (λ d. shard_of hash d.url s.workers ≡ j)) e (
              subst (λ k. All (λ d. shard_of hash d.url s.workers ≡ j) (s.shards k))
                ((==_iff j i).0 here) (o.placed j))).1
      | inr other ↦ rw other (o.placed j)
    ];
    bounded = λ j. elim (Bool-cases (j == i)) [
      | inl here ↦ rw here (omega (arith, o.bounded i, ap length e))
      | inr other ↦ rw other (o.bounded j)
    ];
    in_order = λ url. elim (Bool-cases (shard_of hash url s.workers == i)) [
      | inl here ↦ rw here (
          of_url-dequeue url s.processed queue doc
          ∙ subst (λ ds. of_url url s.processed ++ of_url url ds ≡ of_url url s.accepted) e
              (subst
                (λ k. of_url url s.processed ++ of_url url (s.shards k) ≡ of_url url s.accepted)
                ((==_iff (shard_of hash url s.workers) i).0 here) (o.in_order url)))
      | inr other ↦ rw other (
          ap (λ ds. ds ++ of_url url (s.shards (shard_of hash url s.workers)))
            (of_url-other url s.processed doc (
              elsewhere url doc.url s.workers (
                subst (λ k. (shard_of hash url s.workers == k) ≡ false)
                  (sym (subst (All (λ d. shard_of hash d.url s.workers ≡ i)) e (o.placed i)).0)
                  other)))
          ∙ o.in_order url)
    ];
  })

  select_case-IsInOrder :
      (pick : Pick) (doc : Document) (s : Sink)
      → IsInOrder s
      → IsInOrder (select_case hash pick doc s).1
  unfolding select_case drop_document
  select_case-IsInOrder sends doc s o =
      elim (Bool-cases (ltb (length (s.shards (shard_of hash doc.url s.workers))) s.per_shard)) [
        | inl room ↦ rw (room, select_case) (enqueue-IsInOrder doc s (ground arith) o)
        | inr full ↦
            rw (full, select_case)
              (record { placed = o.placed; bounded = o.bounded; in_order = o.in_order })
      ]
  select_case-IsInOrder closes doc s o = o
  select_case-IsInOrder times_out doc s o = record {
    placed = o.placed;
    bounded = o.bounded;
    in_order = o.in_order;
  }
  select_case-IsInOrder is_cancelled doc s o = o

  if_closed-IsInOrder :
      (b : Bool) (taken : Taken × Sink) (s : Sink)
      → IsInOrder s
      → IsInOrder taken.1
      → IsInOrder (if b then (sink_closed, s) else taken).1
  if_closed-IsInOrder true taken s o o' = o
  if_closed-IsInOrder false taken s o o' = o'

  move-IsInOrder : (m : Move) (s : Sink) → IsInOrder s → IsInOrder (move hash m s)
  unfolding move submit_document work close
  move-IsInOrder (submits pick none) s o = o
  move-IsInOrder (submits pick (some doc)) s o =
      if_closed-IsInOrder s.closed (select_case hash pick doc s) s o
        (select_case-IsInOrder pick doc s o)
  move-IsInOrder (works p i) s o = take_from-IsInOrder p i (s.shards i) s refl o
  move-IsInOrder shuts_down s o = record {
    placed = o.placed;
    bounded = o.bounded;
    in_order = o.in_order;
  }

  moves-IsInOrder :
      (moves : List Move) (s : Sink) → IsInOrder s → IsInOrder (run_moves hash moves s)
  unfolding run_moves
  moves-IsInOrder [] s o = o
  moves-IsInOrder (m ∷ moves) s o = moves-IsInOrder moves (move hash m s) (move-IsInOrder m s o)

  -- Whatever is submitted, in whatever order the workers go on: the sink behind gets the documents of a
  -- page in the order in which they were accepted, those that it has not got yet stand in the page's
  -- shard, and no shard holds more than its capacity.
  pub run_moves-IsInOrder :
      (workers queue_size : ℕ) (moves : List Move)
      → IsInOrder (run_moves hash moves (new_async_sink workers queue_size))
  run_moves-IsInOrder workers queue_size moves =
      moves-IsInOrder moves (new_async_sink workers queue_size) (new-IsInOrder workers queue_size)
