-- ===== src/VectorStore/Upserting.antt =====
-- internal/vectorstore/milvus.go: the first loop of `Replace`, which writes the rows.
use project_arachne.Prelude.{
  In-left, In-right, In-split, ◌≢◌, ◌≡◌, refl, ap, ◌∙◌, inl, inr, ◌⊎◌, List, [], ◌++◌, true, false,
  Option, some, arith, In, is_seen, length, Bool-cases, Text, list_eq, nat_eq,
}
use project_arachne.VectorStore.{Row, Client, after_write, upsert_batch, in_batches, row_ids}
use project_arachne.VectorStore.Batches.{Ends, in_batches-Ends}
use project_arachne.VectorStore.Rows.{ClientLaws, OneRow, row_ids-is_seen}

module _ {S V : Type 0} (c : Client S V) (stored : S → Text → Option (Row V))
    (laws : ClientLaws c stored) (rows : List (Row V)) (start : S) where
  -- Only rows of the list have been written: any other ID is stored as it was.
  pub record Grown (s : S) : Type 0 where
    pub stays :
        (id : Text) (r : Row V) → stored start id ≡ some r → (q : Row V) × (stored s id ≡ some q)
    pub others : (id : Text) → is_seen id (row_ids rows) ≡ false → stored s id ≡ stored start id

  -- The rows that are not left have been written.
  pub record Writing (left : List (Row V)) (s : S) : Type 0 where
    pub grown : Grown s
    pub written : (r : Row V) → In r rows → In r left ⊎ (stored s r.id ≡ some r)
    pub left_in : (r : Row V) → In r left → In r rows

  unseen : (id : Text) (q : Row V) → is_seen id (row_ids rows) ≡ false → In q rows → q.id ≢ id
  unseen id q h there same =
      ground (arith, row_ids-is_seen rows q there, ap (λ t. is_seen t (row_ids rows)) same)

  upsert-Grown :
      (batch : List (Row V)) (s : S)
      → ((r : Row V) → In r batch → In r rows)
      → Grown s
      → Grown (c.upsert batch s).1
  upsert-Grown batch s within g = record {
    stays = λ id r h. elim (laws.upserts_only batch s id) [
      | inl same ↦ let (q, e) = g.stays id r h in (q, same ∙ e)
      | inr (q, there, keyed, e) ↦ (q, e)
    ];
    others = λ id h. elim (laws.upserts_only batch s id) [
      | inl same ↦ same ∙ g.others id h
      | inr (q, there, keyed, e) ↦ absurd (unseen id q h (within q there) keyed)
    ];
  }

  -- A row that is stored stays so, whatever the batch does, and one of a batch that is written is.
  upsert-written :
      (one : OneRow rows) (batch : List (Row V)) (s : S) (r : Row V)
      → ((q : Row V) → In q batch → In q rows)
      → In r rows
      → stored s r.id ≡ some r
      → stored (c.upsert batch s).1 r.id ≡ some r
  upsert-written one batch s r within there e = elim (laws.upserts_only batch s r.id) [
    | inl same ↦ same ∙ e
    | inr (q, in_batch, keyed, e') ↦ e' ∙ ap some (one q r (within q in_batch) there keyed)
  ]

  upsert-Writing :
      (one : OneRow rows) (batch left : List (Row V)) (s : S)
      → (c.upsert batch s).0 ≡ true
      → Writing (batch ++ left) s
      → Writing left (c.upsert batch s).1
  upsert-Writing one batch left s done w =
      let within : (r : Row V) → In r batch → In r rows =
        λ r h. w.left_in r (In-left r batch left h) in
      record {
        grown = upsert-Grown batch s within w.grown;
        written = λ r there. elim (w.written r there) [
          | inr e ↦ inr (upsert-written one batch s r within there e)
          | inl h ↦ elim (In-split r batch left h) [
            | inr later ↦ inl later
            | inl now ↦
                let (q, in_batch, keyed, e) = laws.upserts_all batch s r done now in
                inr (e ∙ ap some (one q r (within q in_batch) there keyed))
          ]
        ];
        left_in = λ r h. w.left_in r (In-right r batch left h);
      }

  upsert_batch-Ends :
      (one : OneRow rows) (batch left : List (Row V)) (s : S)
      → Writing (batch ++ left) s
      → Ends (Writing left) Grown (upsert_batch c batch s)
  unfolding upsert_batch after_write
  upsert_batch-Ends one batch left s w =
      let grown = upsert-Grown batch s (λ r h. w.left_in r (In-left r batch left h)) w.grown in
      elim (Bool-cases (c.upsert batch s).0) [
        | inl e ↦ rw (e, after_write) (λ h. upsert-Writing one batch left s e w, λ e' h. grown)
        | inr e ↦ rw (e, after_write) (λ h. absurd (ground arith), λ e' h. grown)
      ]

  start-Writing : Writing rows start
  start-Writing = record {
    grown = record { stays = λ id r h. (r, h); others = λ id h. refl };
    written = λ r h. inl h;
    left_in = λ r h. h;
  }

  -- The loop either writes every row or leaves a store in which only rows of the list are new.
  pub upserts-Ends :
      OneRow rows → Ends (Writing []) Grown (in_batches (length rows) (upsert_batch c) rows start)
  upserts-Ends one =
      in_batches-Ends (upsert_batch c) Writing Grown (upsert_batch-Ends one) (length rows) rows
        start (omega arith) start-Writing
