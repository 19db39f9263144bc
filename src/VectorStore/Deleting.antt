-- ===== src/VectorStore/Deleting.antt =====
-- internal/vectorstore/milvus.go: the second loop of `Replace`, which deletes the stale rows.
use project_arachne.Prelude.{
  In-left, In-right, In-split, ◌≡◌, refl, ◌∙◌, inl, inr, ◌⊎◌, List, [], ◌++◌, true, Option, none,
  arith, In, length, Bool-cases, Text, list_eq, nat_eq,
}
use project_arachne.VectorStore.{Row, Client, after_write, all_hex_ids, delete_batch, in_batches}
use project_arachne.VectorStore.Batches.{Ends, in_batches-Ends}
use project_arachne.VectorStore.Rows.{ClientLaws}

module _ {S V : Type 0} (c : Client S V) (stored : S → Text → Option (Row V))
    (laws : ClientLaws c stored) (stale : List Text) (start : S) where
  -- An ID that is not stale is stored as it was, and a stale one at most.
  abbrev pub Pruned : S → Type 0
  Pruned s = (id : Text) → (stored s id ≡ stored start id) ⊎ (In id stale × (stored s id ≡ none))

  -- The stale IDs that are not left are stored no more.
  pub record Deleting (left : List Text) (s : S) : Type 0 where
    pub pruned : Pruned s
    pub gone : (id : Text) → In id stale → In id left ⊎ (stored s id ≡ none)
    pub left_in : (id : Text) → In id left → In id stale

  delete-Pruned :
      (batch : List Text) (s : S)
      → ((id : Text) → In id batch → In id stale)
      → Pruned s
      → Pruned (c.delete batch s).1
  delete-Pruned batch s within p id = elim (laws.deletes_only batch s id) [
    | inr (there, none_) ↦ inr (within id there, none_)
    | inl same ↦ elim (p id) [
      | inl as_before ↦ inl (same ∙ as_before)
      | inr (is_stale, none_) ↦ inr (is_stale, same ∙ none_)
    ]
  ]

  delete-gone :
      (batch : List Text) (s : S) (id : Text)
      → stored s id ≡ none
      → stored (c.delete batch s).1 id ≡ none
  delete-gone batch s id h = elim (laws.deletes_only batch s id) [
    | inl same ↦ same ∙ h
    | inr (there, none_) ↦ none_
  ]

  delete-Deleting :
      (batch left : List Text) (s : S)
      → (c.delete batch s).0 ≡ true
      → Deleting (batch ++ left) s
      → Deleting left (c.delete batch s).1
  delete-Deleting batch left s done d = record {
    pruned = delete-Pruned batch s (λ id h. d.left_in id (In-left id batch left h)) d.pruned;
    gone = λ id is_stale. elim (d.gone id is_stale) [
      | inr none_ ↦ inr (delete-gone batch s id none_)
      | inl h ↦ elim (In-split id batch left h) [
        | inl now ↦ inr (laws.deletes_all batch s id done now)
        | inr later ↦ inl later
      ]
    ];
    left_in = λ id h. d.left_in id (In-right id batch left h);
  }

  delete_batch-Ends :
      (batch left : List Text) (s : S)
      → Deleting (batch ++ left) s
      → Ends (Deleting left) Pruned (delete_batch c batch s)
  unfolding delete_batch after_write
  delete_batch-Ends batch left s d =
      let pruned =
        delete-Pruned batch s (λ id h. d.left_in id (In-left id batch left h)) d.pruned in
      elim (Bool-cases (all_hex_ids batch)) [
        | inr odd ↦ rw (odd, delete_batch) (λ h. absurd (ground arith), λ e h. d.pruned)
        | inl hex ↦
            rw (hex, delete_batch)
              (elim (Bool-cases (c.delete batch s).0) [
                | inl e ↦
                    rw (e, after_write) (λ h. delete-Deleting batch left s e d, λ e' h. pruned)
                | inr e ↦ rw (e, after_write) (λ h. absurd (ground arith), λ e' h. pruned)
              ])
      ]

  -- The loop either deletes every stale row or leaves some, and deletes no other row.
  pub deletes-Ends :
      Ends (Deleting []) Pruned (in_batches (length stale) (delete_batch c) stale start)
  deletes-Ends =
      in_batches-Ends (delete_batch c) Deleting Pruned delete_batch-Ends (length stale) stale start
        (omega arith)
        (record { pruned = λ id. inl refl; gone = λ id h. inl h; left_in = λ id h. h })
