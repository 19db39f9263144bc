-- ===== src/VectorStore/Batches.antt =====
-- internal/vectorstore/milvus.go: the loops of `Replace` over batches.
use project_arachne.Prelude.{
  ℕ, zero, suc, ◌≤◌, ◌≡◌, sym, subst, inl, inr, List, [], ◌∷◌, ◌++◌, Option, none, some, arith,
  length, take, drop, take-append-drop, length-drop, Option-cases,
}
use project_arachne.VectorStore.{StoreError, write_batch_size, in_batches}

-- The outcome of a loop: what holds behind one that writes all, and behind one that fails.
abbrev pub Ends : {S : Type 0} → (S → Type 0) → (S → Type 0) → Option StoreError × S → Type 0
Ends Done Failed (error, s) =
    (error ≡ none → Done s) × ((e : StoreError) → error ≡ some e → Failed s)

module _ {A S : Type 0} (write : List A → S → Option StoreError × S) (Left : List A → S → Type 0)
    (Failed : S → Type 0)
    (step : (batch rest : List A) (s : S)
      → Left (batch ++ rest) s
      → Ends (Left rest) Failed (write batch s)) where
  -- The loop of batches keeps what every batch keeps.
  pub in_batches-Ends :
      (fuel : ℕ) (xs : List A) (s : S)
      → length xs ≤ fuel
      → Left xs s
      → Ends (Left []) Failed (in_batches fuel write xs s)
  unfolding in_batches
  in_batches-Ends fuel [] s le left = (λ h. left, λ e h. absurd (ground arith))
  in_batches-Ends zero (x ∷ xs) s le left = absurd (omega arith)
  in_batches-Ends (suc fuel) (x ∷ xs) s le left =
      let ends =
        step (take write_batch_size (x ∷ xs)) (drop write_batch_size (x ∷ xs)) s
          (subst (λ ys. Left ys s) (sym (take-append-drop write_batch_size (x ∷ xs))) left) in
      elim (Option-cases (write (take write_batch_size (x ∷ xs)) s).0) [
        | inl e ↦
            rw (e, in_batches)
              (in_batches-Ends fuel (drop write_batch_size (x ∷ xs)) _
                (omega (arith, length-drop 499 xs)) (ends.0 e))
        | inr (error, e) ↦ rw (e, in_batches) (λ h. absurd (ground arith), λ e' h. ends.1 error e)
      ]
