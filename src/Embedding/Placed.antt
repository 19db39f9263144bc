-- ===== src/Embedding/Placed.antt =====
-- What `Embed` returns: one vector for each text, none of them nil, all of one length.
use project_arachne.Prelude.{
  ℕ, zero, suc, ◌+◌, ◌≤◌, ◌<◌, ◌≡◌, ◌≢◌, refl, subst, ◌∙◌, List, [], ◌∷◌, true, Option, none, some,
  ◌==◌, nat_eq, length, take, drop, length-take, length-drop, length-append, All, All-append,
  Bool-cases, Option-cases, inl, inr, Text, arith,
}
use project_arachne.Embedding.{
  Place, negative, at_index, Item, Response, no_answer, http_error, not_json, answer, Attempt,
  retryable, final_failure, embedded, nils, kept, place, place_item, place_all, decode, decoded,
  embed_once, retry, embed_with_retry, joined_batches, embed_batches, all_of_length,
  consistent_dimensions, checked, embed,
}

module _ {V : Type 0} where
  -- How many vectors are nil.
  abbrev count_nil : List (List V) → ℕ
  count_nil [] = 0
  count_nil ([] ∷ vs) = suc (count_nil vs)
  count_nil ((x ∷ v) ∷ vs) = count_nil vs

  abbrev IsFull : List (List V) → Type 0
  IsFull vs = All (λ v. v ≢ []) vs

  place_lem :
      (n : ℕ) (x : V) (v : List V) (vs vs' : List (List V))
      → place n (x ∷ v) vs ≡ some vs'
      → (count_nil vs ≡ suc (count_nil vs')) × (length vs' ≡ length vs)
  unfolding place kept
  place_lem n x v [] vs' h = absurd (ground arith)
  place_lem zero x v ([] ∷ vs) vs' h = ground arith
  place_lem zero x v ((y ∷ w) ∷ vs) vs' h = absurd (ground arith)
  place_lem (suc n) x v ([] ∷ vs) vs' h = elim (Option-cases (place n (x ∷ v) vs)) [
    | inl e ↦ absurd (ground arith)
    | inr (us, e) ↦ ground (arith, place_lem n x v vs us e)
  ]
  place_lem (suc n) x v ((y ∷ w) ∷ vs) vs' h = elim (Option-cases (place n (x ∷ v) vs)) [
    | inl e ↦ absurd (ground arith)
    | inr (us, e) ↦ ground (arith, place_lem n x v vs us e)
  ]

  place_item_lem :
      (item : Item V) (vs vs' : List (List V))
      → place_item item vs ≡ some vs'
      → (count_nil vs ≡ suc (count_nil vs')) × (length vs' ≡ length vs)
  unfolding place_item
  place_item_lem item vs vs' = go item.index item.embedding refl refl
    where
      go :
          (i : Place) (v : List V)
          → item.index ≡ i
          → item.embedding ≡ v
          → place_item item vs ≡ some vs'
          → (count_nil vs ≡ suc (count_nil vs')) × (length vs' ≡ length vs)
      go negative v e e' = rw (e, place_item) (λ h. absurd (ground arith))
      go (at_index n) [] e e' =
          rw (e, place_item) (rw (e', place_item) (λ h. absurd (ground arith)))
      go (at_index n) (x ∷ v) e e' =
          rw (e, place_item) (rw (e', place_item) (place_lem n x v vs vs'))

  place_all_lem :
      (items : List (Item V)) (vs vs' : List (List V))
      → place_all items vs ≡ some vs'
      → (count_nil vs ≡ length items + count_nil vs') × (length vs' ≡ length vs)
  unfolding place_all
  place_all_lem [] vs vs' = λ h. ground arith
  place_all_lem (item ∷ items) vs vs' = elim (Option-cases (place_item item vs)) [
    | inl e ↦ rw (e, place_all) (λ h. absurd (ground arith))
    | inr (us, e) ↦
        rw (e, place_all)
          (λ h. ground (arith, place_item_lem item vs us e, place_all_lem items us vs' h))
  ]

nils_lem : (V : Type 0) (n : ℕ) → (count_nil (nils {V = V} n) ≡ n) × (length (nils {V = V} n) ≡ n)
unfolding nils
nils_lem V zero = (refl, refl)
nils_lem V (suc n) = ground (arith, nils_lem V n)

module _ {V : Type 0} where
  no_nil-IsFull : (vs : List (List V)) → count_nil vs ≡ 0 → IsFull vs
  no_nil-IsFull [] h = tt
  no_nil-IsFull ([] ∷ vs) h = absurd (ground arith)
  no_nil-IsFull ((x ∷ v) ∷ vs) h = (ground arith, no_nil-IsFull vs h)

  -- One vector for each of the texts, and none is nil.
  abbrev pub IsComplete : ℕ → List (List V) → Type 0
  IsComplete want vs = (length vs ≡ want) × IsFull vs

  -- However the endpoint orders its data: what is decoded is one vector for each text, and none is left
  -- nil.
  pub decode-IsComplete :
      (items : List (Item V)) (want : ℕ) (vs : List (List V))
      → decode items want ≡ some vs
      → IsComplete want vs
  unfolding decode
  decode-IsComplete items want vs = elim (Bool-cases (length items == want)) [
    | inl full ↦
        rw (full, decode)
          (λ h.
            let (nil_count, same) = place_all_lem items (nils want) vs h in
            (same ∙ (nils_lem V want).1, no_nil-IsFull vs (ground (arith, nils_lem V want))))
    | inr short ↦ rw (short, decode) (λ h. absurd (ground arith))
  ]

  embed_once-IsComplete :
      (r : Response V) (want : ℕ) (vs : List (List V))
      → embed_once r want ≡ embedded vs
      → IsComplete want vs
  unfolding embed_once decoded
  embed_once-IsComplete no_answer want vs = λ h. absurd (ground arith)
  embed_once-IsComplete (http_error status) want vs = λ h. absurd (ground arith)
  embed_once-IsComplete not_json want vs = λ h. absurd (ground arith)
  embed_once-IsComplete (answer items) want vs = elim (Option-cases (decode items want)) [
    | inl e ↦ rw (e, decoded) (λ h. absurd (ground arith))
    | inr (us, e) ↦ rw (e, decoded) (λ h. decode-IsComplete items want vs (ground arith))
  ]

  retry-IsComplete :
      (left attempt : ℕ) (respond : ℕ → Response V) (want : ℕ) (vs : List (List V))
      → retry left attempt respond want ≡ some vs
      → IsComplete want vs
  unfolding retry
  retry-IsComplete zero attempt respond want vs = λ h. absurd (ground arith)
  retry-IsComplete (suc left) attempt respond want vs =
      go (embed_once (respond attempt) want) refl
        (retry-IsComplete left (attempt + 1) respond want vs)
    where
      go :
          (a : Attempt V)
          → embed_once (respond attempt) want ≡ a
          → (retry left (attempt + 1) respond want ≡ some vs → IsComplete want vs)
          → retry (suc left) attempt respond want ≡ some vs
          → IsComplete want vs
      go retryable e rest = rw (e, retry) rest
      go final_failure e rest = rw (e, retry) (λ h. absurd (ground arith))
      go (embedded us) e rest =
          rw (e, retry) (λ h. embed_once-IsComplete (respond attempt) want vs (e ∙ ground arith))

  -- All vectors have as many components as the first.
  abbrev pub AreSameLength : List (List V) → Type 0
  AreSameLength [] = Unit
  AreSameLength (v ∷ vs) = All (λ w. length w ≡ length v) vs

  all_of_length_lem :
      (n : ℕ) (vs : List (List V)) → all_of_length n vs ≡ true → All (λ v. length v ≡ n) vs
  unfolding all_of_length
  all_of_length_lem n [] h = tt
  all_of_length_lem n (v ∷ vs) h = ground (arith, all_of_length_lem n vs)

  consistent_dimensions-AreSameLength :
      (vs : List (List V)) → consistent_dimensions vs ≡ true → AreSameLength vs
  unfolding consistent_dimensions
  consistent_dimensions-AreSameLength [] h = tt
  consistent_dimensions-AreSameLength (v ∷ vs) h = (all_of_length_lem (length v) (v ∷ vs) h).1

  module _ (batch_size max_retries : ℕ) (respond : List Text → ℕ → Response V) where
    joined_batches-IsComplete :
        (m n : ℕ) (first rest : Option (List (List V))) (vs : List (List V))
        → ((us : List (List V)) → first ≡ some us → IsComplete m us)
        → ((us : List (List V)) → rest ≡ some us → IsComplete n us)
        → joined_batches first rest ≡ some vs
        → IsComplete (m + n) vs
    unfolding joined_batches
    joined_batches-IsComplete m n none rest vs hf hr h = absurd (ground arith)
    joined_batches-IsComplete m n (some us) none vs hf hr h = absurd (ground arith)
    joined_batches-IsComplete m n (some us) (some ws) vs hf hr h =
        subst (IsComplete (m + n)) (ground arith) (
          length-append us ws ∙ omega (arith, (hf us refl).0, (hr ws refl).0),
          All-append (λ v. v ≢ []) us ws (hf us refl).1 (hr ws refl).1,
        )

    nil_answer :
        (vs : List (List V)) → ◌≡◌ {A = Option (List (List V))} (some []) (some vs) → [] ≡ vs
    nil_answer vs h = ground arith

    embed_batches-IsComplete :
        (fuel : ℕ) (texts : List Text) (vs : List (List V))
        → 0 < batch_size
        → length texts ≤ fuel
        → embed_batches fuel batch_size max_retries respond texts ≡ some vs
        → IsComplete (length texts) vs
    unfolding embed_batches embed_with_retry
    embed_batches-IsComplete fuel [] vs pos_size enough h =
        subst (IsComplete 0) (nil_answer vs h) (refl, tt)
    embed_batches-IsComplete zero (t ∷ ts) vs pos_size enough h = absurd (ground arith)
    embed_batches-IsComplete (suc fuel) (t ∷ ts) vs pos_size enough h =
        subst (λ n. IsComplete n vs)
          (omega (arith, length-take batch_size (t ∷ ts), length-drop batch_size (t ∷ ts)))
          (joined_batches-IsComplete (length (take batch_size (t ∷ ts)))
            (length (drop batch_size (t ∷ ts))) _ _ vs
            (λ us e.
              retry-IsComplete (max_retries + 1) 0 (respond (take batch_size (t ∷ ts))) _ us e)
            (λ us e.
              embed_batches-IsComplete fuel (drop batch_size (t ∷ ts)) us pos_size
                (omega (arith, length-drop batch_size (t ∷ ts))) e)
            h)

    -- Whatever the endpoint answers, in however many batches of positive size and attempts: if `Embed`
    -- succeeds, there is one vector for each text, none is nil, and all have as many components as
    -- the first.
    pub embed-IsComplete :
        (texts : List Text) (vs : List (List V))
        → 0 < batch_size
        → embed batch_size max_retries respond texts ≡ some vs
        → IsComplete (length texts) vs × AreSameLength vs
    unfolding embed checked
    embed-IsComplete texts vs pos_size =
        elim (Option-cases (embed_batches (length texts) batch_size max_retries respond texts)) [
          | inl e ↦ rw (e, checked) (λ h. absurd (ground arith))
          | inr (us, e) ↦ elim (Bool-cases (consistent_dimensions us)) [
            | inl same ↦
                rw (e, checked)
                  (rw (same, checked)
                    (λ h.
                      subst (λ ws. IsComplete (length texts) ws × AreSameLength ws) (ground arith)
                        (
                          embed_batches-IsComplete (length texts) texts us pos_size (omega arith) e,
                          consistent_dimensions-AreSameLength us same,
                        )))
            | inr mixed ↦ rw (e, checked) (rw (mixed, checked) (λ h. absurd (ground arith)))
          ]
        ]
