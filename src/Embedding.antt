-- ===== src/Embedding.antt =====
-- internal/embedding/openai.go: vectors for texts. A vector is the list of its components, of any type,
-- the empty one being nil, and what the endpoint answers is an argument.
pub mod Placed
use project_arachne.Prelude.{
  ℕ, zero, suc, ◌+◌, List, [], ◌∷◌, ◌++◌, Bool, true, false, not, ◌||◌, Option, none, some, leb,
  if◌then◌else◌, ◌==◌, nat_eq, length, take, drop, Text,
}

-- The index of an element of the response, an integer.
pub data Place : Type 0 where
  negative : Place
  at_index : ℕ → Place

pub record Item (V : Type 0) : Type 0 where
  pub index : Place
  pub embedding : List V

-- What becomes of one request: no answer, a status that is not 200, a body that is not understood, or
-- the data of one that is.
pub data Response (V : Type 0) : Type 0 where
  no_answer : Response V
  http_error : ℕ → Response V
  not_json : Response V
  answer : List (Item V) → Response V

pub data Attempt (V : Type 0) : Type 0 where
  retryable final_failure : Attempt V
  embedded : List (List V) → Attempt V

module _ {V : Type 0} where
  unfoldable pub nils : ℕ → List (List V)
  nils zero = []
  nils (suc n) = [] ∷ nils n

  unfoldable pub kept : List V → Option (List (List V)) → Option (List (List V))
  kept v none = none
  kept v (some vs) = some (v ∷ vs)

  -- The vector at its place, which has to be there and to be nil.
  unfoldable pub place : ℕ → List V → List (List V) → Option (List (List V))
  place n v [] = none
  place zero v ([] ∷ vs) = some (v ∷ vs)
  place zero v ((x ∷ w) ∷ vs) = none
  place (suc n) v (w ∷ vs) = kept w (place n v vs)

  unfoldable pub place_item : Item V → List (List V) → Option (List (List V))
  place_item item vs = elim item.index [
    | negative ↦ none
    | at_index n ↦ elim item.embedding [ [] ↦ none | x ∷ v ↦ place n (x ∷ v) vs ]
  ]

  unfoldable pub place_all : List (Item V) → List (List V) → Option (List (List V))
  place_all [] vs = some vs
  place_all (item ∷ items) vs = elim (place_item item vs) [
    | none ↦ none
    | some vs' ↦ place_all items vs'
  ]

  unfoldable pub decode : List (Item V) → ℕ → Option (List (List V))
  decode items want = if length items == want then place_all items (nils want) else none

  unfoldable pub decoded : Option (List (List V)) → Attempt V
  decoded none = final_failure
  decoded (some vs) = embedded vs

  unfoldable pub embed_once : Response V → ℕ → Attempt V
  embed_once no_answer want = retryable
  embed_once (http_error status) want =
      if status == 429 || leb 500 status then retryable else final_failure
  embed_once not_json want = final_failure
  embed_once (answer items) want = decoded (decode items want)

  -- The loop of `embedWithRetry`: the attempts left, and the number of the next one.
  unfoldable pub retry : ℕ → ℕ → (ℕ → Response V) → ℕ → Option (List (List V))
  retry zero attempt respond want = none
  retry (suc left) attempt respond want = elim (embed_once (respond attempt) want) [
    | embedded vs ↦ some vs
    | retryable ↦ retry left (attempt + 1) respond want
    | final_failure ↦ none
  ]

  unfoldable pub embed_with_retry : ℕ → (ℕ → Response V) → ℕ → Option (List (List V))
  embed_with_retry max_retries respond want = retry (max_retries + 1) 0 respond want

  unfoldable pub joined_batches :
      Option (List (List V)) → Option (List (List V)) → Option (List (List V))
  joined_batches none rest = none
  joined_batches (some vs) none = none
  joined_batches (some vs) (some ws) = some (vs ++ ws)

  -- The loop of `Embed`; the number of texts is enough fuel.
  unfoldable pub embed_batches :
      ℕ → ℕ → ℕ → (List Text → ℕ → Response V) → List Text → Option (List (List V))
  embed_batches fuel batch_size max_retries respond [] = some []
  embed_batches zero batch_size max_retries respond (t ∷ ts) = some []
  embed_batches (suc fuel) batch_size max_retries respond (t ∷ ts) =
      let batch = take batch_size (t ∷ ts) in
      joined_batches (embed_with_retry max_retries (respond batch) (length batch))
        (embed_batches fuel batch_size max_retries respond (drop batch_size (t ∷ ts)))

  unfoldable pub all_of_length : ℕ → List (List V) → Bool
  all_of_length n [] = true
  all_of_length n (v ∷ vs) = let rest = all_of_length n vs in if length v == n then rest else false

  unfoldable pub consistent_dimensions : List (List V) → Bool
  consistent_dimensions [] = true
  consistent_dimensions (v ∷ vs) = all_of_length (length v) (v ∷ vs)

  unfoldable pub checked : Option (List (List V)) → Option (List (List V))
  checked none = none
  checked (some vs) = if consistent_dimensions vs then some vs else none

  unfoldable pub embed : ℕ → ℕ → (List Text → ℕ → Response V) → List Text → Option (List (List V))
  embed batch_size max_retries respond texts =
      checked (embed_batches (length texts) batch_size max_retries respond texts)
