-- ===== src/Tests/Embedding.antt =====
-- Runs of embedding.
use project_arachne.Prelude.{ℕ, zero, suc, refl, List, [], ◌∷◌, Text, codes, arith}
use project_arachne.Embedding.{
  at_index, Item, Response, http_error, answer, place, kept, place_item, place_all, nils, decode,
  decoded, embed_once, retry, embed_with_retry, joined_batches, embed_batches, all_of_length,
  consistent_dimensions, checked, embed,
}
use project_arachne.Embedding.Placed.{IsComplete, AreSameLength, embed-IsComplete}

-- The data of two texts, the second first.
abbrev swapped : List (Item ℕ)
swapped =
    record { index = at_index 1; embedding = 7 ∷ 8 ∷ [] }
    ∷ record { index = at_index 0; embedding = 5 ∷ 6 ∷ [] }
    ∷ []

abbrev vectors : List (List ℕ)
vectors = (5 ∷ 6 ∷ []) ∷ (7 ∷ 8 ∷ []) ∷ []

-- The first attempt is refused, the second answered.
abbrev respond : List Text → ℕ → Response ℕ
respond texts zero = http_error 503
respond texts (suc n) = answer swapped

abbrev texts : List Text
texts = codes "a" ∷ codes "b" ∷ []

embed-IsComplete_example : IsComplete 2 vectors × AreSameLength vectors
unfolding embed checked consistent_dimensions all_of_length embed_batches joined_batches
    embed_with_retry retry embed_once decoded decode place_all place_item place kept nils
embed-IsComplete_example = embed-IsComplete 2 3 respond texts vectors (omega arith) refl
