-- ===== src/Tests/Producer.antt =====
-- Examples for the producer loop of internal/processor/queue.
use mathlib.Core.List.{flatten}
use project_arachne.Prelude.{◌≡◌, refl, List, [], ◌∷◌, ◌++◌, Text, codes}
use project_arachne.Queue.Producer.{
  Round, item, ticker, send, on_item, on_round, rounds, drain, run_producer, payloads,
  flatten-run_producer,
}

abbrev busy : List Round
busy = item (codes "a") ∷ item (codes "b") ∷ item (codes "c") ∷ ticker ∷ item (codes "d") ∷ []

abbrev left : List Text
left = codes "e" ∷ []

batches_of_two :
    run_producer 2 busy left
    ≡ (codes "a" ∷ codes "b" ∷ []) ∷ (codes "c" ∷ []) ∷ (codes "d" ∷ codes "e" ∷ []) ∷ []
unfolding run_producer drain rounds on_round on_item send
batches_of_two = refl

flatten-run_producer_example : flatten (run_producer 2 busy left) ≡ payloads busy ++ left
flatten-run_producer_example = flatten-run_producer 2 busy left
