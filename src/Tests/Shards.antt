-- ===== src/Tests/Shards.antt =====
-- Examples for the queue in front of the indexing.
use project_arachne.Prelude.{ℕ, List, [], ◌∷◌, some, Text, codes, length}
use project_arachne.Documents.{Document}
use project_arachne.Indexing.Shards.{
  new_async_sink, sends, succeeds, fails, Move, submits, works, shuts_down, run_moves,
}
use project_arachne.Indexing.Order.{IsInOrder, run_moves-IsInOrder}

abbrev version : Text → Text → Document
version url content = record {
  url = url;
  title = [];
  content = content;
  content_type = [];
  run_id = codes "r";
}

-- The URLs of odd length come to the second shard.
abbrev hash : Text → ℕ
hash url = length url

-- Two versions of one page and one of another; the first version fails.
abbrev moves : List Move
moves =
    submits sends (some (version (codes "u") (codes "old")))
    ∷ submits sends (some (version (codes "vv") (codes "x")))
    ∷ submits sends (some (version (codes "u") (codes "new")))
    ∷ works succeeds 0
    ∷ works fails 1
    ∷ shuts_down
    ∷ works succeeds 1
    ∷ []

run_moves-IsInOrder_example : IsInOrder hash (run_moves hash moves (new_async_sink 2 8))
run_moves-IsInOrder_example = run_moves-IsInOrder hash 2 8 moves
