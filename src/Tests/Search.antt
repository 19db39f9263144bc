-- ===== src/Tests/Search.antt =====
-- Runs of the search.
use project_arachne.Prelude.{ℕ, ◌+◌, ◌-◌, List, [], ◌∷◌, not, some, ltb, nat_beq, Text, codes}
use project_arachne.Retrieval.{Floats, hybrid, Request, Hit, Backend, search_for}
use project_arachne.Retrieval.Results.{IsPage, search_for-IsPage}

-- Scores counted in thousandths.
abbrev thousandths : Floats
thousandths = record {
  Narrow = ℕ;
  Wide = ℕ;
  widen = λ n. n;
  reciprocal = λ n. 1000 - n;
  plus = λ a b. a + b;
  none_yet = 0;
  above = λ a b. ltb b a;
  differ = λ a b. not (nat_beq a b);
}

abbrev chunk_of : Text → ℕ → Hit ℕ
chunk_of url score = record {
  url = url;
  host = codes "e.org";
  title = codes "T";
  text = codes "text";
  score = score;
}

abbrev hits : List (Hit ℕ)
hits = chunk_of (codes "a") 9 ∷ chunk_of (codes "b") 8 ∷ chunk_of (codes "a") 7 ∷ []

abbrev backend : Backend thousandths
backend = record {
  Vector = ℕ;
  embed = λ query. some (3 ∷ []);
  search_vector = λ host v. some hits;
  search_text = λ query host. some (chunk_of (codes "c") 5 ∷ chunk_of (codes "b") 4 ∷ []);
  lower = λ t. t;
}

abbrev request : Request
request = record { query = codes " go "; limit = 2; host = []; mode = hybrid }

search_for-IsPage_example :
    IsPage thousandths 2 (search_for thousandths backend (codes "query: ") 60 request)
search_for-IsPage_example = search_for-IsPage thousandths backend (codes "query: ") 60 request
