-- ===== src/Retrieval.antt =====
-- internal/retrieval/retrieval.go: answering a query with pages. What the embedder and the vector
-- store answer is an argument, and floating-point scores are values of the parameter `Floats`.
pub mod Results
use project_arachne.Prelude.{
  ℕ, zero, suc, ◌+◌, List, [], ◌∷◌, ◌++◌, map, Bool, true, false, not, ◌&&◌, ◌||◌, Option, none,
  some, ltb, leb, if◌then◌else◌, Eq, ◌==◌, nat_eq, list_eq, is_seen, length, take, drop, Text,
}
use project_arachne.Strings.{trim_space, is_empty, has_prefix}

-- float32 and float64 with what the code does on them: `1 / float64(n)`, sum, `>` and `!=`.
pub record Floats : Type 1 where
  pub Narrow : Type 0
  pub Wide : Type 0
  pub widen : Narrow → Wide
  pub reciprocal : ℕ → Wide
  pub plus : Wide → Wide → Wide
  pub none_yet : Wide
  pub above : Wide → Wide → Bool
  pub differ : Wide → Wide → Bool

pub data Mode : Type 0 where
  hybrid dense_only bm25_only unknown_mode : Mode

pub record Request : Type 0 where
  pub query : Text
  pub limit : ℕ
  pub host : Text
  pub mode : Mode

pub record Hit (N : Type 0) : Type 0 where
  pub url : Text
  pub host : Text
  pub title : Text
  pub text : Text
  pub score : N

pub record Signal (N : Type 0) : Type 0 where
  pub rank : ℕ
  pub score : N

pub record Page (N : Type 0) : Type 0 where
  pub hit : Hit N
  pub rank : ℕ

pub record Result (N W : Type 0) : Type 0 where
  pub url : Text
  pub host : Text
  pub title : Text
  pub snippet : Text
  pub score : W
  pub dense : Option (Signal N)
  pub bm25 : Option (Signal N)

module _ {N : Type 0} where
  -- The loop of `pages`: the URLs seen, and how many pages there are.
  unfoldable pub pages_from : List Text → ℕ → List (Hit N) → List (Page N)
  pages_from seen n [] = []
  pages_from seen n (hit ∷ hits) = elim (is_seen hit.url seen) [
    | true ↦ pages_from seen n hits
    | false ↦ record { hit = hit; rank = n + 1 } ∷ pages_from (hit.url ∷ seen) (n + 1) hits
  ]

  unfoldable pub pages : List (Hit N) → List (Page N)
  pages hits = pages_from [] 0 hits

  unfoldable pub pages_of : Option (List (Hit N)) → Option (List (Page N))
  pages_of none = none
  pages_of (some hits) = some (pages hits)

  -- `strings.TrimPrefix(hit.Text, hit.Title+"\n\n")`.
  unfoldable pub snippet_of : Hit N → Text
  snippet_of hit =
      let title : Text = hit.title ++ 0xa ∷ 0xa ∷ [] in
      if has_prefix title hit.text then drop (length title) hit.text else hit.text

  abbrev pub signal_of : Page N → Signal N
  signal_of p = record { rank = p.rank; score = p.hit.score }

module _ (F : Floats) where
  open F use {Narrow, Wide, widen, reciprocal, plus, none_yet, above, differ}

  unfoldable pub new_result : Page Narrow → Result Narrow Wide
  new_result p = record {
    url = p.hit.url;
    host = p.hit.host;
    title = p.hit.title;
    snippet = [];
    score = none_yet;
    dense = none;
    bm25 = none;
  }

  unfoldable pub add_dense : Page Narrow → Result Narrow Wide → Result Narrow Wide
  add_dense p r = record r { dense = some (signal_of p); snippet = snippet_of p.hit }

  unfoldable pub ranks_before : ℕ → Option (Signal Narrow) → Bool
  ranks_before n none = true
  ranks_before n (some s) = ltb n s.rank

  unfoldable pub add_bm25 : Page Narrow → Result Narrow Wide → Result Narrow Wide
  add_bm25 p r = record r {
    bm25 = some (signal_of p);
    snippet = if ranks_before p.rank r.dense then snippet_of p.hit else r.snippet;
  }

  -- `get` and what follows it: the page's result, one made at the end if there is none yet.
  unfoldable pub at_result :
      (Result Narrow Wide → Result Narrow Wide)
      → Page Narrow
      → List (Result Narrow Wide)
      → List (Result Narrow Wide)
  at_result change p [] = change (new_result p) ∷ []
  at_result change p (r ∷ rs) =
      let rest = at_result change p rs in if r.url == p.hit.url then change r ∷ rs else r ∷ rest

  unfoldable pub add_all :
      (Page Narrow → Result Narrow Wide → Result Narrow Wide)
      → List (Page Narrow)
      → List (Result Narrow Wide)
      → List (Result Narrow Wide)
  add_all add [] rs = rs
  add_all add (p ∷ ps) rs = add_all add ps (at_result (add p) p rs)

  unfoldable pub add_signal : ℕ → Option (Signal Narrow) → Wide → Wide
  add_signal k none total = total
  add_signal k (some s) total = plus total (reciprocal (k + s.rank))

  unfoldable pub single_score : Option (Signal Narrow) → Wide → Wide
  single_score none old = old
  single_score (some s) old = widen s.score

  unfoldable pub scored : ℕ → Mode → Result Narrow Wide → Result Narrow Wide
  scored k dense_only r = record r { score = single_score r.dense r.score }
  scored k bm25_only r = record r { score = single_score r.bm25 r.score }
  scored k hybrid r = record r { score = add_signal k r.bm25 (add_signal k r.dense r.score) }
  scored k unknown_mode r = record r { score = add_signal k r.bm25 (add_signal k r.dense r.score) }

  -- Whether the first result has a better best rank; a result without signals ranks last.
  unfoldable pub best_rank : Option (Signal Narrow) → Option (Signal Narrow) → Option ℕ
  best_rank none none = none
  best_rank none (some b) = some b.rank
  best_rank (some a) none = some a.rank
  best_rank (some a) (some b) = some (if ltb b.rank a.rank then b.rank else a.rank)

  unfoldable pub better_rank : Option ℕ → Option ℕ → Bool
  better_rank none b = false
  better_rank (some a) none = true
  better_rank (some a) (some b) = ltb a b

  unfoldable pub less : Result Narrow Wide → Result Narrow Wide → Bool
  less a b =
      if differ a.score b.score
      then above a.score b.score
      else better_rank (best_rank a.dense a.bm25) (best_rank b.dense b.bm25)

  -- `sort.SliceStable`: each result goes in front of the first that is not before it.
  unfoldable pub insert_sorted :
      Result Narrow Wide → List (Result Narrow Wide) → List (Result Narrow Wide)
  insert_sorted r [] = r ∷ []
  insert_sorted r (q ∷ qs) =
      let rest = insert_sorted r qs in if less q r then q ∷ rest else r ∷ q ∷ qs

  unfoldable pub stable_sort : List (Result Narrow Wide) → List (Result Narrow Wide)
  stable_sort [] = []
  stable_sort (r ∷ rs) = insert_sorted r (stable_sort rs)

  unfoldable pub fuse :
      List (Page Narrow) → List (Page Narrow) → ℕ → Mode → List (Result Narrow Wide)
  fuse dense bm25 k mode =
      stable_sort (map (scored k mode) (add_all add_bm25 bm25 (add_all add_dense dense [])))

pub data SearchError : Type 0 where
  empty_query invalid_request unknown search_failed : SearchError

pub data Answer (A : Type 0) : Type 0 where
  failed : SearchError → Answer A
  found : A → Answer A

unfoldable pub wants_dense : Mode → Bool
wants_dense hybrid = true
wants_dense dense_only = true
wants_dense bm25_only = false
wants_dense unknown_mode = false

unfoldable pub wants_bm25 : Mode → Bool
wants_bm25 hybrid = true
wants_bm25 bm25_only = true
wants_bm25 dense_only = false
wants_bm25 unknown_mode = false

unfoldable pub is_known : Mode → Bool
is_known unknown_mode = false
is_known hybrid = true
is_known dense_only = true
is_known bm25_only = true

module _ {Vector N : Type 0} where
  -- `searchDense`: the vectors of the query's one text, and the search at the vector.
  unfoldable pub search_dense :
      Option (List Vector) → (Vector → Option (List (Hit N))) → Option (List (Page N))
  search_dense none hits_at = none
  search_dense (some []) hits_at = none
  search_dense (some (v ∷ [])) hits_at = pages_of (hits_at v)
  search_dense (some (v ∷ w ∷ vs)) hits_at = none

-- The list of one kind of search, empty where the mode does not want it.
unfoldable pub when_wanted : {N : Type 0} → Bool → Option (List (Page N)) → Option (List (Page N))
when_wanted true found_pages = found_pages
when_wanted false found_pages = some []

-- What the embedder and the store answer to a trimmed query on a host.
pub record Backend (F : Floats) : Type 1 where
  pub Vector : Type 0
  pub embed : Text → Option (List Vector)
  pub search_vector : Text → Vector → Option (List (Hit F.Narrow))
  pub search_text : Text → Text → Option (List (Hit F.Narrow))
  pub lower : Text → Text

module _ (F : Floats) (B : Backend F) (query_prefix : Text) (rrf_k : ℕ) where
  unfoldable pub fused :
      ℕ
      → Mode
      → Option (List (Page F.Narrow))
      → Option (List (Page F.Narrow))
      → Answer (List (Result F.Narrow F.Wide))
  fused limit mode none bm25 = failed search_failed
  fused limit mode (some dense) none = failed search_failed
  fused limit mode (some dense) (some bm25) = found (take limit (fuse F dense bm25 rrf_k mode))

  unfoldable pub search_pages : Text → Text → ℕ → Mode → Answer (List (Result F.Narrow F.Wide))
  search_pages query host limit mode =
      fused limit mode
        (when_wanted (wants_dense mode)
          (search_dense (B.embed (query_prefix ++ query)) (B.search_vector host)))
        (when_wanted (wants_bm25 mode) (pages_of (B.search_text query host)))

  unfoldable pub search_for : Request → Answer (List (Result F.Narrow F.Wide))
  search_for req =
      let query = trim_space req.query in
      if is_empty query
      then failed empty_query
      else if leb req.limit 0
      then failed invalid_request
      else if is_known req.mode
      then search_pages query (B.lower (trim_space req.host)) req.limit req.mode
      else failed unknown
