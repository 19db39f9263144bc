-- ===== src/Retrieval/Results.antt =====
-- What `Search` returns: no more results than asked for, and each page once.
use project_arachne.Prelude.{
  ℕ, zero, suc, ◌+◌, ◌≤◌, ◌≡◌, refl, subst, sym, List, [], ◌∷◌, ◌++◌, map, false, Option, none,
  some, leb, ◌==◌, nat_eq, list_eq, ==_false_sym, is_seen, length, take, length-take, All,
  Bool-cases, inl, inr, Text, arith,
}
use project_arachne.Strings.{trim_space, is_empty}
use project_arachne.Retrieval.{
  Floats, Mode, hybrid, dense_only, bm25_only, unknown_mode, Request, Hit, Page, Result, pages_from,
  pages, new_result, add_dense, add_bm25, at_result, add_all, scored, less, insert_sorted,
  stable_sort, fuse, Answer, failed, found, is_known, Backend, pages_of, fused, search_pages,
  search_for, wants_dense, wants_bm25, when_wanted, search_dense,
}

-- The pages are ranked from n + 1 on, and the URL of none was seen or comes twice.
abbrev pub AreRanked : {N : Type 0} → List Text → ℕ → List (Page N) → Type 0
AreRanked seen n [] = Unit
AreRanked seen n (p ∷ ps) =
    (p.rank ≡ n + 1) × (is_seen p.hit.url seen ≡ false) × AreRanked (p.hit.url ∷ seen) (n + 1) ps

pages_from-AreRanked :
    {N : Type 0} (seen : List Text) (n : ℕ) (hits : List (Hit N))
    → AreRanked seen n (pages_from seen n hits)
unfolding pages_from
pages_from-AreRanked seen n [] = tt
pages_from-AreRanked seen n (h ∷ hits) = elim (Bool-cases (is_seen h.url seen)) [
  | inl old ↦ rw (old, pages_from) (pages_from-AreRanked seen n hits)
  | inr new ↦ rw (new, pages_from) (refl, new, pages_from-AreRanked (h.url ∷ seen) (n + 1) hits)
]

-- However many of its chunks were hit: a page comes once, and the pages are ranked 1, 2, 3, …
pub pages-AreRanked : {N : Type 0} (hits : List (Hit N)) → AreRanked [] 0 (pages hits)
unfolding pages
pages-AreRanked hits = pages_from-AreRanked [] 0 hits

module _ (F : Floats) where
  abbrev Others : Text → List (Result F.Narrow F.Wide) → Type 0
  Others url = All (λ r. (r.url == url) ≡ false)

  -- No two results have one URL.
  abbrev pub Distinct : List (Result F.Narrow F.Wide) → Type 0
  Distinct [] = Unit
  Distinct (r ∷ rs) = Others r.url rs × Distinct rs

  abbrev KeepsUrl : (Result F.Narrow F.Wide → Result F.Narrow F.Wide) → Type 0
  KeepsUrl change = (r : Result F.Narrow F.Wide) → (change r).url ≡ r.url

  module _ (change : Result F.Narrow F.Wide → Result F.Narrow F.Wide) (keeps : KeepsUrl change)
      (p : Page F.Narrow) where
    at_result-Others :
        (url : Text) (rs : List (Result F.Narrow F.Wide))
        → (p.hit.url == url) ≡ false
        → Others url rs
        → Others url (at_result F change p rs)
    unfolding at_result new_result
    at_result-Others url [] new h =
        (subst (λ u. (u == url) ≡ false) (sym (keeps (new_result F p))) new, tt)
    at_result-Others url (r ∷ rs) new (h, hs) = elim (Bool-cases (r.url == p.hit.url)) [
      | inl same ↦ rw (same, at_result) (subst (λ u. (u == url) ≡ false) (sym (keeps r)) h, hs)
      | inr other ↦ rw (other, at_result) (h, at_result-Others url rs new hs)
    ]

    at_result-Distinct :
        (rs : List (Result F.Narrow F.Wide)) → Distinct rs → Distinct (at_result F change p rs)
    unfolding at_result
    at_result-Distinct [] h = (tt, tt)
    at_result-Distinct (r ∷ rs) (h, hs) = elim (Bool-cases (r.url == p.hit.url)) [
      | inl same ↦ rw (same, at_result) (subst (λ u. Others u rs) (sym (keeps r)) h, hs)
      | inr other ↦
          rw (other, at_result)
            (
              at_result-Others r.url rs (==_false_sym r.url p.hit.url other) h,
              at_result-Distinct rs hs,
            )
    ]

  add_all-Distinct :
      (add : Page F.Narrow → Result F.Narrow F.Wide → Result F.Narrow F.Wide)
      → ((p : Page F.Narrow) → KeepsUrl (add p))
      → (ps : List (Page F.Narrow)) (rs : List (Result F.Narrow F.Wide)) → Distinct rs
      → Distinct (add_all F add ps rs)
  unfolding add_all
  add_all-Distinct add keeps [] rs h = h
  add_all-Distinct add keeps (p ∷ ps) rs h =
      add_all-Distinct add keeps ps (at_result F (add p) p rs)
        (at_result-Distinct (add p) (keeps p) p rs h)

  scored_url : (k : ℕ) (mode : Mode) → KeepsUrl (scored F k mode)
  unfolding scored
  scored_url k hybrid r = refl
  scored_url k dense_only r = refl
  scored_url k bm25_only r = refl
  scored_url k unknown_mode r = refl

  map-Others :
      (k : ℕ) (mode : Mode) (url : Text) (rs : List (Result F.Narrow F.Wide))
      → Others url rs
      → Others url (map (scored F k mode) rs)
  map-Others k mode url [] h = tt
  map-Others k mode url (r ∷ rs) (h, hs) =
      (subst (λ u. (u == url) ≡ false) (sym (scored_url k mode r)) h, map-Others k mode url rs hs)

  map-Distinct :
      (k : ℕ) (mode : Mode) (rs : List (Result F.Narrow F.Wide))
      → Distinct rs
      → Distinct (map (scored F k mode) rs)
  map-Distinct k mode [] h = tt
  map-Distinct k mode (r ∷ rs) (h, hs) = (
    subst (λ u. Others u (map (scored F k mode) rs)) (sym (scored_url k mode r))
        (map-Others k mode r.url rs h),
    map-Distinct k mode rs hs,
  )

  insert_sorted-Others :
      (url : Text) (r : Result F.Narrow F.Wide) (qs : List (Result F.Narrow F.Wide))
      → (r.url == url) ≡ false
      → Others url qs
      → Others url (insert_sorted F r qs)
  unfolding insert_sorted
  insert_sorted-Others url r [] h hs = (h, tt)
  insert_sorted-Others url r (q ∷ qs) h (hq, hs) = elim (Bool-cases (less F q r)) [
    | inl before ↦ rw (before, insert_sorted) (hq, insert_sorted-Others url r qs h hs)
    | inr behind ↦ rw (behind, insert_sorted) (h, (hq, hs))
  ]

  insert_sorted-Distinct :
      (r : Result F.Narrow F.Wide) (qs : List (Result F.Narrow F.Wide))
      → Others r.url qs
      → Distinct qs
      → Distinct (insert_sorted F r qs)
  unfolding insert_sorted
  insert_sorted-Distinct r [] h hs = (tt, tt)
  insert_sorted-Distinct r (q ∷ qs) (h, hr) (hq, hs) = elim (Bool-cases (less F q r)) [
    | inl before ↦
        rw (before, insert_sorted)
          (
            insert_sorted-Others q.url r qs (==_false_sym q.url r.url h) hq,
            insert_sorted-Distinct r qs hr hs,
          )
    | inr behind ↦ rw (behind, insert_sorted) ((h, hr), (hq, hs))
  ]

  stable_sort-Others :
      (url : Text) (rs : List (Result F.Narrow F.Wide))
      → Others url rs
      → Others url (stable_sort F rs)
  unfolding stable_sort
  stable_sort-Others url [] h = tt
  stable_sort-Others url (r ∷ rs) (h, hs) =
      insert_sorted-Others url r (stable_sort F rs) h (stable_sort-Others url rs hs)

  stable_sort-Distinct :
      (rs : List (Result F.Narrow F.Wide)) → Distinct rs → Distinct (stable_sort F rs)
  unfolding stable_sort
  stable_sort-Distinct [] h = tt
  stable_sort-Distinct (r ∷ rs) (h, hs) =
      insert_sorted-Distinct r (stable_sort F rs) (stable_sort-Others r.url rs h)
        (stable_sort-Distinct rs hs)

  fuse-Distinct :
      (dense bm25 : List (Page F.Narrow)) (k : ℕ) (mode : Mode)
      → Distinct (fuse F dense bm25 k mode)
  unfolding fuse add_dense add_bm25
  fuse-Distinct dense bm25 k mode = stable_sort-Distinct _ (
      map-Distinct k mode _ (
        add_all-Distinct (add_bm25 F) (λ p r. refl) bm25 _
          (add_all-Distinct (add_dense F) (λ p r. refl) dense [] tt)))

  take-Others :
      (url : Text) (n : ℕ) (rs : List (Result F.Narrow F.Wide))
      → Others url rs
      → Others url (take n rs)
  take-Others url zero rs h = tt
  take-Others url (suc n) [] h = tt
  take-Others url (suc n) (r ∷ rs) (h, hs) = (h, take-Others url n rs hs)

  take-Distinct : (n : ℕ) (rs : List (Result F.Narrow F.Wide)) → Distinct rs → Distinct (take n rs)
  take-Distinct zero rs h = tt
  take-Distinct (suc n) [] h = tt
  take-Distinct (suc n) (r ∷ rs) (h, hs) = (take-Others r.url n rs h, take-Distinct n rs hs)

  abbrev pub IsPage : ℕ → Answer (List (Result F.Narrow F.Wide)) → Type 0
  IsPage limit (failed e) = Unit
  IsPage limit (found rs) = (length rs ≤ limit) × Distinct rs

  module _ (B : Backend F) (query_prefix : Text) (rrf_k : ℕ) where
    fused-IsPage :
        (limit : ℕ) (mode : Mode) (dense bm25 : Option (List (Page F.Narrow)))
        → IsPage limit (fused F B query_prefix rrf_k limit mode dense bm25)
    unfolding fused
    fused-IsPage limit mode none bm25 = tt
    fused-IsPage limit mode (some ds) none = tt
    fused-IsPage limit mode (some ds) (some bs) = (
      omega (arith, length-take limit (fuse F ds bs rrf_k mode)),
      take-Distinct limit (fuse F ds bs rrf_k mode) (fuse-Distinct ds bs rrf_k mode),
    )

    search_pages-IsPage :
        (query host : Text) (limit : ℕ) (mode : Mode)
        → IsPage limit (search_pages F B query_prefix rrf_k query host limit mode)
    unfolding search_pages
    search_pages-IsPage query host limit mode =
        fused-IsPage limit mode
          (when_wanted (wants_dense mode)
            (search_dense (B.embed (query_prefix ++ query)) (B.search_vector host)))
          (when_wanted (wants_bm25 mode) (pages_of (B.search_text query host)))

    -- A search that is answered gives at most as many results as were asked for, and no page twice,
    -- in every mode.
    pub search_for-IsPage :
        (req : Request) → IsPage req.limit (search_for F B query_prefix rrf_k req)
    unfolding search_for
    search_for-IsPage req = elim (Bool-cases (is_empty (trim_space req.query))) [
      | inl bare ↦ rw (bare, search_for) tt
      | inr asked ↦ elim (Bool-cases (leb req.limit 0)) [
        | inl nothing ↦ rw (asked, search_for) (rw (nothing, search_for) tt)
        | inr limited ↦ elim (Bool-cases (is_known req.mode)) [
          | inr strange ↦
              rw (asked, search_for) (rw (limited, search_for) (rw (strange, search_for) tt))
          | inl known ↦
              rw (asked, search_for)
                (rw (limited, search_for)
                  (rw (known, search_for)
                    (search_pages-IsPage (trim_space req.query) (B.lower (trim_space req.host))
                      req.limit req.mode)))
        ]
      ]
    ]
