-- ===== src/Urlnorm/Tracking.antt =====
-- `stripTracking` of internal/urlnorm/urlnorm.go: what it keeps, and that it is stable.
use project_arachne.Prelude.{
  list_eq, subst, All, In, map, codes, true, false, ==_iff, Bool-cases, ℕ, ◌≡◌, ◌≢◌, refl, sym, ◌⊎◌,
  ◌∙◌, List, [], ◌∷◌, Bool, arith, ◌==◌, nat_eq, Text, filter, inl, inr,
}
use project_arachne.Strings.{up_to, has_prefix, split, join, is_empty, split_by}
use project_arachne.Strings.Splitting.{AllFail, split_by-AllFail, split-join}
use project_arachne.Urlnorm.{contains, tracking_params, keeps, strip_tracking}

filter-AllFail :
    (test : ℕ → Bool) (p : Text → Bool) (ps : List Text)
    → AllFail test ps
    → AllFail test (filter p ps)
filter-AllFail test p [] h = tt
filter-AllFail test p (x ∷ ps) h = ground (arith, filter-AllFail test p ps h.1)

filter_twice : (p : Text → Bool) (ps : List Text) → filter p (filter p ps) ≡ filter p ps
filter_twice p [] = refl
filter_twice p (x ∷ ps) = ground (arith, filter_twice p ps)

strip_tracking_lem :
    (lower : ℕ → ℕ) (q : Text)
    → strip_tracking lower q ≡ join (b'&' ∷ []) (filter (keeps lower) (split b'&' q))
unfolding strip_tracking split split_by join keeps is_empty
strip_tracking_lem lower [] = refl
strip_tracking_lem lower (c ∷ q) = refl

List-cases : (ps : List Text) → (ps ≡ []) ⊎ (ps ≢ [])
List-cases [] = inl refl
List-cases (p ∷ ps) = inr (λ e. cc)

split-join_kept :
    (kept : List Text)
    → AllFail (λ c. c == b'&') kept
    → kept ≢ []
    → split b'&' (join (b'&' ∷ []) kept) ≡ kept
split-join_kept [] h ne = absurd (ne refl)
split-join_kept (p ∷ ps) h ne = split-join b'&' p ps h

split-AllFail : (q : Text) → AllFail (λ c. c == b'&') (split b'&' q)
unfolding split
split-AllFail q = split_by-AllFail (λ c. c == b'&') q

join-nil : join (b'&' ∷ []) [] ≡ []
unfolding join
join-nil = refl

-- The parameters behind `stripTracking` are exactly those that it keeps, in their order and as they
-- were written; where none is kept, the query is empty.
pub split-strip_tracking :
    (lower : ℕ → ℕ) (q : Text)
    → let kept = filter (keeps lower) (split b'&' q) in
      (kept ≢ [] → split b'&' (strip_tracking lower q) ≡ kept)
      × (kept ≡ [] → strip_tracking lower q ≡ [])
split-strip_tracking lower q = (
  λ ne. rw (strip_tracking_lem lower q) (
      split-join_kept (filter (keeps lower) (split b'&' q))
        (filter-AllFail (λ c. c == b'&') (keeps lower) (split b'&' q) (split-AllFail q)) ne),
  λ e. rw (strip_tracking_lem lower q, e) join-nil,
)

-- Stripping twice is stripping once.
pub strip_tracking_twice :
    (lower : ℕ → ℕ) (q : Text)
    → strip_tracking lower (strip_tracking lower q) ≡ strip_tracking lower q
strip_tracking_twice lower q = elim (List-cases (filter (keeps lower) (split b'&' q))) [
  | inl none_ ↦ rw ((split-strip_tracking lower q).1 none_) (unfold strip_tracking in refl)
  | inr kept ↦
      strip_tracking_lem lower (strip_tracking lower q)
      ∙ rw ((split-strip_tracking lower q).0 kept, filter_twice (keeps lower) (split b'&' q))
          (sym (strip_tracking_lem lower q))
]

-- A parameter that does not track: its key in lower case is none of the listed ones and has no `utm_`.
abbrev pub IsPlain : (ℕ → ℕ) → Text → Type 0
IsPlain lower pair =
    let key = map lower (up_to b'=' pair) in
    (pair ≢ []) × (¬ In key tracking_params) × (has_prefix (codes "utm_") key ≡ false)

contains-In : (x : Text) (xs : List Text) → In x xs → contains (λ p. p == x) xs ≡ true
unfolding contains
contains-In x [] h = absurd h
contains-In x (y ∷ xs) (inl e) = ground (arith, ==_iff y x)
contains-In x (y ∷ xs) (inr h) = ground (arith, contains-In x xs h)

keeps-IsPlain : (lower : ℕ → ℕ) (pair : Text) → keeps lower pair ≡ true → IsPlain lower pair
unfolding keeps is_empty
keeps-IsPlain lower [] h = absurd (ground arith)
keeps-IsPlain lower (c ∷ pair) h =
    let key = map lower (up_to b'=' (c ∷ pair)) in
    elim (Bool-cases (contains (λ p. p == key) tracking_params)) [
      | inl listed ↦ absurd (ground arith)
      | inr unlisted ↦
          (λ e. cc, λ tracks. cc (contains-In key tracking_params tracks), ground arith)
    ]

filter-IsPlain : (lower : ℕ → ℕ) (ps : List Text) → All (IsPlain lower) (filter (keeps lower) ps)
filter-IsPlain lower [] = tt
filter-IsPlain lower (p ∷ ps) = elim (Bool-cases (keeps lower p)) [
  | inl kept ↦ rw (kept, filter) (keeps-IsPlain lower p kept, filter-IsPlain lower ps)
  | inr dropped ↦ rw (dropped, filter) (filter-IsPlain lower ps)
]

-- No parameter is left that tracks.
pub strip_tracking-IsPlain :
    (lower : ℕ → ℕ) (q : Text)
    → (strip_tracking lower q ≡ []) ⊎ All (IsPlain lower) (split b'&' (strip_tracking lower q))
strip_tracking-IsPlain lower q = elim (List-cases (filter (keeps lower) (split b'&' q))) [
  | inl none_ ↦ inl ((split-strip_tracking lower q).1 none_)
  | inr kept ↦ inr (
      subst (All (IsPlain lower)) (sym ((split-strip_tracking lower q).0 kept))
        (filter-IsPlain lower (split b'&' q)))
]
