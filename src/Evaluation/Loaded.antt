-- ===== src/Evaluation/Loaded.antt =====
-- internal/evaluation/dataset.go: what every loaded dataset is like.
use project_arachne.Prelude.{
  ℕ, suc, ◌≤◌, ◌<◌, ◌≡◌, refl, ap, subst, inl, inr, List, [], ◌∷◌, Bool, true, false, ◌||◌, some,
  ltb, arith, All, ◌==◌, ==_iff, ==_refl, nat_eq, list_eq, is_seen, lookup, insert, lookup-insert,
  insert-All, length, Bool-cases, Option-cases, Text,
}
use project_arachne.Strings.{is_empty, trim_space}
use project_arachne.Urlnorm.{NetUrl, from_user_input}
use project_arachne.Evaluation.{
  Grade, negative, grade, RawQuery, Query, Judged, misjudged, judged, max_grade, is_other,
  check_judgements, Checked, unchecked, checked, as_checked, id_of, check_query, Dataset, refused,
  loaded, with_query, check_queries, load_dataset,
}

-- A judgement of a page: its URL is one that a person may type, in canonical form, and its grade is
-- on the scale.
unfoldable pub IsJudgement : NetUrl → Text × ℕ → Type 0
IsJudgement net (url, n) = ((raw : Text) × (from_user_input net raw ≡ some url)) × (n ≤ max_grade)

-- A page that is relevant.
abbrev pub HasRelevant : List (Text × ℕ) → Type 0
HasRelevant canonical = (url : Text) × (n : ℕ) × (lookup url canonical ≡ some n) × (0 < n)

-- A query that may be evaluated.
pub record IsSound (net : NetUrl) (q : Query) : Type 0 where
  pub full : is_empty q.text ≡ false
  pub judgements : All (IsJudgement net) q.relevant
  pub relevant : HasRelevant q.relevant

insert-HasRelevant :
    (url : Text) (n : ℕ) (canonical : List (Text × ℕ))
    → is_other (lookup url canonical) n ≡ false
    → HasRelevant canonical
    → HasRelevant (insert url n canonical)
unfolding is_other
insert-HasRelevant url n canonical same (u, m, at, pos) = elim (Bool-cases (url == u)) [
  | inl here ↦ (
    u,
    m,
    ground (
      arith,
      lookup-insert url u n canonical,
      ==_iff url u,
      ==_iff m n,
      ap (λ t. lookup t canonical),
    ),
    pos,
  )
  | inr there ↦ (u, m, ground (arith, lookup-insert url u n canonical), pos)
]

-- What is known of the judgements so far.
abbrev Sofar : NetUrl → List (Text × ℕ) → Bool → Type 0
Sofar net canonical has = All (IsJudgement net) canonical × (has ≡ true → HasRelevant canonical)

insert-Sofar :
    (net : NetUrl) (raw url : Text) (n : ℕ) (canonical : List (Text × ℕ)) (has : Bool)
    → from_user_input net raw ≡ some url
    → n ≤ max_grade
    → is_other (lookup url canonical) n ≡ false
    → Sofar net canonical has
    → Sofar net (insert url n canonical) (has || ltb 0 n)
insert-Sofar net raw url n canonical has e le same (all, known) = (
  insert-All (IsJudgement net) url n canonical (unfold IsJudgement in ((raw, e), le)) all,
  λ h. elim (Bool-cases has) [
    | inl old ↦ insert-HasRelevant url n canonical same (known old)
    | inr new ↦
        (url, n, ground (arith, lookup-insert url url n canonical, ==_refl url), ground arith)
  ],
)

-- The judgements are all right, if there are any.
unfoldable JudgedWell : NetUrl → Judged → Type 0
JudgedWell net (misjudged e) = Unit
JudgedWell net (judged canonical has) = Sofar net canonical has

check_judgements-JudgedWell :
    (net : NetUrl) (items : List (Text × Grade)) (canonical : List (Text × ℕ)) (has : Bool)
    → Sofar net canonical has
    → JudgedWell net (check_judgements net items canonical has)
unfolding check_judgements JudgedWell
check_judgements-JudgedWell net [] canonical has ok = ok
check_judgements-JudgedWell net ((raw, negative) ∷ items) canonical has ok =
    elim (Option-cases (from_user_input net raw)) [
      | inl e ↦ rw (e, check_judgements) tt
      | inr (url, e) ↦ rw (e, check_judgements) tt
    ]
check_judgements-JudgedWell net ((raw, grade n) ∷ items) canonical has ok =
    elim (Option-cases (from_user_input net raw)) [
      | inl e ↦ rw (e, check_judgements) tt
      | inr (url, e) ↦ elim (Bool-cases (ltb max_grade n)) [
        | inl high ↦ rw (e, check_judgements) (rw high tt)
        | inr on_scale ↦ elim (Bool-cases (is_other (lookup url canonical) n)) [
          | inl twice ↦ rw (e, check_judgements) (rw (on_scale, twice) tt)
          | inr once ↦
              rw (e, check_judgements)
                (rw (on_scale, once)
                  (check_judgements-JudgedWell net items (insert url n canonical) (has || ltb 0 n)
                    (insert-Sofar net raw url n canonical has e (ground arith) once ok)))
        ]
      ]
    ]

-- The query is all right, if there is one, and its ID is new.
unfoldable CheckedWell : NetUrl → List Text → Checked → Type 0
CheckedWell net seen (unchecked e) = Unit
CheckedWell net seen (checked q) = IsSound net q × (is_seen q.id seen ≡ false)

as_checked-CheckedWell :
    (net : NetUrl) (seen : List Text) (id text host : Text) (r : Judged)
    → is_seen id seen ≡ false
    → is_empty text ≡ false
    → JudgedWell net r
    → CheckedWell net seen (as_checked id text host r)
unfolding as_checked JudgedWell CheckedWell
as_checked-CheckedWell net seen id text host (misjudged e) new full ok = tt
as_checked-CheckedWell net seen id text host (judged canonical false) new full ok = tt
as_checked-CheckedWell net seen id text host (judged canonical true) new full (all, known) =
    (record { full = full; judgements = all; relevant = known refl }, new)

check_query-CheckedWell :
    (net : NetUrl) (print : ℕ → Text) (i : ℕ) (seen : List Text) (q : RawQuery)
    → CheckedWell net seen (check_query net print i seen q)
unfolding check_query CheckedWell
check_query-CheckedWell net print i seen q = elim (Bool-cases (is_seen (id_of print i q.id) seen)) [
  | inl old ↦ rw (old, check_query) tt
  | inr new ↦ elim (Bool-cases (is_empty (trim_space q.text))) [
    | inl none_ ↦ rw (new, check_query) (rw none_ tt)
    | inr full ↦
        rw (new, check_query)
          (rw full (
            as_checked-CheckedWell net seen (id_of print i q.id) (trim_space q.text) q.host
              (check_judgements net q.relevant [] false) new full
              (check_judgements-JudgedWell net q.relevant [] false
                (tt, λ h. absurd (ground arith)))))
  ]
]

-- The queries are all right, and no ID comes twice or was seen before.
abbrev pub AreSound : NetUrl → List Text → List Query → Type 0
AreSound net seen [] = Unit
AreSound net seen (q ∷ queries) =
    IsSound net q × (is_seen q.id seen ≡ false) × AreSound net (q.id ∷ seen) queries

unfoldable LoadedWell : NetUrl → List Text → ℕ → Dataset → Type 0
LoadedWell net seen n (refused e) = Unit
LoadedWell net seen n (loaded queries) = AreSound net seen queries × (length queries ≡ n)

with_query-LoadedWell :
    (net : NetUrl) (seen : List Text) (n : ℕ) (q : Query) (d : Dataset)
    → IsSound net q
    → is_seen q.id seen ≡ false
    → LoadedWell net (q.id ∷ seen) n d
    → LoadedWell net seen (suc n) (with_query q d)
unfolding with_query LoadedWell
with_query-LoadedWell net seen n q (refused e) sound new ok = tt
with_query-LoadedWell net seen n q (loaded queries) sound new (all, count) =
    ((sound, new, all), ap suc count)

after_check-LoadedWell :
    (net : NetUrl) (seen : List Text) (n : ℕ) (rest : Query → Dataset) (c : Checked)
    → ((q : Query) → LoadedWell net (q.id ∷ seen) n (rest q))
    → CheckedWell net seen c
    → LoadedWell net seen
        (suc n)
        (elim c [ unchecked e ↦ refused e | checked q ↦ with_query q (rest q) ])
unfolding CheckedWell LoadedWell
after_check-LoadedWell net seen n rest (unchecked e) well ok = tt
after_check-LoadedWell net seen n rest (checked q) well (sound, new) =
    with_query-LoadedWell net seen n q (rest q) sound new (well q)

check_queries-LoadedWell :
    (net : NetUrl) (print : ℕ → Text) (i : ℕ) (seen : List Text) (raws : List RawQuery)
    → LoadedWell net seen (length raws) (check_queries net print i seen raws)
unfolding check_queries LoadedWell
check_queries-LoadedWell net print i seen [] = (tt, refl)
check_queries-LoadedWell net print i seen (q ∷ raws) =
    after_check-LoadedWell net seen (length raws)
      (λ c. check_queries net print (suc i) (c.id ∷ seen) raws) (check_query net print i seen q)
      (λ c. check_queries-LoadedWell net print (suc i) (c.id ∷ seen) raws)
      (check_query-CheckedWell net print i seen q)

-- A dataset that is loaded has one query for each of the file's, of which there is one at least. No two
-- have one ID, each has a text and a relevant page, and every judgement is one of the canonical form of
-- a URL as typed, with a grade on the scale.
pub load_dataset-AreSound :
    (net : NetUrl) (print : ℕ → Text) (raws : List RawQuery) (queries : List Query)
    → load_dataset net print raws ≡ loaded queries
    → AreSound net [] queries × (length queries ≡ length raws) × (0 < length raws)
unfolding load_dataset LoadedWell
load_dataset-AreSound net print [] queries h = absurd (ground arith)
load_dataset-AreSound net print (q ∷ raws) queries h =
    let (all, count) =
      subst (LoadedWell net [] (length (q ∷ raws))) h
        (check_queries-LoadedWell net print 0 [] (q ∷ raws)) in
    (all, count, omega arith)
