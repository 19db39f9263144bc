-- ===== src/Evaluation.antt =====
-- internal/evaluation/dataset.go: the checks of a file of judgements. Reading it and its YAML are not
-- modelled: the queries come decoded, the judgements of each in the order in which Go happens to run
-- through its map, and `%d` is the function `print`.
pub mod Loaded
use project_arachne.Prelude.{
  ℕ, suc, List, [], ◌∷◌, ◌++◌, Bool, true, false, not, ◌||◌, Option, none, some, ltb, if◌then◌else◌,
  ◌==◌, nat_eq, list_eq, is_seen, lookup, insert, Text, codes,
}
use project_arachne.Strings.{is_empty, trim_space}
use project_arachne.Urlnorm.{NetUrl, from_user_input}

-- An integer.
pub data Grade : Type 0 where
  negative : Grade
  grade : ℕ → Grade

pub record RawQuery : Type 0 where
  pub id : Text
  pub text : Text
  pub host : Text
  pub relevant : List (Text × Grade)

pub record Query : Type 0 where
  pub id : Text
  pub text : Text
  pub host : Text
  pub relevant : List (Text × ℕ)

pub data DatasetError : Type 0 where
  no_queries duplicate_id empty_query not_a_url bad_grade judged_twice no_relevant : DatasetError

pub data Judged : Type 0 where
  misjudged : DatasetError → Judged
  judged : List (Text × ℕ) → Bool → Judged

abbrev pub max_grade : ℕ
max_grade = 3

unfoldable pub is_other : Option ℕ → ℕ → Bool
is_other none n = false
is_other (some prev) n = not (prev == n)

-- The loop over the judgements of a query: `canonical` and `hasRelevant`.
unfoldable pub check_judgements : NetUrl → List (Text × Grade) → List (Text × ℕ) → Bool → Judged
check_judgements net [] canonical has_relevant = judged canonical has_relevant
check_judgements net ((raw, negative) ∷ items) canonical has_relevant =
    elim (from_user_input net raw) [ none ↦ misjudged not_a_url | some url ↦ misjudged bad_grade ]
check_judgements net ((raw, grade n) ∷ items) canonical has_relevant =
    elim (from_user_input net raw) [
      | none ↦ misjudged not_a_url
      | some url ↦
          let rest =
            check_judgements net items (insert url n canonical) (has_relevant || ltb 0 n) in
          if ltb max_grade n
          then misjudged bad_grade
          else if is_other (lookup url canonical) n
          then misjudged judged_twice
          else rest
    ]

pub data Checked : Type 0 where
  unchecked : DatasetError → Checked
  checked : Query → Checked

unfoldable pub as_checked : Text → Text → Text → Judged → Checked
as_checked id text host (misjudged e) = unchecked e
as_checked id text host (judged canonical false) = unchecked no_relevant
as_checked id text host (judged canonical true) =
    checked (record { id = id; text = text; host = host; relevant = canonical })

unfoldable pub id_of : (ℕ → Text) → ℕ → Text → Text
id_of print i id = if is_empty id then codes "q" ++ print (suc i) else id

-- One query, the i-th, where the IDs were seen before it.
unfoldable pub check_query : NetUrl → (ℕ → Text) → ℕ → List Text → RawQuery → Checked
check_query net print i seen q =
    let id = id_of print i q.id in
    let text = trim_space q.text in
    if is_seen id seen
    then unchecked duplicate_id
    else if is_empty text
    then unchecked empty_query
    else as_checked id text q.host (check_judgements net q.relevant [] false)

pub data Dataset : Type 0 where
  refused : DatasetError → Dataset
  loaded : List Query → Dataset

unfoldable pub with_query : Query → Dataset → Dataset
with_query q (refused e) = refused e
with_query q (loaded queries) = loaded (q ∷ queries)

-- The loop over the queries; the one at hand is the i-th, from 0.
unfoldable pub check_queries : NetUrl → (ℕ → Text) → ℕ → List Text → List RawQuery → Dataset
check_queries net print i seen [] = loaded []
check_queries net print i seen (q ∷ queries) = elim (check_query net print i seen q) [
  | unchecked e ↦ refused e
  | checked c ↦ with_query c (check_queries net print (suc i) (c.id ∷ seen) queries)
]

-- `LoadDataset`, behind the decoding.
unfoldable pub load_dataset : NetUrl → (ℕ → Text) → List RawQuery → Dataset
load_dataset net print [] = refused no_queries
load_dataset net print (q ∷ queries) = check_queries net print 0 [] (q ∷ queries)
