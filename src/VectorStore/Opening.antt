-- ===== src/VectorStore/Opening.antt =====
-- internal/vectorstore/milvus.go: the name of a collection, and opening it. `Admin` holds the calls of
-- Milvus that the code makes for it; the schema that `create` sends is known by its dimension.
use project_arachne.Prelude.{
  ℕ, ◌<◌, ◌≡◌, refl, inl, inr, List, [], ◌∷◌, ◌++◌, map, Bool, true, false, ◌&&◌, ◌||◌, not, Option,
  none, some, ltb, leb, if◌then◌else◌, arith, ◌==◌, ==_iff, nat_eq, list_eq, Bool-cases,
  Option-cases, Text, codes,
}
use project_arachne.Strings.{is_empty}
use project_arachne.Urlnorm.{is_letter, is_digit}
use project_arachne.PageParser.Urls.{trim_left_by, trim_right_by}

-- The loop of `sanitize`, with its flag.
unfoldable pub sanitize_from : Bool → Text → Text
sanitize_from underscore [] = []
sanitize_from underscore (c ∷ s) =
    let kept = c ∷ sanitize_from false s in
    let replaced = sanitize_from true s in
    if ltb c 0x7f && (is_letter c || is_digit c)
    then kept
    else if underscore
    then replaced
    else b'_' ∷ replaced

unfoldable pub is_underscore : ℕ → Bool
is_underscore c = c == b'_'

unfoldable pub sanitize : (ℕ → ℕ) → Text → Text
sanitize lower s =
    trim_right_by is_underscore (trim_left_by is_underscore (sanitize_from false (map lower s)))

unfoldable pub collection_name : (ℕ → ℕ) → (ℕ → Text) → Text → Text → ℕ → Text
collection_name lower print prefix model dimension =
    prefix ++ (codes "_v1_" ++ (sanitize lower model ++ (codes "_" ++ print dimension)))

-- A field of a schema; `GetDim` fails where there is no dimension.
pub record Field : Type 0 where
  pub name : Text
  pub dim : Option ℕ

-- The calls; none is an error.
pub record Admin (S : Type 0) : Type 0 where
  pub connects : Bool
  pub has_collection : S → Option Bool
  pub describe : S → Option (List Field)
  pub create : ℕ → S → Bool × S
  pub load : S → Bool

pub data OpenError : Type 0 where
  invalid_config not_connected not_asked not_described not_created not_loaded : OpenError
  schema_mismatch : OpenError

-- `checkDimension`, on the fields: the first dense one decides.
unfoldable pub check_fields : ℕ → List Field → Option OpenError
check_fields dimension [] = some schema_mismatch
check_fields dimension (f ∷ fields) =
    let rest = check_fields dimension fields in
    if not (f.name == codes "dense") then rest else elim f.dim [
      | none ↦ some schema_mismatch
      | some dim ↦ if not (dim == dimension) then some schema_mismatch else none
    ]

module _ {S : Type 0} (a : Admin S) where
  unfoldable pub check_dimension : ℕ → S → Option OpenError
  check_dimension dimension s = elim (a.describe s) [
    | none ↦ some not_described
    | some fields ↦ check_fields dimension fields
  ]

  unfoldable pub load_collection : Option OpenError × S → Option OpenError × S
  load_collection (some e, s) = (some e, s)
  load_collection (none, s) = if a.load s then (none, s) else (some not_loaded, s)

  unfoldable pub created : Bool × S → Option OpenError × S
  created (true, s) = (none, s)
  created (false, s) = (some not_created, s)

  unfoldable pub ensure_collection : ℕ → S → Option OpenError × S
  ensure_collection dimension s = elim (a.has_collection s) [
    | none ↦ (some not_asked, s)
    | some has ↦
        load_collection
          (if has then (check_dimension dimension s, s) else created (a.create dimension s))
  ]

  -- `NewMilvus`, with its address and collection.
  unfoldable pub new_milvus : Text → Text → ℕ → S → Option OpenError × S
  new_milvus address collection dimension s =
      if is_empty address || is_empty collection || leb dimension 0
      then (some invalid_config, s)
      else if not a.connects
      then (some not_connected, s)
      else ensure_collection dimension s

-- The first dense field has the dimension.
unfoldable pub HasDense : ℕ → List Field → Type 0
HasDense dimension [] = ⊥
HasDense dimension (f ∷ fields) =
    if f.name == codes "dense" then (f.dim ≡ some dimension) else HasDense dimension fields

check_fields-HasDense :
    (dimension : ℕ) (fields : List Field)
    → check_fields dimension fields ≡ none
    → HasDense dimension fields
unfolding check_fields HasDense
check_fields-HasDense dimension [] = λ h. absurd (ground arith)
check_fields-HasDense dimension (f ∷ fields) = elim (Bool-cases (f.name == codes "dense")) [
  | inr other ↦ rw (other, check_fields, HasDense) (check_fields-HasDense dimension fields)
  | inl dense ↦
      rw (dense, check_fields, HasDense)
        (elim (Option-cases f.dim) [
          | inl e ↦ λ h. absurd (ground arith)
          | inr (dim, e) ↦ λ h. ground (arith, ==_iff dim dimension)
        ])
]

module _ {S : Type 0} (a : Admin S)
    (creates : (dimension : ℕ) (s : S)
      → (a.create dimension s).0 ≡ true
      → (fields : List Field) × (a.describe (a.create dimension s).1 ≡ some fields)
        × HasDense dimension fields) where
  -- The collection's vectors have the dimension.
  abbrev pub IsOpen : ℕ → S → Type 0
  IsOpen dimension s =
      (fields : List Field) × (a.describe s ≡ some fields) × HasDense dimension fields

  load_collection-IsOpen :
      (dimension : ℕ) (p : Option OpenError × S)
      → (p.0 ≡ none → IsOpen dimension p.1)
      → (load_collection a p).0 ≡ none
      → IsOpen dimension (load_collection a p).1
  unfolding load_collection
  load_collection-IsOpen dimension (some e, s) is_open = λ h. absurd (ground arith)
  load_collection-IsOpen dimension (none, s) is_open = elim (Bool-cases (a.load s)) [
    | inl e ↦ rw (e, load_collection) (λ h. is_open refl)
    | inr e ↦ rw (e, load_collection) (λ h. absurd (ground arith))
  ]

  check_dimension-IsOpen :
      (dimension : ℕ) (s : S) → check_dimension a dimension s ≡ none → IsOpen dimension s
  unfolding check_dimension
  check_dimension-IsOpen dimension s h = elim (Option-cases (a.describe s)) [
    | inl e ↦ absurd (ground arith)
    | inr (fields, e) ↦ (fields, e, check_fields-HasDense dimension fields (ground arith))
  ]

  created-IsOpen :
      (dimension : ℕ) (s : S)
      → (created a (a.create dimension s)).0 ≡ none
      → IsOpen dimension (created a (a.create dimension s)).1
  unfolding created
  created-IsOpen dimension s = elim (Bool-cases (a.create dimension s).0) [
    | inl e ↦ rw (e, created) (λ h. creates dimension s e)
    | inr e ↦ rw (e, created) (λ h. absurd (ground arith))
  ]

  ensure_collection-IsOpen :
      (dimension : ℕ) (s : S)
      → (ensure_collection a dimension s).0 ≡ none
      → IsOpen dimension (ensure_collection a dimension s).1
  unfolding ensure_collection
  ensure_collection-IsOpen dimension s = elim (Option-cases (a.has_collection s)) [
    | inl e ↦ rw (e, ensure_collection) (λ h. absurd (ground arith))
    | inr (has, e) ↦ elim (Bool-cases has) [
      | inl there ↦
          rw (e, ensure_collection)
            (rw there (
              load_collection-IsOpen dimension (check_dimension a dimension s, s)
                (check_dimension-IsOpen dimension s)))
      | inr new ↦
          rw (e, ensure_collection)
            (rw new (
              load_collection-IsOpen dimension (created a (a.create dimension s))
                (created-IsOpen dimension s)))
    ]
  ]

  -- A store that is opened without an error holds vectors of the dimension asked for, which is
  -- positive, whether the collection was there before or is new; if a collection that Milvus creates has
  -- the dimension that it was created with.
  pub new_milvus-IsOpen :
      (address collection : Text) (dimension : ℕ) (s : S)
      → (new_milvus a address collection dimension s).0 ≡ none
      → (0 < dimension) × IsOpen dimension (new_milvus a address collection dimension s).1
  unfolding new_milvus ensure_collection check_dimension created load_collection
  new_milvus-IsOpen address collection dimension s =
      elim (Bool-cases (is_empty address || is_empty collection || leb dimension 0)) [
        | inl bad ↦ rw (bad, new_milvus) (λ h. absurd (ground arith))
        | inr good ↦ elim (Bool-cases a.connects) [
          | inl up ↦
              rw (good, up, new_milvus)
                (λ h. (ground arith, ensure_collection-IsOpen dimension s h))
          | inr down ↦ rw (good, down, new_milvus) (λ h. absurd (ground arith))
        ]
      ]
