-- ===== src/VectorStore/Rows.antt =====
-- internal/vectorstore/milvus.go, store.go: what Milvus promises, and the
-- lists of rows and IDs.
use project_arachne.Prelude.{
  ◌<◌, ◌≡◌, ◌≢◌, ◌↔◌, refl, ap, inl, inr, ◌⊎◌, List, [], ◌∷◌, Bool, true, Option, none, some, arith,
  In, ◌==◌, ==_iff, nat_eq, list_eq, is_seen, length, filter, Bool-cases, Text,
}
use project_arachne.VectorStore.{Row, no_column, column, Client, existing_ids_limit, row_ids}

-- What Milvus promises of a collection in which `stored s id` is the row with that primary key. A write
-- that fails may have been done in part.
pub record ClientLaws {S V : Type 0} (c : Client S V) (stored : S → Text → Option (Row V))
    : Type 0 where
  pub keyed : (s : S) (id : Text) (r : Row V) → stored s id ≡ some r → r.id ≡ id
  pub queried :
      (url : Text) (s : S) (cells : List (Option Text))
      → c.query url s ≡ column cells
      → length cells < existing_ids_limit
      → (id : Text)
      → (In (some id) cells → (r : Row V) × (stored s id ≡ some r) × (r.url ≡ url))
        × ((r : Row V) → stored s id ≡ some r → r.url ≡ url → In (some id) cells)
  pub queried_none :
      (url : Text) (s : S) (id : Text) (r : Row V)
      → c.query url s ≡ no_column
      → stored s id ≡ some r
      → r.url ≢ url
  pub upserts_only :
      (rows : List (Row V)) (s : S) (id : Text)
      → (stored (c.upsert rows s).1 id ≡ stored s id)
        ⊎ ((q : Row V) × In q rows × (q.id ≡ id) × (stored (c.upsert rows s).1 id ≡ some q))
  pub upserts_all :
      (rows : List (Row V)) (s : S) (r : Row V)
      → (c.upsert rows s).0 ≡ true
      → In r rows
      → (q : Row V) × In q rows × (q.id ≡ r.id) × (stored (c.upsert rows s).1 r.id ≡ some q)
  pub deletes_only :
      (ids : List Text) (s : S) (id : Text)
      → (stored (c.delete ids s).1 id ≡ stored s id)
        ⊎ (In id ids × (stored (c.delete ids s).1 id ≡ none))
  pub deletes_all :
      (ids : List Text) (s : S) (id : Text)
      → (c.delete ids s).0 ≡ true
      → In id ids
      → stored (c.delete ids s).1 id ≡ none

-- No two rows have one ID.
abbrev pub OneRow : {V : Type 0} → List (Row V) → Type 0
OneRow rows = (q r : Row _) → In q rows → In r rows → q.id ≡ r.id → q ≡ r

pub In-filter :
    (p : Text → Bool) (x : Text) (xs : List Text) → In x (filter p xs) ↔ (In x xs × (p x ≡ true))
In-filter p x [] = (λ h. absurd h, λ h. absurd h.0)
In-filter p x (y ∷ xs) = ground (arith, In-filter p x xs, ap p)

pub is_seen-row_ids :
    {V : Type 0} (id : Text) (rows : List (Row V))
    → is_seen id (row_ids rows) ≡ true
    → (q : Row V) × In q rows × (q.id ≡ id)
unfolding row_ids
is_seen-row_ids id [] h = absurd (ground arith)
is_seen-row_ids id (r ∷ rows) h = elim (Bool-cases (r.id == id)) [
  | inl e ↦ (r, inl refl, (==_iff r.id id).0 e)
  | inr e ↦ let (q, there, same) = is_seen-row_ids id rows (ground arith) in (q, inr there, same)
]

pub row_ids-is_seen :
    {V : Type 0} (rows : List (Row V)) (q : Row V) → In q rows → is_seen q.id (row_ids rows) ≡ true
unfolding row_ids
row_ids-is_seen [] q h = absurd h
row_ids-is_seen (r ∷ rows) q (inl e) = ground (arith, ap (λ t. t.id) e, ==_iff r.id q.id)
row_ids-is_seen (r ∷ rows) q (inr h) = ground (arith, row_ids-is_seen rows q h)
