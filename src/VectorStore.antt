-- ===== src/VectorStore.antt =====
-- internal/vectorstore/milvus.go: the rows of a page in the vector store. Milvus is not part of the
-- repository: its state is any type `S`, `Client` holds the calls of it that the code makes, and
-- `Replacing` says what they promise. A vector is the list of its components, of any type.
pub mod Batches
pub mod Rows
pub mod Upserting
pub mod Deleting
pub mod Replacing
pub mod Opening
use project_arachne.Prelude.{
  ℕ, zero, suc, ◌+◌, ◌*◌, List, [], ◌∷◌, Bool, true, false, not, ◌&&◌, ◌||◌, Option, none, some,
  ltb, leb, if◌then◌else◌, ◌==◌, nat_eq, list_eq, is_seen, length, take, drop, filter, Text, codes,
}
use project_arachne.Strings.{is_empty}

abbrev pub max_id_bytes : ℕ
max_id_bytes = 64

abbrev pub existing_ids_limit : ℕ
existing_ids_limit = 16384

abbrev pub write_batch_size : ℕ
write_batch_size = 500

pub record Row (V : Type 0) : Type 0 where
  pub id : Text
  pub url : Text
  pub host : Text
  -- An int32 as its 32 bits.
  pub ordinal : ℕ
  pub title : Text
  pub text : Text
  pub content_hash : Text
  pub run_id : Text
  pub indexed_at : ℕ
  pub vector : List V

-- The result of the query for a page: an error, no column of IDs, or the column, in which a cell that
-- is no text is none.
pub data Answer : Type 0 where
  query_failed no_column : Answer
  column : List (Option Text) → Answer

-- The client with the collection. A write that fails may have been done in part.
pub record Client (S V : Type 0) : Type 0 where
  pub query : Text → S → Answer
  pub upsert : List (Row V) → S → Bool × S
  pub delete : List Text → S → Bool × S

pub data StoreError : Type 0 where
  invalid_row too_many_chunks unreadable not_queried not_upserted not_deleted : StoreError

-- How many bytes the character takes in UTF-8.
unfoldable pub width : ℕ → ℕ
width c = if ltb c 0x80 then 1 else if ltb c 0x800 then 2 else if ltb c 0x10000 then 3 else 4

unfoldable pub byte_length : Text → ℕ
byte_length [] = 0
byte_length (c ∷ s) = width c + byte_length s

unfoldable pub all_hex : Text → Bool
all_hex [] = true
all_hex (c ∷ s) = is_seen c (codes "0123456789abcdef") && all_hex s

unfoldable pub is_hex_id : Text → Bool
is_hex_id id = if is_empty id || ltb max_id_bytes (byte_length id) then false else all_hex id

unfoldable pub all_hex_ids : List Text → Bool
all_hex_ids [] = true
all_hex_ids (id ∷ ids) = is_hex_id id && all_hex_ids ids

unfoldable pub read_cells : List (Option Text) → Option (List Text)
read_cells [] = some []
read_cells (none ∷ cells) = none
read_cells (some id ∷ cells) = elim (read_cells cells) [ none ↦ none | some ids ↦ some (id ∷ ids) ]

pub data Existing : Type 0 where
  not_read : StoreError → Existing
  existing : List Text → Existing

unfoldable pub as_existing : Option (List Text) → Existing
as_existing none = not_read unreadable
as_existing (some ids) = existing ids

unfoldable pub ids_of : Answer → Existing
ids_of query_failed = not_read not_queried
ids_of no_column = existing []
ids_of (column cells) =
    if leb existing_ids_limit (length cells)
    then not_read too_many_chunks
    else as_existing (read_cells cells)

module _ {V : Type 0} where
  -- Whether a field exceeds its limit in bytes.
  unfoldable pub exceeds : Row V → Bool
  exceeds row =
      ltb 4096 (byte_length row.url)
      || ltb 255 (byte_length row.host)
      || ltb 4096 (byte_length row.title)
      || ltb 65535 (byte_length row.text)
      || ltb 64 (byte_length row.content_hash)
      || ltb 64 (byte_length row.run_id)

  -- `validate`: whether the row may be stored.
  unfoldable pub validate : ℕ → Text → Row V → Bool
  validate dimension url row =
      if not (row.url == url)
      then false
      else if not (is_hex_id row.id)
      then false
      else if not (length row.vector == dimension)
      then false
      else not (exceeds row)

  unfoldable pub validate_all : ℕ → Text → List (Row V) → Bool
  validate_all dimension url [] = true
  validate_all dimension url (row ∷ rows) =
      if validate dimension url row then validate_all dimension url rows else false

module _ {S V : Type 0} where
  unfoldable pub existing_ids : Client S V → Text → S → Existing
  existing_ids c url s = ids_of (c.query url s)

module _ {S : Type 0} where
  -- An error of the call is reported as the given one.
  unfoldable pub after_write : StoreError → Bool × S → Option StoreError × S
  after_write e (true, s) = (none, s)
  after_write e (false, s) = (some e, s)

module _ {S V : Type 0} where
  unfoldable pub upsert_batch : Client S V → List (Row V) → S → Option StoreError × S
  upsert_batch c rows s = after_write not_upserted (c.upsert rows s)

  -- `delete` refuses an ID that is not hexadecimal.
  unfoldable pub delete_batch : Client S V → List Text → S → Option StoreError × S
  delete_batch c ids s =
      if all_hex_ids ids then after_write not_deleted (c.delete ids s) else (some invalid_row, s)

-- The loop over batches of `writeBatchSize`, up to the first that fails; the number of the items is
-- enough fuel.
unfoldable pub in_batches {ℓ} :
    {A : Type ℓ} {S : Type 0}
    → ℕ
    → (List A → S → Option StoreError × S)
    → List A
    → S
    → Option StoreError × S
in_batches fuel write [] s = (none, s)
in_batches zero write (x ∷ xs) s = (none, s)
in_batches (suc fuel) write (x ∷ xs) s =
    let (error, s') = write (take write_batch_size (x ∷ xs)) s in
    let rest = in_batches fuel write (drop write_batch_size (x ∷ xs)) s' in
    elim error [ none ↦ rest | some e ↦ (some e, s') ]

module _ {V : Type 0} where
  unfoldable pub row_ids : List (Row V) → List Text
  row_ids [] = []
  row_ids (row ∷ rows) = row.id ∷ row_ids rows

  unfoldable pub stale_ids : List Text → List (Row V) → List Text
  stale_ids old rows = filter (λ id. not (is_seen id (row_ids rows))) old

module _ {S V : Type 0} where
  unfoldable pub delete_stale :
      Client S V → List Text → List (Row V) → Option StoreError × S → Option StoreError × S
  delete_stale c old rows (some e, s) = (some e, s)
  delete_stale c old rows (none, s) =
      let stale = stale_ids old rows in in_batches (length stale) (delete_batch c) stale s

  unfoldable pub write_rows : Client S V → List (Row V) → Existing → S → Option StoreError × S
  write_rows c rows (not_read e) s = (some e, s)
  write_rows c rows (existing old) s =
      delete_stale c old rows (in_batches (length rows) (upsert_batch c) rows s)

  -- `Replace`.
  unfoldable pub replace : Client S V → ℕ → Text → List (Row V) → S → Option StoreError × S
  replace c dimension url rows s =
      if validate_all dimension url rows
      then write_rows c rows (existing_ids c url s) s
      else (some invalid_row, s)
