-- ===== src/Indexing/Vectors.antt =====
-- internal/indexing/sink_vector.go: the rows of a batch. The embedder is any function with the result
-- of `Embed`; the time is an argument.
use project_arachne.Prelude.{ℕ, ◌%◌, ◌^◌, List, [], ◌∷◌, Option, none, some, Text, list_eq, nat_eq}
use project_arachne.Urlnorm.{NetUrl}
use project_arachne.Chunker.Paragraph.{Chunk, embedding_text}
use project_arachne.Indexing.{Batch}
use project_arachne.VectorStore.{Row, Client, StoreError, replace}

-- A vector that is missing at its index is a panic.
pub data Sunk : Type 0 where
  panicked not_embedded : Sunk
  replaced : Option StoreError → Sunk

unfoldable pub host_of : NetUrl → Text → Text
host_of net raw = elim (net.parse raw) [ none ↦ [] | some u ↦ net.hostname u ]

unfoldable pub texts_of : List Chunk → List Text
texts_of [] = []
texts_of (c ∷ chunks) = embedding_text c.title c.text ∷ texts_of chunks

module _ {V : Type 0} where
  unfoldable pub with_row : Row V → Option (List (Row V)) → Option (List (Row V))
  with_row row none = none
  with_row row (some rows) = some (row ∷ rows)

  -- The vectors of no texts are not asked for.
  unfoldable pub vectors_of :
      (List Text → Option (List (List V))) → List Chunk → Option (List (List V))
  vectors_of embedder [] = some []
  vectors_of embedder (c ∷ chunks) = embedder (texts_of (c ∷ chunks))

module _ {V : Type 0} (net : NetUrl) (now : ℕ) (batch : Batch) where
  unfoldable pub row_of : Chunk → List V → Row V
  row_of c vector = record {
    id = c.id;
    url = batch.document.url;
    host = host_of net batch.document.url;
    ordinal = c.ordinal % 2 ^ 32;
    title = c.title;
    text = embedding_text c.title c.text;
    content_hash = batch.hash;
    run_id = batch.document.run_id;
    indexed_at = now;
    vector = vector;
  }

  -- None is a panic.
  unfoldable pub rows_of : List Chunk → List (List V) → Option (List (Row V))
  rows_of [] vectors = some []
  rows_of (c ∷ chunks) [] = none
  rows_of (c ∷ chunks) (v ∷ vectors) = with_row (row_of c v) (rows_of chunks vectors)

module _ {S V : Type 0} (net : NetUrl) (c : Client S V) (dimension : ℕ) where
  unfoldable pub replace_rows : Batch → Option (List (Row V)) → S → Sunk × S
  replace_rows batch none s = (panicked, s)
  replace_rows batch (some rows) s =
      let (error, s') = replace c dimension batch.document.url rows s in (replaced error, s')

  unfoldable pub after_embedding : ℕ → Batch → Option (List (List V)) → S → Sunk × S
  after_embedding now batch none s = (not_embedded, s)
  after_embedding now batch (some vectors) s =
      replace_rows batch (rows_of net now batch batch.chunks vectors) s

  -- `VectorSink.Submit`.
  unfoldable pub submit_batch : (List Text → Option (List (List V))) → ℕ → Batch → S → Sunk × S
  submit_batch embedder now batch s = after_embedding now batch (vectors_of embedder batch.chunks) s
