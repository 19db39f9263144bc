-- ===== src/Indexing.antt =====
-- internal/indexing/sink_chunking.go: submitting a document, unless its hash says that the index has
-- it already. The sink behind it and the hash store are external: how their calls go is an argument.
pub mod Synced
pub mod Vectors
pub mod Stored
pub mod Shards
pub mod Order
use project_arachne.Prelude.{
  List, [], ◌∷◌, ◌++◌, Bool, true, false, Option, none, some, if◌then◌else◌, ◌==◌, nat_eq, list_eq,
  lookup, insert, Text, codes,
}
use project_arachne.Documents.{Document}
use project_arachne.Chunker.Paragraph.{Chunk}
use project_arachne.Processor.{Reply, answered, lost, refused}

pub record Batch : Type 0 where
  pub document : Document
  pub hash : Text
  pub chunks : List Chunk

-- The hashes by URL, and the batch that the next sink took last for each URL.
pub record Index : Type 0 where
  pub hashes : List (Text × Text)
  pub taken : List (Text × Batch)

-- How the calls of one `Submit` go.
pub record Calls : Type 0 where
  pub reads : Bool
  pub submitting : Reply
  pub recording : Reply

pub data SubmitError : Type 0 where
  nil_document not_submitted : SubmitError

-- The sink's chunker and what it hashes with: `Chunk`, SHA-256 in hexadecimal, and the joint
-- fingerprint of the chunker and the next sink.
pub record Chunking : Type 0 where
  pub chunks_of : Document → List Chunk
  pub digest : Text → Text
  pub own_fingerprint : Text
  pub next_fingerprint : Text

unfoldable pub document_hash : Chunking → Document → Text
document_hash c doc =
    c.digest
      ((c.own_fingerprint ++ (codes "|" ++ c.next_fingerprint)) ++ 0 ∷ doc.title ++ 0 ∷ doc.content)

unfoldable pub is_same_hash : Option Text → Text → Bool
is_same_hash none hash = false
is_same_hash (some stored) hash = stored == hash

unfoldable pub stored_hash : Calls → Text → Index → Option Text
stored_hash calls url s = if calls.reads then lookup url s.hashes else none

unfoldable pub take_batch : Batch → Index → Index
take_batch b s = record s { taken = insert b.document.url b s.taken }

unfoldable pub record_hash : Reply → Text → Text → Index → Index
record_hash answered url hash s = record s { hashes = insert url hash s.hashes }
record_hash lost url hash s = record s { hashes = insert url hash s.hashes }
record_hash refused url hash s = s

-- Behind the submission of the batch to the next sink.
unfoldable pub after_submitting : Reply → Calls → Batch → Index → Option SubmitError × Index
after_submitting answered calls b s =
    (none, record_hash calls.recording b.document.url b.hash (take_batch b s))
after_submitting lost calls b s = (some not_submitted, take_batch b s)
after_submitting refused calls b s = (some not_submitted, s)

unfoldable pub submit_document : Chunking → Calls → Document → Index → Option SubmitError × Index
submit_document c calls doc s =
    let hash = document_hash c doc in
    if is_same_hash (stored_hash calls doc.url s) hash
    then (none, s)
    else after_submitting calls.submitting calls
        (record { document = doc; hash = hash; chunks = c.chunks_of doc }) s

unfoldable pub submit : Chunking → Calls → Option Document → Index → Option SubmitError × Index
submit c calls none s = (some nil_document, s)
submit c calls (some doc) s = submit_document c calls doc s
