-- ===== src/Indexing/Synced.antt =====
-- Whether the recorded hash of a page is that of the batch in the index.
use project_arachne.Prelude.{
  ◌≡◌, ◌≢◌, refl, true, Option, none, some, ◌==◌, nat_eq, list_eq, ==_refl, ==_iff, lookup,
  lookup-insert, Bool-cases, inl, inr, Text, arith,
}
use project_arachne.Documents.{Document}
use project_arachne.Processor.{Reply, answered, lost, refused}
use project_arachne.Indexing.{
  Batch, Index, Calls, Chunking, document_hash, is_same_hash, stored_hash, take_batch, record_hash,
  after_submitting, submit_document, submit,
}

-- The page's recorded hash, if there is one, is that of the batch that was taken last.
unfoldable pub IsSynced : Text → Index → Type 0
IsSynced url s =
    (hash : Text)
    → lookup url s.hashes ≡ some hash
    → (b : Batch) × (lookup url s.taken ≡ some b) × (b.hash ≡ hash)

abbrev pub batch_of : Chunking → Document → Batch
batch_of c doc = record { document = doc; hash = document_hash c doc; chunks = c.chunks_of doc }

take_batch-IsSynced :
    (b : Batch) (url : Text) (s : Index)
    → IsSynced url s
    → IsSynced url (record_hash answered b.document.url b.hash (take_batch b s))
unfolding IsSynced record_hash take_batch
take_batch-IsSynced b url s synced = elim (Bool-cases (b.document.url == url)) [
  | inl same ↦
      rw
        (
          lookup-insert b.document.url url b.hash s.hashes,
          lookup-insert b.document.url url b s.taken,
          same,
        )
        (λ hash e. (b, refl, ground arith))
  | inr other ↦
      rw
        (
          lookup-insert b.document.url url b.hash s.hashes,
          lookup-insert b.document.url url b s.taken,
          other,
        )
        synced
]

record_hash-IsSynced :
    (recording : Reply) (b : Batch) (url : Text) (s : Index)
    → recording ≢ refused
    → IsSynced url s
    → IsSynced url (record_hash recording b.document.url b.hash (take_batch b s))
unfolding record_hash
record_hash-IsSynced answered b url s sure synced = take_batch-IsSynced b url s synced
record_hash-IsSynced lost b url s sure synced = take_batch-IsSynced b url s synced
record_hash-IsSynced refused b url s sure synced = absurd (sure refl)

-- Where no submission to the next sink is left in doubt and no recording of a hash fails, the hash
-- recorded for a page stays that of the batch which the index took last for it.
pub submit-IsSynced :
    (c : Chunking) (calls : Calls) (doc : Option Document) (url : Text) (s : Index)
    → calls.submitting ≢ lost
    → calls.recording ≢ refused
    → IsSynced url s
    → IsSynced url (submit c calls doc s).1
unfolding submit submit_document after_submitting
submit-IsSynced c calls none url s sure recorded synced = synced
submit-IsSynced c calls (some doc) url s sure recorded synced =
    elim (Bool-cases (is_same_hash (stored_hash calls doc.url s) (document_hash c doc))) [
      | inl same ↦ rw (same, submit_document) synced
      | inr changed ↦ rw (changed, submit_document) (go calls.submitting sure)
    ]
  where
    go : (r : Reply) → r ≢ lost → IsSynced url (after_submitting r calls (batch_of c doc) s).1
    go answered h = record_hash-IsSynced calls.recording (batch_of c doc) url s recorded synced
    go lost h = absurd (h refl)
    go refused h = synced

-- A page whose change, with another hash, was taken by the index while the answer was lost: when the
-- page shows its old text again and its hash can be read, submitting that succeeds and changes
-- nothing, and the index keeps the text in between.
pub submit-lost_then_reverted :
    (c : Chunking) (calls later : Calls) (old new : Document) (s : Index)
    → new.url ≡ old.url
    → document_hash c old ≢ document_hash c new
    → lookup old.url s.hashes ≡ some (document_hash c old)
    → calls.submitting ≡ lost
    → later.reads ≡ true
    → let s' = (submit c calls (some new) s).1 in
      (submit c later (some old) s' ≡ (none, s'))
      × (lookup old.url s'.taken ≡ some (batch_of c new))
unfolding submit submit_document after_submitting take_batch is_same_hash stored_hash
submit-lost_then_reverted c calls later old new s same_page changed known lost_answer readable =
    ground (
      arith,
      lookup-insert new.url old.url (batch_of c new) s.taken,
      ==_refl old.url,
      ==_refl (document_hash c old),
      ==_iff (document_hash c old) (document_hash c new),
    )
