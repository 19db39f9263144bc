-- ===== src/Tests/Indexing.antt =====
-- Runs of the chunking sink.
use project_arachne.Prelude.{
  ◌≡◌, refl, [], ◌∷◌, true, none, some, lookup, list_eq, nat_eq, Text, codes, arith,
}
use project_arachne.Documents.{Document}
use project_arachne.Processor.{answered, lost}
use project_arachne.Indexing.{Index, Calls, Chunking, document_hash, submit}
use project_arachne.Indexing.Synced.{IsSynced, batch_of, submit-IsSynced, submit-lost_then_reverted}

abbrev version : Text → Document
version content = record {
  url = codes "u";
  title = [];
  content = content;
  content_type = [];
  run_id = [];
}

abbrev chunking : Chunking
chunking = record {
  chunks_of = λ doc. [];
  digest = λ t. t;
  own_fingerprint = codes "p";
  next_fingerprint = codes "c";
}

abbrev fine : Calls
fine = record { reads = true; submitting = answered; recording = answered }

abbrev answer_lost : Calls
answer_lost = record { reads = true; submitting = lost; recording = answered }

-- The first version is in the index, with its hash.
abbrev first_taken : Index
first_taken = record {
  hashes = (codes "u", document_hash chunking (version (codes "one"))) ∷ [];
  taken = (codes "u", batch_of chunking (version (codes "one"))) ∷ [];
}

submit-IsSynced_example :
    IsSynced (codes "u") (submit chunking fine (some (version (codes "two"))) first_taken).1
unfolding IsSynced lookup
submit-IsSynced_example =
    submit-IsSynced chunking fine (some (version (codes "two"))) (codes "u") first_taken
      (ground arith) (ground arith)
      (λ hash e. (batch_of chunking (version (codes "one")), refl, ground arith))

submit-lost_then_reverted_example :
    let s' = (submit chunking answer_lost (some (version (codes "two"))) first_taken).1 in
    (submit chunking fine (some (version (codes "one"))) s' ≡ (none, s'))
    × (lookup (codes "u") s'.taken ≡ some (batch_of chunking (version (codes "two"))))
unfolding lookup document_hash
submit-lost_then_reverted_example =
    submit-lost_then_reverted chunking answer_lost fine (version (codes "one"))
      (version (codes "two")) first_taken refl (ground arith) refl refl refl
