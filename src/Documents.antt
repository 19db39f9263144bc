-- ===== src/Documents.antt =====
-- internal/documents/documents.go: what the crawler hands to the index. `FetchedAt` is left out: nothing
-- reads it.
use project_arachne.Prelude.{Text}

pub record Document : Type 0 where
  pub url : Text
  pub title : Text
  pub content : Text
  pub content_type : Text
  pub run_id : Text
