-- ===== src/Config/Made.antt =====
-- The constructors that are given settings: `NewOpenAIClient` of internal/embedding/openai.go and `New`
-- of internal/retrieval/retrieval.go.
use project_arachne.Prelude.{
  ℕ, Bool, true, false, not, ◌||◌, Option, none, some, if◌then◌else◌, ◌==◌, nat_eq, Text,
}
use project_arachne.Strings.{is_empty}
use project_arachne.RunStates.{pos, at_least}
use project_arachne.PageParser.Urls.{trim_right_by}
use project_arachne.Config.{Config, is_less}

unfoldable pub is_slash : ℕ → Bool
is_slash c = c == b'/'

-- The base URL that the client uses, if the client is made.
unfoldable pub new_open_ai_client : Text → Config → Option Text
new_open_ai_client base_url c =
    if is_empty base_url
      || is_empty c.model
      || not (at_least 1 c.batch_size)
      || is_less c.dimensions (pos 0)
      || is_less c.max_retries (pos 0)
      || not (at_least 1 c.embedding_timeout)
    then none
    else some (trim_right_by is_slash base_url)

-- Whether the retriever is made, given whether there are an embedder and a store.
unfoldable pub new_retriever : Bool → Bool → Config → Bool
new_retriever has_embedder has_store c =
    if not has_embedder
      || not has_store
      || not (at_least 1 c.candidates)
      || not (at_least 1 c.rrf_k)
    then false
    else true
