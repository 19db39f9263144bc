-- ===== src/Config.antt =====
-- internal/appconfig/config.go: what `Validate` accepts. An integer is a `Counter`; a duration is its
-- nanoseconds.
pub mod Accepted
pub mod Made
use project_arachne.Prelude.{
  ℕ, zero, suc, List, [], ◌∷◌, ◌++◌, Bool, true, false, not, ◌&&◌, ◌||◌, Option, none, some, ltb,
  leb, if◌then◌else◌, ◌==◌, nat_eq, list_eq, Text, codes,
}
use project_arachne.Strings.{is_empty}
use project_arachne.Urlnorm.{contains, is_letter, is_digit}
use project_arachne.RunStates.{Counter, pos, negsuc, at_least}

-- The settings that are checked, by the names that the messages give them.
pub record Config : Type 0 where
  pub task_workers : Counter
  pub run_workers : Counter
  pub saver_workers : Counter
  pub max_runes : Counter
  pub overlap_runes : Counter
  pub min_document_runes : Counter
  pub model : Text
  pub batch_size : Counter
  pub dimensions : Counter
  pub max_retries : Counter
  pub indexer_workers : Counter
  pub queue_size : Counter
  pub channel_buffer : Counter
  pub candidates : Counter
  pub rrf_k : Counter
  pub default_limit : Counter
  pub max_limit : Counter
  pub saver_send_timeout : Counter
  pub fetch_timeout : Counter
  pub page_ttl : Counter
  pub robots_ttl : Counter
  pub document_hash_ttl : Counter
  pub embedding_timeout : Counter
  pub enqueue_timeout : Counter
  pub queue_timeout : Counter
  pub flush_interval : Counter
  pub run_ttl : Counter
  pub slot_lease : Counter
  pub shutdown_timeout : Counter
  pub component_timeout : Counter
  pub search_timeout : Counter
  pub user_agent : Text
  pub parser_engine : Text
  pub collection_prefix : Text
  pub listen : Text
  pub redis_max_memory : Text

pub data ConfigError : Type 0 where
  not_positive : ConfigError
  bad_user_agent unknown_engine too_many_runes no_model bad_dimensions bad_retries : ConfigError
  bad_prefix bad_overlap bad_minimum bad_limits no_listen no_memory bad_timeouts : ConfigError

unfoldable pub is_less : Counter → Counter → Bool
is_less (pos m) (pos n) = ltb m n
is_less (pos m) (negsuc n) = false
is_less (negsuc m) (pos n) = true
is_less (negsuc m) (negsuc n) = ltb n m

unfoldable pub all_positive : List Counter → Bool
all_positive [] = true
all_positive (v ∷ values) = if at_least 1 v then all_positive values else false

-- The tables `positive` and `durations`.
unfoldable pub positive : Config → List Counter
positive c =
    c.task_workers ∷ c.run_workers ∷ c.saver_workers ∷ c.max_runes ∷ c.batch_size
    ∷ c.indexer_workers ∷ c.queue_size ∷ c.channel_buffer ∷ c.candidates ∷ c.rrf_k ∷ c.default_limit
    ∷ c.max_limit ∷ []

unfoldable pub durations : Config → List Counter
durations c =
    c.saver_send_timeout ∷ c.fetch_timeout ∷ c.page_ttl ∷ c.robots_ttl ∷ c.document_hash_ttl
    ∷ c.embedding_timeout ∷ c.enqueue_timeout ∷ c.queue_timeout ∷ c.flush_interval ∷ c.run_ttl
    ∷ c.slot_lease ∷ c.shutdown_timeout ∷ c.component_timeout ∷ c.search_timeout ∷ []

unfoldable pub is_control : ℕ → Bool
is_control c = ltb c 0x20 || (leb 0x7f c && leb c 0x9f)

unfoldable pub is_agent_char : ℕ → Bool
is_agent_char c = is_letter c || c == b'-' || c == b'_'

-- `RobotsAgent`.
unfoldable pub robots_agent : Text → Text
robots_agent [] = []
robots_agent (c ∷ agent) = let rest = robots_agent agent in if is_agent_char c then c ∷ rest else []

unfoldable pub is_prefix_char : ℕ → Bool
is_prefix_char c = (leb b'a' c && leb c b'z') || is_digit c || c == b'_'

-- Up to so many characters of a prefix, and no others.
unfoldable pub all_prefix_chars : ℕ → Text → Bool
all_prefix_chars n [] = true
all_prefix_chars zero (c ∷ s) = false
all_prefix_chars (suc n) (c ∷ s) = is_prefix_char c && all_prefix_chars n s

-- `collectionPrefixPattern`.
unfoldable pub is_collection_prefix : Text → Bool
is_collection_prefix [] = false
is_collection_prefix (c ∷ s) = (leb b'a' c && leb c b'z') && all_prefix_chars 31 s

-- The conditions of `Validate` in their order, each with its error.
unfoldable pub checks : Config → List (Bool × ConfigError)
checks c =
    (not (all_positive (positive c)), not_positive)
    ∷ (not (all_positive (durations c)), not_positive)
    ∷ (is_empty c.user_agent || contains is_control c.user_agent, bad_user_agent)
    ∷ (is_empty (robots_agent c.user_agent), bad_user_agent)
    ∷ (not (c.parser_engine == codes "katana" || c.parser_engine == codes "legacy"), unknown_engine)
    ∷ (is_less (pos 12000) c.max_runes, too_many_runes)
    ∷ (is_empty c.model, no_model)
    ∷ (is_less c.dimensions (pos 0), bad_dimensions)
    ∷ (is_less c.max_retries (pos 0), bad_retries)
    ∷ (not (is_collection_prefix c.collection_prefix), bad_prefix)
    ∷ (is_less c.overlap_runes (pos 0) || not (is_less c.overlap_runes c.max_runes), bad_overlap)
    ∷ (is_less c.min_document_runes (pos 0), bad_minimum)
    ∷ (is_less c.max_limit c.default_limit, bad_limits)
    ∷ (is_empty c.listen, no_listen)
    ∷ (is_empty c.redis_max_memory, no_memory)
    ∷ (is_less c.shutdown_timeout c.component_timeout, bad_timeouts)
    ∷ []

unfoldable pub first_error : List (Bool × ConfigError) → Option ConfigError
first_error [] = none
first_error ((failed, e) ∷ rest) = if failed then some e else first_error rest

-- `Validate`.
unfoldable pub validate : Config → Option ConfigError
validate c = first_error (checks c)
