-- ===== src/Tests/Config.antt =====
-- Examples for the configuration.
use project_arachne.Prelude.{refl, codes, list_eq, nat_eq}
use project_arachne.Strings.{is_empty}
use project_arachne.Urlnorm.{contains, is_letter, is_digit}
use project_arachne.RunStates.{pos}
use project_arachne.Config.{
  Config, is_less, all_positive, positive, durations, is_control, is_agent_char, robots_agent,
  is_prefix_char, all_prefix_chars, is_collection_prefix, checks, first_error, validate,
}
use project_arachne.Config.Accepted.{IsUsable, validate-IsUsable}

abbrev settings : Config
settings = record {
  task_workers = pos 4;
  run_workers = pos 1;
  saver_workers = pos 1;
  max_runes = pos 1200;
  overlap_runes = pos 150;
  min_document_runes = pos 80;
  model = codes "bge-m3";
  batch_size = pos 16;
  dimensions = pos 0;
  max_retries = pos 3;
  indexer_workers = pos 2;
  queue_size = pos 100;
  channel_buffer = pos 50;
  candidates = pos 50;
  rrf_k = pos 60;
  default_limit = pos 10;
  max_limit = pos 100;
  saver_send_timeout = pos 5;
  fetch_timeout = pos 5;
  page_ttl = pos 5;
  robots_ttl = pos 5;
  document_hash_ttl = pos 5;
  embedding_timeout = pos 5;
  enqueue_timeout = pos 5;
  queue_timeout = pos 5;
  flush_interval = pos 1;
  run_ttl = pos 5;
  slot_lease = pos 5;
  shutdown_timeout = pos 30;
  component_timeout = pos 10;
  search_timeout = pos 30;
  user_agent = codes "arachne/1.0";
  parser_engine = codes "katana";
  collection_prefix = codes "pages_1";
  listen = codes ":8090";
  redis_max_memory = codes "512mb";
}

validate-IsUsable_example : IsUsable settings
unfolding validate first_error checks is_less all_positive positive durations is_control
    is_agent_char robots_agent is_prefix_char all_prefix_chars is_collection_prefix is_empty
    contains is_letter is_digit
validate-IsUsable_example = validate-IsUsable settings refl
