-- ===== src/Tests/Scraping.antt =====
-- Runs of fetching, naming and indexing a page.
use project_arachne.Prelude.{
  ◌≡◌, ◌≢◌, refl, List, [], ◌∷◌, ◌++◌, Bool, true, false, none, some, ◌==◌, nat_eq, list_eq, lookup,
  insert, All, Text, codes, arith,
}
use project_arachne.Strings.{is_empty, has_prefix, trim_space, trim_left, is_space, up_to, cut_at}
use project_arachne.Urlnorm.{
  Url, empty_url, NetUrl, canonical_host, canonical, canonical_url, resolved, absolute,
  before_quote, canonical_name, trim_dot, with_port, is_default_port, final_url, rooted, cleared,
}
use project_arachne.Domain.{Task}
use project_arachne.Networker.{
  Address, Redirect, is_identity_redirect, trim_slash, Names, end_of_run, identity_of,
  identity_of-end_of_run,
}
use project_arachne.Scraping.{
  FetchResult, PageData, Web, cached_robots, save_robots, robots_allow, is_allowed_by_robots,
  canonical_or_same, page_identity, link_base, submit_document, remove_document, parsed_body,
  parse_page, is_own_body, scrap_page, scrap_allowed, scrap_fetched, scrap, process_crawl_task,
}
use project_arachne.Scraping.Submitted.{
  IsJustified, Allows, process_crawl_task-IsJustified, process_crawl_task-allowed,
}

-- Every text is the URL http://h/ with the text for its path, and a URL prints its path.
abbrev toy_url : Text → Url
toy_url path = record empty_url { scheme = codes "http"; host = codes "h"; path = path }

abbrev toy_net : NetUrl
toy_net = record {
  parse = λ raw. some (toy_url raw);
  hostname = λ u. u.host;
  port = λ u. [];
  resolve = λ base ref. base;
  to_string = λ u. u.path;
  to_ascii = λ name. some name;
  lower = λ c. c;
}

-- The page /a is another name of /b.
abbrev answer : FetchResult
answer = record {
  final_url = codes "/b";
  identity_url = codes "/b";
  body = codes "<p>hello";
  status = 200;
  content_type = codes "text/html";
}

abbrev web : Web
web = record {
  net = toy_net;
  fetch = λ url. some answer;
  parse = λ body base content_type.
      some (record { title = codes "T"; content = codes "hello"; all_urls = []; page_links = [] });
  render_page = λ url. [];
  base_url = λ url. some (codes "http://h");
  agent_allowed = λ robots url. true;
  cache_answers = true;
  cache_saves = true;
}

abbrev task : Task
task = record {
  id = [];
  url = codes "/a";
  current_depth = 0;
  run = record {
    id = codes "r";
    use_cache_flag = false;
    max_depth = 3;
    max_links = 10;
    extra_flags = none;
    start_url = codes "/a";
  };
  has_ack = true;
}

abbrev page_b : PageData
page_b = record {
  url = codes "/b";
  status = 200;
  title = codes "T";
  links = [];
  page_links = [];
  aliases = codes "/a" ∷ [];
  last_run_id = codes "r";
  content_type = codes "text/html";
}

process_crawl_task-IsJustified_example :
    All (IsJustified web task) (process_crawl_task web task []).submitted
process_crawl_task-IsJustified_example = process_crawl_task-IsJustified web task []

process_crawl_task-allowed_example :
    Allows web task.url []
    × ((page_identity web task.url answer).1 ≢ []
        → Allows web (page_identity web task.url answer).0 (is_allowed_by_robots web task.url []).1)
unfolding process_crawl_task is_allowed_by_robots cached_robots robots_allow save_robots scrap
    scrap_fetched scrap_allowed scrap_page page_identity canonical_or_same parse_page parsed_body
    link_base is_own_body submit_document remove_document lookup insert canonical trim_space
    trim_left is_space is_empty has_prefix resolved before_quote up_to absolute canonical_url
    canonical_host canonical_name cut_at trim_dot with_port is_default_port final_url rooted cleared
process_crawl_task-allowed_example = process_crawl_task-allowed web task answer [] page_b refl refl

-- A slash, then a permanent redirect, then a login page.
abbrev at_path : Text → Address
at_path path = record {
  host = codes "h";
  raw_query = [];
  escaped_path = path;
  printed = codes "http://h" ++ path;
}

abbrev hops : List Redirect
hops =
    record { status = 302; from_url = at_path (codes "/a"); to_url = at_path (codes "/a/") }
    ∷ record { status = 301; from_url = at_path (codes "/a/"); to_url = at_path (codes "/b") }
    ∷ record { status = 302; from_url = at_path (codes "/b"); to_url = at_path (codes "/login") }
    ∷ []

abbrev same_text : Text → Text → Bool
same_text a b = a == b

renamed_to_b : end_of_run same_text (codes "http://h/a") hops ≡ codes "http://h/b"
unfolding end_of_run is_identity_redirect trim_slash
renamed_to_b = refl

identity_of-end_of_run_example :
    (identity_of same_text (codes "http://h/a") hops ≢ none)
    × Names
        (end_of_run same_text (codes "http://h/a") hops)
        (identity_of same_text (codes "http://h/a") hops)
identity_of-end_of_run_example =
    identity_of-end_of_run same_text (codes "http://h/a") hops (omega arith)
