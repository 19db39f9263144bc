-- ===== src/Scraping.antt =====
-- internal/webcrawler/crawler_repo.go, from `scrap` on: fetching a page, naming it, and what is
-- submitted to the index. What the network, the parser, robots.txt matching, the extra worker and the
-- robots cache answer is in the record `Web`.
pub mod Submitted
use project_arachne.Prelude.{
  ℕ, List, [], ◌∷◌, ◌++◌, Bool, true, false, not, ◌&&◌, ◌||◌, Option, none, some, ltb, leb,
  if◌then◌else◌, ◌==◌, nat_eq, list_eq, lookup, insert, Text, codes,
}
use project_arachne.Documents.{Document}
use project_arachne.Strings.{trim_space, is_empty}
use project_arachne.Urlnorm.{NetUrl, canonical}
use project_arachne.Domain.{Task, ExtraTaskFlags}

pub record FetchResult : Type 0 where
  pub final_url : Text
  pub identity_url : Text
  pub body : Text
  pub status : ℕ
  pub content_type : Text

pub record Parsed : Type 0 where
  pub title : Text
  pub content : Text
  pub all_urls : List Text
  pub page_links : List Text

pub record PageData : Type 0 where
  pub url : Text
  pub status : ℕ
  pub title : Text
  pub links : List Text
  pub page_links : List Text
  pub aliases : List Text
  pub last_run_id : Text
  pub content_type : Text

abbrev pub RobotsCache : Type 0
RobotsCache = List (Text × Text)

pub record Web : Type 0 where
  pub net : NetUrl
  pub fetch : Text → Option FetchResult
  -- `Parse`, by body, base URL and content type.
  pub parse : Text → Text → Text → Option Parsed
  -- `PerformExtraTask`: the rendered HTML.
  pub render_page : Text → Text
  -- `utils.GetBaseURL`.
  pub base_url : Text → Option Text
  -- `grobotstxt.AgentAllowed` for the crawler's agent.
  pub agent_allowed : Text → Text → Bool
  pub cache_answers : Bool
  pub cache_saves : Bool

unfoldable pub cached_robots : Web → Text → RobotsCache → Option Text
cached_robots w base cache = if w.cache_answers then lookup base cache else none

unfoldable pub save_robots : Web → Text → Text → RobotsCache → RobotsCache
save_robots w base robots cache = if w.cache_saves then insert base robots cache else cache

unfoldable pub robots_allow :
    Web → Text → Text → Option FetchResult → RobotsCache → Bool × RobotsCache
robots_allow w url base none cache = (false, cache)
robots_allow w url base (some r) cache =
    if r.status == 404
    then (true, cache)
    else (w.agent_allowed r.body url, save_robots w base r.body cache)

unfoldable pub is_allowed_by_robots : Web → Text → RobotsCache → Bool × RobotsCache
is_allowed_by_robots w url cache = elim (w.base_url url) [
  | none ↦ (false, cache)
  | some base ↦ elim (cached_robots w base cache) [
    | some robots ↦ (w.agent_allowed robots url, cache)
    | none ↦ robots_allow w url base (w.fetch (base ++ codes "/robots.txt")) cache
  ]
]

unfoldable pub canonical_or_same : Web → Text → Text
canonical_or_same w url = elim (canonical w.net url none) [ none ↦ url | some c ↦ c ]

-- The page's URL and its alias, which is empty if there is none.
unfoldable pub page_identity : Web → Text → FetchResult → Text × Text
page_identity w requested r =
    let own = canonical_or_same w requested in
    elim (canonical w.net r.identity_url none) [
      | none ↦ (own, [])
      | some identity ↦ if identity == own then (own, []) else (identity, own)
    ]

unfoldable pub identity_if_allowed : Web → Text → Bool → RobotsCache → Option Text × RobotsCache
identity_if_allowed w url false cache = (none, cache)
identity_if_allowed w url true cache = elim (w.fetch url) [
  | none ↦ (none, cache)
  | some r ↦
      let (page, alias) = page_identity w url r in
      (if is_empty alias then none else some page, cache)
]

unfoldable pub resolve_identity : Web → Text → RobotsCache → Option Text × RobotsCache
resolve_identity w url cache =
    let (allowed, cache') = is_allowed_by_robots w url cache in
    identity_if_allowed w url allowed cache'

unfoldable pub link_base : Text → FetchResult → Text
link_base requested r = if is_empty r.final_url then requested else r.final_url

-- What `submitDocument` submits, if anything.
unfoldable pub submit_document : Text → Text → FetchResult → Parsed → List Document
submit_document page run r parsed =
    let doc : Document = record {
      url = page;
      title = parsed.title;
      content = parsed.content;
      content_type = r.content_type;
      run_id = run;
    } in
    if r.status == 404 || r.status == 410
    then record doc { title = []; content = [] } ∷ []
    else if ltb r.status 200 || leb 300 r.status
    then []
    else if is_empty (trim_space parsed.content)
    then []
    else doc ∷ []

unfoldable pub remove_document : Text → Text → List Document
remove_document page run =
    record { url = page; title = []; content = []; content_type = []; run_id = run } ∷ []

unfoldable pub parsed_body : Web → Task → FetchResult → Text
parsed_body w t r = elim t.run.extra_flags [
  | none ↦ r.body
  | some flags ↦ if flags.parse_rendered_html then w.render_page t.url else r.body
]

abbrev pub no_content : Parsed
no_content = record { title = []; content = []; all_urls = []; page_links = [] }

unfoldable pub parse_page : Web → Task → FetchResult → Parsed
parse_page w t r = elim (w.parse (parsed_body w t r) (link_base t.url r) r.content_type) [
  | none ↦ no_content
  | some parsed ↦ parsed
]

-- Whether the body is that of the page: where its redirects ended is that page, or no page at all.
unfoldable pub is_own_body : Web → Text → FetchResult → Bool
is_own_body w page r = elim (canonical w.net r.final_url none) [
  | none ↦ true
  | some final ↦ final == page
]

pub data Scrap : Type 0 where
  not_fetched not_allowed : Scrap
  scrapped : PageData → Scrap

-- What `scrap` returns and which documents it submits.
pub record Outcome : Type 0 where
  pub scrap : Scrap
  pub submitted : List Document
  pub cache : RobotsCache

unfoldable pub scrap_page : Web → Task → FetchResult → Text → Text → RobotsCache → Outcome
scrap_page w t r page alias cache =
    let parsed = parse_page w t r in
    record {
      scrap = scrapped (record {
        url = page;
        status = r.status;
        title = parsed.title;
        links = parsed.all_urls;
        page_links = parsed.page_links;
        aliases = if is_empty alias then [] else alias ∷ [];
        last_run_id = t.run.id;
        content_type = r.content_type;
      });
      submitted =
          (if is_own_body w page r then submit_document page t.run.id r parsed else [])
          ++ (if is_empty alias then [] else remove_document alias t.run.id);
      cache = cache;
    }

unfoldable pub scrap_allowed : Web → Task → FetchResult → Text → Text → Bool × RobotsCache → Outcome
scrap_allowed w t r page alias (allowed, cache) =
    if allowed
    then scrap_page w t r page alias cache
    else record { scrap = not_allowed; submitted = []; cache = cache }

unfoldable pub scrap_fetched : Web → Task → FetchResult → RobotsCache → Outcome
scrap_fetched w t r cache =
    let (page, alias) = page_identity w t.url r in
    scrap_allowed w t r page alias
      (if is_empty alias then (true, cache) else is_allowed_by_robots w page cache)

unfoldable pub scrap : Web → Task → RobotsCache → Outcome
scrap w t cache = elim (w.fetch t.url) [
  | none ↦ record { scrap = not_fetched; submitted = []; cache = cache }
  | some r ↦ scrap_fetched w t r cache
]

-- `processCrawlTask`.
unfoldable pub process_crawl_task : Web → Task → RobotsCache → Outcome
process_crawl_task w t cache =
    let (allowed, cache') = is_allowed_by_robots w t.url cache in
    if allowed
    then scrap w t cache'
    else record { scrap = not_allowed; submitted = []; cache = cache' }
