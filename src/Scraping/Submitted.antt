-- ===== src/Scraping/Submitted.antt =====
-- What a fetched page puts into the index, and which pages robots.txt lets through.
use project_arachne.Prelude.{
  Option, lookup, codes, ◌++◌, ◌≤◌, ◌<◌, ◌≡◌, ◌≢◌, ◌⊎◌, refl, [], Bool, true, false, ◌||◌, none,
  some, list_eq, ==_iff, ltb, leb, if◌then◌else◌, ◌==◌, nat_eq, All, All-append, Bool-cases,
  Option-cases, inl, inr, Text, arith,
}
use project_arachne.Documents.{Document}
use project_arachne.Strings.{trim_space, is_empty}
use project_arachne.Urlnorm.{canonical}
use project_arachne.Domain.{Task}
use project_arachne.Scraping.{
  FetchResult, PageData, RobotsCache, Web, cached_robots, robots_allow, is_allowed_by_robots,
  page_identity, submit_document, remove_document, parse_page, is_own_body, scrapped, scrap_page,
  scrap_allowed, scrap_fetched, scrap, process_crawl_task,
}

-- A document without text removes what is indexed under its URL.
unfoldable pub IsRemoval : Document → Type 0
IsRemoval d = (d.title ≡ []) × (d.content ≡ [])

-- The text that a live page showed under its own URL.
unfoldable pub IsPageText : Web → Task → FetchResult → Document → Type 0
IsPageText w t r d =
    (d.url ≡ (page_identity w t.url r).0)
    × ((canonical w.net r.final_url none ≡ none) ⊎ (canonical w.net r.final_url none ≡ some d.url))
    × (200 ≤ r.status)
    × (r.status < 300)
    × (is_empty (trim_space d.content) ≡ false)
    × (d.content ≡ (parse_page w t r).content)

unfoldable pub IsJustified : Web → Task → Document → Type 0
IsJustified w t d =
    IsRemoval d ⊎ ((r : FetchResult) × (w.fetch t.url ≡ some r) × IsPageText w t r d)

-- What robots.txt says of a URL: its text is in the cache and allows the URL; or it is not, and the file
-- is fetched, and there is none (a 404) or its text allows the URL.
unfoldable pub Allows : Web → Text → RobotsCache → Type 0
Allows w url cache =
    (base : Text) × (w.base_url url ≡ some base)
    × (((w.cache_answers ≡ true)
          × ((robots : Text) × (lookup base cache ≡ some robots)
              × (w.agent_allowed robots url ≡ true)))
        ⊎ (((w.cache_answers ≡ false) ⊎ (lookup base cache ≡ none))
            × ((r : FetchResult) × (w.fetch (base ++ codes "/robots.txt") ≡ some r)
                × ((r.status ≡ 404) ⊎ (w.agent_allowed r.body url ≡ true)))))

robots_allow-allowed :
    (w : Web) (url base : Text) (file : Option FetchResult) (cache : RobotsCache)
    → (robots_allow w url base file cache).0 ≡ true
    → (r : FetchResult) × (file ≡ some r) × ((r.status ≡ 404) ⊎ (w.agent_allowed r.body url ≡ true))
unfolding robots_allow
robots_allow-allowed w url base none cache h = absurd (ground arith)
robots_allow-allowed w url base (some r) cache h = (r, refl, ground arith)

is_allowed_by_robots-Allows :
    (w : Web) (url : Text) (cache : RobotsCache)
    → (is_allowed_by_robots w url cache).0 ≡ true
    → Allows w url cache
unfolding is_allowed_by_robots cached_robots Allows
is_allowed_by_robots-Allows w url cache h = elim (Option-cases (w.base_url url)) [
  | inl e ↦ absurd (ground arith)
  | inr (base, e) ↦ elim (Bool-cases w.cache_answers) [
    | inl asks ↦ elim (Option-cases (lookup base cache)) [
      | inl missing ↦ (
        base,
        e,
        inr (
          inr missing,
          robots_allow-allowed w url base (w.fetch (base ++ codes "/robots.txt")) cache
              (ground arith),
        ),
      )
      | inr (robots, there) ↦ (base, e, inl (asks, (robots, there, ground arith)))
    ]
    | inr silent ↦ (
      base,
      e,
      inr (
        inl silent,
        robots_allow-allowed w url base (w.fetch (base ++ codes "/robots.txt")) cache
            (ground arith),
      ),
    )
  ]
]

module _ (w : Web) (t : Task) where
  is_own_body_cases :
      (page : Text) (r : FetchResult)
      → is_own_body w page r ≡ true
      → (canonical w.net r.final_url none ≡ none) ⊎ (canonical w.net r.final_url none ≡ some page)
  unfolding is_own_body
  is_own_body_cases page r own = elim (Option-cases (canonical w.net r.final_url none)) [
    | inl e ↦ inl e
    | inr (final, e) ↦ inr (ground (arith, ==_iff final page))
  ]

  submit_document-IsJustified :
      (r : FetchResult)
      → w.fetch t.url ≡ some r
      → is_own_body w (page_identity w t.url r).0 r ≡ true
      → All
          (IsJustified w t)
          (submit_document (page_identity w t.url r).0 t.run.id r (parse_page w t r))
  unfolding submit_document IsJustified IsRemoval IsPageText
  submit_document-IsJustified r e own = elim (Bool-cases (r.status == 404 || r.status == 410)) [
    | inl gone ↦ rw (gone, submit_document) (inl (refl, refl), tt)
    | inr there ↦ elim (Bool-cases (ltb r.status 200 || leb 300 r.status)) [
      | inl broken ↦ rw (there, submit_document) (rw (broken, submit_document) tt)
      | inr live ↦ elim (Bool-cases (is_empty (trim_space (parse_page w t r).content))) [
        | inl blank ↦
            rw (there, submit_document)
              (rw (live, submit_document) (rw (blank, submit_document) tt))
        | inr text ↦
            rw (there, submit_document)
              (rw (live, submit_document)
                (rw (text, submit_document)
                  (
                    inr (
                      r,
                      e,
                      (
                        refl,
                        is_own_body_cases (page_identity w t.url r).0 r own,
                        ground arith,
                        ground arith,
                        text,
                        refl,
                      ),
                    ),
                    tt,
                  )))
      ]
    ]
  ]

  removal-IsJustified :
      (alias : Text)
      → All (IsJustified w t) (if is_empty alias then [] else remove_document alias t.run.id)
  unfolding remove_document IsJustified IsRemoval
  removal-IsJustified alias = elim (Bool-cases (is_empty alias)) [
    | inl unaliased ↦ rw unaliased tt
    | inr aliased ↦ rw aliased (inl (refl, refl), tt)
  ]

  own-IsJustified :
      (r : FetchResult)
      → w.fetch t.url ≡ some r
      → All (IsJustified w t) (
          if is_own_body w (page_identity w t.url r).0 r
          then submit_document (page_identity w t.url r).0 t.run.id r (parse_page w t r)
          else [])
  own-IsJustified r e = elim (Bool-cases (is_own_body w (page_identity w t.url r).0 r)) [
    | inl own ↦ rw own (submit_document-IsJustified r e own)
    | inr foreign_body ↦ rw foreign_body tt
  ]

  scrap_allowed-IsJustified :
      (r : FetchResult) (answer : Bool × RobotsCache)
      → w.fetch t.url ≡ some r
      → All
          (IsJustified w t)
          (scrap_allowed w t r
            (page_identity w t.url r).0
            (page_identity w t.url r).1
            answer).submitted
  unfolding scrap_allowed scrap_page
  scrap_allowed-IsJustified r (false, cache) e = tt
  scrap_allowed-IsJustified r (true, cache) e =
      All-append (IsJustified w t) _ _ (own-IsJustified r e)
        (removal-IsJustified (page_identity w t.url r).1)

  scrap-IsJustified : (cache : RobotsCache) → All (IsJustified w t) (scrap w t cache).submitted
  unfolding scrap scrap_fetched
  scrap-IsJustified cache = elim (Option-cases (w.fetch t.url)) [
    | inl e ↦ rw (e, scrap) tt
    | inr (r, e) ↦ rw (e, scrap) (scrap_allowed-IsJustified r _ e)
  ]

  -- Text is put into the index only under the URL of the page that showed it: the fetch was answered
  -- with a 2xx status, its redirects ended at that page or at no crawlable URL, and the text is not
  -- blank. Every other document that is submitted has no text: it removes a page.
  pub process_crawl_task-IsJustified :
      (cache : RobotsCache) → All (IsJustified w t) (process_crawl_task w t cache).submitted
  unfolding process_crawl_task
  process_crawl_task-IsJustified cache = elim (Bool-cases (is_allowed_by_robots w t.url cache).0) [
    | inl allowed ↦
        rw (allowed, process_crawl_task) (scrap-IsJustified (is_allowed_by_robots w t.url cache).1)
    | inr forbidden ↦ rw (forbidden, process_crawl_task) tt
  ]

  scrap_fetched-allowed :
      (r : FetchResult) (cache : RobotsCache) (page : PageData)
      → (scrap_fetched w t r cache).scrap ≡ scrapped page
      → (page_identity w t.url r).1 ≢ []
      → (is_allowed_by_robots w (page_identity w t.url r).0 cache).0 ≡ true
  unfolding scrap_fetched scrap_allowed is_empty
  scrap_fetched-allowed r cache page h aliased = ground arith

  scrap-allowed :
      (r : FetchResult) (cache : RobotsCache) (page : PageData)
      → w.fetch t.url ≡ some r
      → (scrap w t cache).scrap ≡ scrapped page
      → (page_identity w t.url r).1 ≢ []
      → (is_allowed_by_robots w (page_identity w t.url r).0 cache).0 ≡ true
  unfolding scrap
  scrap-allowed r cache page e = rw (e, scrap) (scrap_fetched-allowed r cache page)

  -- No page is taken that robots.txt disallows: its text, from the cache or else as it is fetched,
  -- allows the URL of the task, or there is none; and where the page turned out to be another one, the
  -- same holds of the URL of that page.
  pub process_crawl_task-allowed :
      (r : FetchResult) (cache : RobotsCache) (page : PageData)
      → w.fetch t.url ≡ some r
      → (process_crawl_task w t cache).scrap ≡ scrapped page
      → Allows w t.url cache
        × ((page_identity w t.url r).1 ≢ []
            → Allows w (page_identity w t.url r).0 (is_allowed_by_robots w t.url cache).1)
  unfolding process_crawl_task
  process_crawl_task-allowed r cache page e =
      elim (Bool-cases (is_allowed_by_robots w t.url cache).0) [
        | inl allowed ↦
            rw (allowed, process_crawl_task)
              (λ h. (
                is_allowed_by_robots-Allows w t.url cache allowed,
                λ aliased.
                    is_allowed_by_robots-Allows w (page_identity w t.url r).0
                      (is_allowed_by_robots w t.url cache).1
                      (scrap-allowed r (is_allowed_by_robots w t.url cache).1 page e h aliased),
              ))
        | inr forbidden ↦ rw (forbidden, process_crawl_task) (λ h. absurd (ground arith))
      ]
