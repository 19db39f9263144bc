-- ===== src/Parser/Whole.antt =====
-- internal/parser: `Parse` of parser_katana.go, with links.go and content.go.
use project_arachne.Prelude.{List, [], ◌∷◌, ◌++◌, Option, none, some, if◌then◌else◌, Text, codes}
use project_arachne.Strings.{is_empty, trim_space}
use project_arachne.Urlnorm.{Url, NetUrl}
use project_arachne.PageParser.Trees.{scan_text}
use project_arachne.VectorStore.{byte_length}
use project_arachne.Parser.{
  LinkKind, link_page, link_other, Link, Stage, stage_content, stage_links, stage_json, Accumulator,
  new_accumulator, add_all, warn, Article, unreadable, no_node, not_rendered, article, Engines,
  BodyKind, kind_html, kind_json, kind_js, kind_text, classify_body, normalize_content_type,
  looks_like_url, parse_base_url, json_strings,
}
use project_arachne.Parser.Blocks.{normalize_blocks, cap_title}

pub record ParseResult : Type 0 where
  pub title : Text
  pub content : Text
  pub links : List Link
  pub warnings : List Stage

pub data Parsed : Type 0 where
  empty_body : Parsed
  parsed : ParseResult → Parsed

-- The target of a hyperlink: its `href`, or else its `src`.
unfoldable pub target : Option Text × Option Text → List (Text × LinkKind)
target (some href, src) = (href, link_page) ∷ []
target (none, some src) = (src, link_page) ∷ []
target (none, none) = []

unfoldable pub targets : List (Option Text × Option Text) → List (Text × LinkKind)
targets [] = []
targets (t ∷ rest) = target t ++ targets rest

unfoldable pub as_other : List Text → List (Text × LinkKind)
as_other [] = []
as_other (raw ∷ rest) = (raw, link_other) ∷ as_other rest

unfoldable pub in_blocks : List Text → Text
in_blocks [] = []
in_blocks (t ∷ texts) = t ++ (codes "\n\n" ++ in_blocks texts)

module _ {D : Type 0} (net : NetUrl) (e : Engines D) where
  unfoldable pub hyperlinks_of : Option D → List (Text × LinkKind)
  hyperlinks_of none = []
  hyperlinks_of (some doc) = targets (e.hyperlinks doc)

  unfoldable pub scanned : Text → Option D → Text
  scanned body none = body
  scanned body (some doc) = elim (e.root doc) [ none ↦ body | some node ↦ scan_text node ]

  unfoldable pub requests_of : Text → Option Url → Text → Option D → List Text
  requests_of text none media_type doc = []
  requests_of text (some base) media_type doc = e.katana text base media_type doc

  -- Everything that `extractLinks` adds, in its order.
  unfoldable pub found_links : Text → Option Url → Text → Option D → List (Text × LinkKind)
  found_links body base media_type doc =
      let text = scanned body doc in
      hyperlinks_of doc
      ++ (as_other (requests_of text base media_type doc) ++ as_other (e.loose_urls text))

  unfoldable pub extract_links : Text → Text → Option D → Accumulator → Accumulator
  extract_links body media_type doc acc = add_all net (found_links body acc.base media_type doc) acc

  unfoldable pub urls_among : List Text → List (Text × LinkKind)
  urls_among [] = []
  urls_among (s ∷ rest) =
      let others = urls_among rest in
      if looks_like_url byte_length s then (s, link_other) ∷ others else others

  unfoldable pub extract_json_links : Text → Accumulator → Accumulator
  extract_json_links body acc = elim (e.decode_json body) [
    | none ↦ warn stage_json acc
    | some decoded ↦ add_all net (urls_among (json_strings 33 decoded)) acc
  ]

  unfoldable pub fallback_title : Option D → Text
  fallback_title none = []
  fallback_title (some doc) =
      let title = trim_space (e.title_text doc) in
      if is_empty title then trim_space (e.heading_text doc) else title

  unfoldable pub fallback_text : Option D → Text
  fallback_text none = []
  fallback_text (some doc) = normalize_blocks (in_blocks (e.inner_texts doc))

  -- The title and the text, of an article or in place of one.
  unfoldable pub fall_back : Option D → Accumulator → (Text × Text) × Accumulator
  fall_back doc acc = ((cap_title (fallback_title doc), fallback_text doc), warn stage_content acc)

  unfoldable pub title_of : Text → Option D → Text
  title_of title doc =
      let trimmed = trim_space title in if is_empty trimmed then fallback_title doc else trimmed

  unfoldable pub content_of : Article → Option D → Accumulator → (Text × Text) × Accumulator
  content_of unreadable doc acc = fall_back doc acc
  content_of no_node doc acc = fall_back doc acc
  content_of not_rendered doc acc = fall_back doc acc
  content_of (article title rendered) doc acc =
      let text = normalize_blocks rendered in
      if is_empty text then fall_back doc acc else ((cap_title (title_of title doc), text), acc)

  unfoldable pub extract_content : Text → Option D → Accumulator → (Text × Text) × Accumulator
  extract_content body doc acc = content_of (e.read body acc.base doc) doc acc

  unfoldable pub as_result : Text × Text → Accumulator → ParseResult
  as_result (title, content) acc = record {
    title = title;
    content = content;
    links = acc.links;
    warnings = acc.warnings;
  }

  unfoldable pub document_from : Option D → Accumulator → Accumulator
  document_from none acc = warn stage_links acc
  document_from (some doc) acc = acc

  unfoldable pub parse_kind : BodyKind → Text → Text → Accumulator → ParseResult
  parse_kind kind_html body media_type acc =
      let doc = e.document_from body in
      let (texts, acc') = extract_content body doc (document_from doc acc) in
      as_result texts (extract_links body media_type doc acc')
  parse_kind kind_json body media_type acc = as_result ([], []) (extract_json_links body acc)
  parse_kind kind_js body media_type acc =
      as_result ([], []) (extract_links body media_type none acc)
  parse_kind kind_text body media_type acc =
      as_result ([], normalize_blocks body) (extract_links body media_type none acc)

  -- `KatanaParser.Parse` of a body, its base URL and its content type.
  unfoldable pub parse : Text → Text → Text → Parsed
  parse body base_url content_type =
      let media_type = normalize_content_type net.lower e.parse_media_type content_type in
      if is_empty body
      then empty_body
      else parsed (
          parse_kind (classify_body net.lower e.is_valid_json media_type body) body media_type
            (new_accumulator (parse_base_url net base_url)))
