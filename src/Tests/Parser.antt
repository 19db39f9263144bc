-- ===== src/Tests/Parser.antt =====
-- Examples for the parser.
use project_arachne.Prelude.{
  ◌≢◌, ◌⊎◌, ◌≡◌, refl, List, [], ◌∷◌, false, none, some, Text, codes, list_eq, nat_eq,
}
use project_arachne.Strings.{
  fields, split, split_by, grow, join, has_prefix, is_empty, trim_space, trim_left, is_space, up_to,
  cut_at,
}
use project_arachne.Urlnorm.{
  empty_url, NetUrl, strip_tracking, canonical_host, canonical, canonical_url, resolved, absolute,
  before_quote, canonical_name, trim_dot, with_port, is_default_port, final_url, rooted, cleared,
}
use project_arachne.Parser.{
  LinkKind, link_page, link_other, Engines, unreadable, new_accumulator, normalize_url, add_all,
}
use project_arachne.Parser.Whole.{extract_links}
use project_arachne.Parser.Links.{better, note, note_all, add_all-note_all}
use project_arachne.Parser.Blocks.{normalize_blocks, paragraphs_of, flush, normalize_whitespace}
use project_arachne.Parser.Normal.{normalize_blocks_twice}
use project_arachne.Parser.Kinds.{kind_of, extract_links-kind_of}
use project_arachne.Parser.Found.{IsHyperlink, IsMentioned}

-- Every text is the URL http://h/ with the text for its path, and a URL prints its path.
abbrev toy_net : NetUrl
toy_net = record {
  parse = λ raw. some (record empty_url { scheme = codes "http"; host = codes "h"; path = raw });
  hostname = λ u. u.host;
  port = λ u. [];
  resolve = λ base ref. base;
  to_string = λ u. u.path;
  to_ascii = λ name. some name;
  lower = λ c. c;
}

-- The text of a body names "/x" and "/y", and "/x" is a hyperlink, too.
abbrev toy : Engines Text
toy = record {
  document_from = λ body. some body;
  root = λ doc. none;
  hyperlinks = λ doc. (some (codes "/x"), none) ∷ (none, none) ∷ [];
  katana = λ text base media_type doc. codes "/y" ∷ [];
  loose_urls = λ text. codes "/x" ∷ codes "/y" ∷ [];
  decode_json = λ body. none;
  is_valid_json = λ body. false;
  parse_media_type = λ t. some t;
  read = λ body base doc. unreadable;
  title_text = λ doc. [];
  heading_text = λ doc. [];
  inner_texts = λ doc. [];
}

abbrev items : List (Text × LinkKind)
items = (codes "/x", link_other) ∷ (codes "/y", link_other) ∷ (codes "/x", link_page) ∷ []

add_all-note_all_example :
    (add_all toy_net items (new_accumulator none)).links ≡ note_all toy_net none items []
add_all-note_all_example = add_all-note_all toy_net none items

items-noted :
    note_all toy_net none items []
    ≡ record { url = codes "/x"; kind = link_page }
      ∷ record { url = codes "/y"; kind = link_other }
      ∷ []
unfolding note_all note better normalize_url has_prefix is_empty trim_space trim_left is_space up_to
    canonical resolved before_quote absolute canonical_url canonical_host canonical_name cut_at
    trim_dot with_port is_default_port final_url rooted cleared strip_tracking
items-noted = refl

extract_links-kind_of_example :
    let kind =
      kind_of
        (codes "/x")
        (extract_links toy_net toy [] [] (some []) (new_accumulator none)).links in
    (kind ≡ some link_page → IsHyperlink toy_net toy (some []) none (codes "/x"))
    × (IsHyperlink toy_net toy (some []) none (codes "/x") → kind ≡ some link_page)
    × (kind ≢ none
        → IsHyperlink toy_net toy (some []) none (codes "/x")
          ⊎ IsMentioned toy_net toy [] [] (some []) none (codes "/x"))
    × (IsMentioned toy_net toy [] [] (some []) none (codes "/x") → kind ≢ none)
unfolding is_empty
extract_links-kind_of_example =
    extract_links-kind_of toy_net toy [] [] (codes "/x") (some []) none refl

abbrev ragged : Text
ragged = codes "  one   two \n three\n\n \n\nfour "

normalize_blocks_twice_example :
    normalize_blocks (normalize_blocks ragged) ≡ normalize_blocks ragged
normalize_blocks_twice_example = normalize_blocks_twice ragged

ragged-normal : normalize_blocks ragged ≡ codes "one two\nthree\n\nfour"
unfolding normalize_blocks paragraphs_of flush normalize_whitespace fields split split_by grow join
    is_empty is_space
ragged-normal = refl
