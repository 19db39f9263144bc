-- ===== src/Tests/Pages.antt =====
-- Examples for the page parsers.
use project_arachne.Prelude.{
  true, ◌⊎◌, ◌==◌, List, inr, ◌≡◌, ◌≢◌, ◌<◌, refl, subst, some-injective, length, inl, [], ◌∷◌,
  none, some, arith, All, In, Text, codes, list_eq, nat_eq,
}
use project_arachne.Strings.{
  has_prefix, has_suffix, is_empty, trim_space, trim_left, is_space, up_to, cut_at,
}
use project_arachne.Urlnorm.{
  Url, empty_url, NetUrl, strip_tracking, canonical_host, canonical, canonical_url, resolved,
  absolute, before_quote, canonical_name, trim_dot, with_port, is_default_port, final_url, rooted,
  cleared,
}
use project_arachne.Urlnorm.Shape.{NetLaws}
use project_arachne.PageParser.Urls.{
  normalize_url, trim_left_by, trim_right_by, one_of, check_allowed_prefixes, colon_first,
  trim_trailing_punctuation,
}
use project_arachne.PageParser.Script.{
  Expr, string_literal, identifier, plus, no_constants, Script, rounds,
}
use project_arachne.PageParser.Endless.{set_to, rounds-endless}
use project_arachne.PageParser.Ending.{IsShort}
use project_arachne.PageParser.Trees.{Node, text, element, other, last, child, no_markup, Parsers}
use project_arachne.PageParser.Pages.{base_of, unfinished, refused, found, parse_html, is_srcset}
use project_arachne.PageParser.Bodies.{trim_slash, parse}
use project_arachne.PageParser.Whole.{IsLink, Distinct, parse-IsLink}
use project_arachne.PageParser.Attributes.{HasAttr, SomeHasAttr, parse_html-finds}
use project_arachne.PageParser.Finishing.{
  IsShortSource, AllShort, ChildrenShort, IsShortBody, parse-finishes,
}

-- x = "a"; x = "b";
abbrev flipping : Script
flipping = record {
  var_inits = λ r. [];
  obj_literals = [];
  assigns = set_to (codes "x") (codes "a") ∷ set_to (codes "x") (codes "b") ∷ [];
  calls = [];
  xhr_vars = [];
  expressions = [];
}

rounds-endless_example : rounds 1000 flipping no_constants ≡ none
rounds-endless_example =
    rounds-endless (codes "x") (codes "a") (codes "b") [] [] [] flipping (ground arith) refl 1000
      no_constants

-- var y = x + "b", x = "a";
abbrev settled_inits : List (Text × Expr)
settled_inits =
    (codes "y", plus (identifier (codes "x")) (string_literal (codes "b")))
    ∷ (codes "x", string_literal (codes "a"))
    ∷ []

abbrev settled : Script
settled = record flipping { var_inits = λ r. settled_inits; assigns = [] }

-- Every text is the URL http://h/ with the text for its path, and a URL prints its path.
abbrev toy_url : Text → Url
toy_url path = record empty_url { scheme = codes "http"; host = codes "h"; path = path }

abbrev toy_net : NetUrl
toy_net = record {
  parse = λ raw. some (toy_url raw);
  hostname = λ u. u.host;
  port = λ u. [];
  resolve = λ base ref. record base { opaque = [] };
  to_string = λ u. u.path;
  to_ascii = λ name. some name;
  lower = λ c. c;
}

toy_net-NetLaws : NetLaws toy_net
toy_net-NetLaws = record {
  resolve_empty = λ u e. (refl, refl, refl);
  parsed_host = λ raw u e. inl (ground arith);
  parsed_relative = λ raw u e s. ground arith;
  resolved_host = λ b u e. inl refl;
  lower_twice = λ c. ground arith;
}

-- A page with the link "/x" and an inline script.
abbrev page : Node
page = other (
    child (element (codes "a") ((codes "href", codes "/x") ∷ []) last no_markup)
      (child (element (codes "script") [] (child (text (codes "var y")) last) no_markup) last))

abbrev toy_parsers : Parsers
toy_parsers = record {
  parse_js = λ src. some settled;
  parse_html = λ body. some page;
  parse_json = λ body. none;
  find_urls = λ body. [];
  equal_fold = λ a b. a == b;
}

two-few : length settled_inits < 3
two-few = omega arith

settled-IsShort : (src : Text) → IsShortSource 3 toy_parsers src
settled-IsShort src script e = subst (IsShort 3) (some-injective e) (record {
  unassigned = refl;
  inits = settled_inits;
  within = λ r. (inl refl, (inr (inl refl), tt));
  plain = λ r. (tt, (tt, tt));
  few = two-few;
})

page-AllShort : AllShort 3 toy_net toy_parsers page
unfolding AllShort ChildrenShort
page-AllShort = ((λ s. settled-IsShort [], tt), ((λ s. settled-IsShort [], (tt, tt)), tt))

page-IsShortBody : IsShortBody 3 toy_net toy_parsers [] (codes "<a href=/x>")
page-IsShortBody = record {
  whole = λ js. settled-IsShort (codes "<a href=/x>");
  inline = λ doc e. subst (AllShort 3 toy_net toy_parsers) (some-injective e) page-AllShort;
}

parse_html-finds_example :
    (links : List Text) × (parse_html 3 toy_net toy_parsers (codes "<a href=/x>") [] ≡ some links)
    × In (codes "/x") links
unfolding base_of is_srcset normalize_url trim_left_by trim_right_by one_of check_allowed_prefixes
    colon_first trim_trailing_punctuation has_prefix is_empty trim_space trim_left is_space up_to
    canonical resolved before_quote absolute canonical_url canonical_host canonical_name cut_at
    trim_dot with_port is_default_port final_url rooted cleared strip_tracking HasAttr SomeHasAttr
parse_html-finds_example =
    parse_html-finds 3 toy_net toy_parsers (codes "<a href=/x>") [] (codes "/x") (codes "href")
      (codes "/x") page refl page-AllShort (inl (inl (inl refl))) refl refl refl refl

parse-IsLink_example :
    ((parse 3 toy_net toy_parsers [] (codes "<a href=/x>") ≡ refused)
      × ((is_empty (codes "<a href=/x>") ≡ true)
          ⊎ (has_suffix (codes ".js") (trim_slash []) ≡ true)))
    ⊎ ((links : List Text) × (parse 3 toy_net toy_parsers [] (codes "<a href=/x>") ≡ found links)
        × All (IsLink toy_net) links
        × Distinct [] links)
parse-IsLink_example =
    parse-IsLink 3 toy_net toy_net-NetLaws toy_parsers [] (codes "<a href=/x>") page-IsShortBody

parse-finishes_example : parse 3 toy_net toy_parsers [] (codes "<a href=/x>") ≢ unfinished
parse-finishes_example =
    parse-finishes 3 toy_net toy_parsers [] (codes "<a href=/x>") page-IsShortBody
