-- ===== src/Tests/Evaluation.antt =====
-- Examples for the file of judgements.
use project_arachne.Prelude.{
  ℕ, ◌<◌, ◌≡◌, refl, List, [], ◌∷◌, some, Text, codes, length, lookup, insert, list_eq, nat_eq,
}
use project_arachne.Strings.{has_prefix, is_empty, trim_space, trim_left, is_space, up_to, cut_at}
use project_arachne.Urlnorm.{
  empty_url, NetUrl, strip_tracking, canonical_host, canonical, canonical_url, resolved, absolute,
  before_quote, canonical_name, trim_dot, with_port, is_default_port, final_url, rooted, cleared,
  from_user_input, has_scheme, scheme_chars, scheme_rest, is_letter,
}
use project_arachne.Evaluation.{
  grade, RawQuery, Query, is_other, check_judgements, as_checked, id_of, check_query, with_query,
  check_queries, load_dataset,
}
use project_arachne.Evaluation.Loaded.{AreSound, load_dataset-AreSound}

-- Every text is the URL http://h/ with the text for its path, and a URL prints its path.
abbrev toy_net : NetUrl
toy_net = record {
  parse = λ raw. some (record empty_url { scheme = codes "http"; host = codes "h"; path = raw });
  hostname = λ u. u.host;
  port = λ u. [];
  resolve = λ base ref. base;
  to_string = λ u. u.path;
  to_ascii = λ name. some name;
  lower = λ c. c;
}

abbrev print : ℕ → Text
print n = codes "1"

abbrev raws : List RawQuery
raws =
    record {
      id = [];
      text = codes " go ";
      host = [];
      relevant = (codes "h/b", grade 0) ∷ (codes "h/a", grade 3) ∷ [];
    }
    ∷ []

abbrev queries : List Query
queries =
    record {
      id = codes "q1";
      text = codes "go";
      host = [];
      relevant = (codes "https://h/b", 0) ∷ (codes "https://h/a", 3) ∷ [];
    }
    ∷ []

load_dataset-AreSound_example : AreSound toy_net [] queries × (length queries ≡ 1) × (0 < 1)
unfolding load_dataset check_queries with_query check_query id_of as_checked check_judgements
    is_other lookup insert from_user_input has_scheme scheme_chars scheme_rest is_letter has_prefix
    is_empty trim_space trim_left is_space up_to canonical resolved before_quote absolute
    canonical_url canonical_host canonical_name cut_at trim_dot with_port is_default_port final_url
    rooted cleared strip_tracking
load_dataset-AreSound_example = load_dataset-AreSound toy_net print raws queries refl
