-- ===== src/Tests/Urls.antt =====
-- Examples for URL canonicalization, with a small stand-in for net/url.
use project_arachne.Prelude.{
  ℕ, ◌≡◌, refl, [], inl, arith, Text, codes, none, some, if◌then◌else◌, list_eq, nat_eq, leb, ◌+◌,
  ◌&&◌,
}
use project_arachne.Strings.{
  split, split_by, grow, join, up_to, is_empty, has_prefix, cut_at, trim_space, trim_left, is_space,
}
use project_arachne.Urlnorm.{
  Url, empty_url, NetUrl, keeps, contains, strip_tracking, canonical_host, canonical, canonical_url,
  resolved, absolute, before_quote, canonical_name, trim_dot, with_port, is_default_port, final_url,
  rooted, cleared,
}
use project_arachne.Urlnorm.Shape.{NetLaws, IsCanonical, canonical-IsCanonical}

-- `unicode.ToLower` on ASCII.
abbrev ascii_lower : ℕ → ℕ
ascii_lower c = if leb b'A' c && leb c b'Z' then c + 32 else c

abbrev query : Text
query = codes "a=1&UTM_source=x&&gclid=2&b=3"

stripped : strip_tracking ascii_lower query ≡ codes "a=1&b=3"
unfolding strip_tracking keeps contains split split_by grow join up_to is_empty has_prefix
stripped = refl

-- Every text is the URL http://h/ with the text for its path, and a URL prints its path.
abbrev toy_url : Text → Url
toy_url path = record empty_url { scheme = codes "http"; host = codes "h"; path = path }

abbrev toy_net : NetUrl
toy_net = record {
  parse = λ raw. some (toy_url raw);
  hostname = λ u. u.host;
  port = λ u. u.opaque;
  resolve = λ base ref. record base { opaque = [] };
  to_string = λ u. u.path;
  to_ascii = λ name. some name;
  lower = ascii_lower;
}

toy_net-NetLaws : NetLaws toy_net
toy_net-NetLaws = record {
  resolve_empty = λ u e. (refl, refl, refl);
  parsed_host = λ raw u e. inl (ground arith);
  parsed_relative = λ raw u e s. ground arith;
  resolved_host = λ b u e. inl refl;
  lower_twice = λ c. ground arith;
}

canonical-IsCanonical_example :
    (v : Url) × (codes "/x" ≡ toy_net.to_string v) × IsCanonical toy_net v
unfolding canonical trim_space trim_left is_space is_empty has_prefix resolved before_quote up_to
    absolute canonical_url canonical_host canonical_name cut_at trim_dot with_port is_default_port
    final_url rooted cleared
canonical-IsCanonical_example =
    canonical-IsCanonical toy_net toy_net-NetLaws (codes "/x") none (codes "/x") refl
