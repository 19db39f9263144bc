-- ===== src/Urlnorm/Shape.antt =====
-- What every URL that `Canonical` of internal/urlnorm/urlnorm.go returns looks like, and what a person
-- may type.
use project_arachne.Prelude.{
  ℕ, ◌≡◌, ◌≢◌, refl, sym, ap, ◌∙◌, subst, ◌⊎◌, inl, inr, [], ◌∷◌, ◌++◌, map, true, false, ◌||◌,
  Option, none, some, arith, ◌==◌, ==_iff, ==_refl, All, nat_eq, list_eq, Text, codes, Bool-cases,
  Option-cases,
}
use project_arachne.Strings.{split, trim_space, cut_at, is_empty}
use project_arachne.Urlnorm.{
  Url, empty_url, NetUrl, is_digit, no_digit_first, has_scheme, trim_dot, is_default_port,
  with_port, canonical_name, canonical_host, before_quote, absolute, rooted, cleared, final_url,
  canonical_url, resolved, canonical,
}
use project_arachne.Urlnorm.Tracking.{IsPlain, strip_tracking-IsPlain}
use project_arachne.Urlnorm.Hosts.{IsHost, default_port, no_port, canonical_host-IsHost}

-- What net/url and unicode document: an empty reference inherits scheme and authority from a URL that is
-- not opaque; a parsed URL is opaque only if it has a scheme and no host; resolving a reference that
-- is not opaque gives a URL that is not, or has no host; and lower case has itself for lower case.
pub record NetLaws (net : NetUrl) : Type 0 where
  pub resolve_empty :
      (u : Url)
      → u.opaque ≡ []
      → ((net.resolve u empty_url).scheme ≡ u.scheme)
        × ((net.resolve u empty_url).host ≡ u.host)
        × ((net.resolve u empty_url).user ≡ u.user)
  pub parsed_host :
      (raw : Text) (u : Url) → net.parse raw ≡ some u → (u.opaque ≡ []) ⊎ (net.hostname u ≡ [])
  pub parsed_relative :
      (raw : Text) (u : Url) → net.parse raw ≡ some u → u.scheme ≡ [] → u.opaque ≡ []
  pub resolved_host :
      (b u : Url)
      → u.opaque ≡ []
      → ((net.resolve b u).opaque ≡ []) ⊎ (net.hostname (net.resolve b u) ≡ [])
  pub lower_twice : (c : ℕ) → net.lower (net.lower c) ≡ net.lower c

-- The text does not hold the character.
abbrev pub Lacks : ℕ → Text → Type 0
Lacks c = All (λ d. (d == c) ≡ false)

abbrev pub IsWeb : Url → Type 0
IsWeb u = (u.scheme ≡ codes "http") ⊎ (u.scheme ≡ codes "https")

-- A crawlable URL with a canonical host, neither user nor fragment, a path, and no parameter that
-- tracks.
pub record IsCanonical (net : NetUrl) (u : Url) : Type 0 where
  pub web : IsWeb u
  pub host : IsHost net u.scheme u.host
  pub no_user : u.user ≡ none
  pub has_path : u.path ≢ []
  pub no_fragment : u.fragment ≡ []
  pub no_raw_fragment : u.raw_fragment ≡ []
  pub no_forced_query : u.force_query ≡ false
  pub no_tracking : (u.raw_query ≡ []) ⊎ All (IsPlain net.lower) (split b'&' u.raw_query)

is_empty-nil : (s : Text) → is_empty s ≡ true → s ≡ []
unfolding is_empty
is_empty-nil [] h = refl
is_empty-nil (c ∷ s) h = cc

rooted_lem :
    (v : Url)
    → ((rooted v).scheme ≡ v.scheme)
      × ((rooted v).user ≡ v.user)
      × ((rooted v).path ≢ [])
      × ((rooted v).host ≡ v.host)
unfolding rooted is_empty
rooted_lem v = elim (Bool-cases (is_empty v.path)) [
  | inl none_ ↦ rw none_ (refl, refl, λ e. cc, refl)
  | inr some_ ↦ rw some_ (refl, refl, λ e. cc (subst (λ p. is_empty p ≡ false) e some_), refl)
]

cleared-IsCanonical :
    (net : NetUrl) (w : Url)
    → IsWeb w
    → IsHost net w.scheme w.host
    → w.user ≡ none
    → w.path ≢ []
    → IsCanonical net (cleared net w)
unfolding cleared
cleared-IsCanonical net w web host user path = record {
  web = web;
  host = host;
  no_user = user;
  has_path = path;
  no_fragment = refl;
  no_raw_fragment = refl;
  no_forced_query = refl;
  no_tracking = strip_tracking-IsPlain net.lower w.raw_query;
}

module _ (net : NetUrl) (laws : NetLaws net) where
  canonical_host-opaque :
      (u : Url) (host : Text)
      → canonical_host net u ≡ some host
      → (u.opaque ≡ []) ⊎ (net.hostname u ≡ [])
      → u.opaque ≡ []
  unfolding canonical_host canonical_name trim_dot is_empty
  canonical_host-opaque u host h (inl e) = e
  canonical_host-opaque u host h (inr e) = cc (subst (λ n. canonical_host_of n ≡ some host) e h)
    where
      canonical_host_of : Text → Option Text
      canonical_host_of n = elim (canonical_name net (trim_dot (map net.lower n))) [
        | none ↦ none
        | some name ↦ some (with_port u.scheme (net.port u) name)
      ]

  final_url-IsCanonical :
      (u : Url) (host : Text)
      → u.opaque ≡ []
      → IsWeb u
      → IsHost net u.scheme host
      → IsCanonical net (final_url net u host)
  unfolding final_url
  final_url-IsCanonical u host opaque web canonical =
      let bare : Url = record u { host = host; user = none } in
      let v = net.resolve bare empty_url in
      let inherited = laws.resolve_empty bare opaque in
      let root = rooted_lem v in
      cleared-IsCanonical net (rooted v)
        (subst (λ s. (s ≡ codes "http") ⊎ (s ≡ codes "https")) (sym (root.0 ∙ inherited.0)) web)
        (subst (λ s. IsHost net s (rooted v).host) (sym (root.0 ∙ inherited.0))
          (subst (IsHost net u.scheme) (sym (root.3 ∙ inherited.1)) canonical))
        (root.1 ∙ inherited.2) root.2

  http_or_https :
      (u : Url) → (u.scheme == codes "http" || u.scheme == codes "https") ≡ true → IsWeb u
  http_or_https u h = elim (Bool-cases (u.scheme == codes "http")) [
    | inl plain ↦ inl ((==_iff u.scheme (codes "http")).0 plain)
    | inr other ↦ inr ((==_iff u.scheme (codes "https")).0 (rw other at h))
  ]

  canonical_url-IsCanonical :
      (u : Url) (t : Text)
      → (u.opaque ≡ []) ⊎ (net.hostname u ≡ [])
      → canonical_url net u ≡ some t
      → (v : Url) × (t ≡ net.to_string v) × IsCanonical net v
  unfolding canonical_url
  canonical_url-IsCanonical u t hostless h =
      elim (Bool-cases (u.scheme == codes "http" || u.scheme == codes "https")) [
        | inr other ↦ cc (rw other at h)
        | inl web ↦ elim (Option-cases (canonical_host net u)) [
          | inl e ↦ absurd (ground arith)
          | inr (host, e) ↦ (
            final_url net u host,
            ground arith,
            final_url-IsCanonical u host (canonical_host-opaque u host e hostless)
                (http_or_https u web) (canonical_host-IsHost net u host laws.lower_twice e),
          )
        ]
      ]

  resolved-hostless :
      (base : Option Url) (raw : Text) (u : Url)
      → resolved net base raw ≡ some u
      → (u.opaque ≡ []) ⊎ (net.hostname u ≡ [])
  unfolding resolved absolute
  resolved-hostless base raw u h = elim (Option-cases (net.parse (before_quote raw))) [
    | inl e ↦ absurd (ground arith)
    | inr (v, e) ↦ elim (Bool-cases (is_empty v.scheme)) [
      | inr abs ↦
          subst (λ w. (w.opaque ≡ []) ⊎ (net.hostname w ≡ [])) (ground arith)
            (laws.parsed_host (before_quote raw) v e)
      | inl rel ↦ elim (Option-cases base) [
        | inl e' ↦ absurd (ground arith)
        | inr (b, e') ↦
            subst (λ w. (w.opaque ≡ []) ⊎ (net.hostname w ≡ [])) (ground arith)
              (laws.resolved_host b v
                (laws.parsed_relative (before_quote raw) v e (is_empty-nil v.scheme rel)))
      ]
    ]
  ]

  -- Whatever `Canonical` returns is the print of a canonical URL: http or https, with a host in lower
  -- case and ASCII form that names no default port, with neither user nor fragment, with a path, and
  -- without tracking parameters, if net/url and unicode do as they document.
  pub canonical-IsCanonical :
      (raw : Text) (base : Option Url) (t : Text)
      → canonical net raw base ≡ some t
      → (v : Url) × (t ≡ net.to_string v) × IsCanonical net v
  unfolding canonical
  canonical-IsCanonical raw base t h = elim (Option-cases (resolved net base (trim_space raw))) [
    | inl e ↦ absurd (ground arith)
    | inr (u, e) ↦
        canonical_url-IsCanonical u t (resolved-hostless base (trim_space raw) u e) (ground arith)
  ]

canonical_host_default :
    (net : NetUrl) (u : Url)
    → is_default_port u.scheme (net.port u) ≡ true
    → canonical_host net u ≡ canonical_name net (trim_dot (map net.lower (net.hostname u)))
unfolding canonical_host with_port
canonical_host_default net u h =
    ground (arith, Option-cases (canonical_name net (trim_dot (map net.lower (net.hostname u)))))

-- Two URLs that differ in a default port alone have one host.
pub canonical_host-default_port :
    (net : NetUrl) (u v : Url)
    → net.hostname u ≡ net.hostname v
    → ((u.scheme ≡ codes "http") × (net.port u ≡ codes "80"))
      ⊎ ((u.scheme ≡ codes "https") × (net.port u ≡ codes "443"))
    → net.port v ≡ []
    → canonical_host net u ≡ canonical_host net v
canonical_host-default_port net u v name port bare =
    canonical_host_default net u (default_port u.scheme (net.port u) port)
    ∙ ap (λ n. canonical_name net (trim_dot (map net.lower n))) name
    ∙ sym (
        canonical_host_default net v
          (subst (λ p. is_default_port v.scheme p ≡ true) (sym bare) (no_port v.scheme)))

before-cut_at : (c : ℕ) (h r : Text) → Lacks c h → cut_at c (h ++ c ∷ r) ≡ some (h, r)
unfolding cut_at
before-cut_at c [] r l = rw (==_refl c)
before-cut_at c (x ∷ h) r l = rw (l.0, before-cut_at c h r l.1)

-- A host and port, such as localhost:8080, has no scheme: no text has one in which a digit stands
-- behind the first colon.
pub has_scheme-port :
    (h r : Text) (d : ℕ) → Lacks b':' h → is_digit d ≡ true → has_scheme (h ++ b':' ∷ d ∷ r) ≡ false
unfolding has_scheme no_digit_first
has_scheme-port h r d l digit = rw (before-cut_at b':' h (d ∷ r) l, has_scheme) (ground arith)
