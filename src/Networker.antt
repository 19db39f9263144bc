-- ===== src/Networker.antt =====
-- internal/networker/networker_repo.go: which redirects rename a page. The HTTP client is not
-- modelled: a fetch is given as the redirects that it asks `CheckRedirect` about.
use project_arachne.Prelude.{
  ℕ, ◌+◌, ◌≤◌, ◌≡◌, ◌≢◌, refl, List, [], ◌∷◌, Bool, true, false, ◌&&◌, ◌||◌, Option, none, some,
  leb, if◌then◌else◌, ◌==◌, nat_eq, list_eq, length, Bool-cases, inl, inr, arith, Text,
}

-- The parts of a `url.URL` that are read, and its print.
pub record Address : Type 0 where
  pub host : Text
  pub raw_query : Text
  pub escaped_path : Text
  pub printed : Text

pub record Redirect : Type 0 where
  pub status : ℕ
  pub from_url : Address
  pub to_url : Address

-- `strings.TrimSuffix(path, "/")`.
unfoldable pub trim_slash : Text → Text
trim_slash [] = []
trim_slash (c ∷ []) = if c == b'/' then [] else c ∷ []
trim_slash (c ∷ d ∷ s) = c ∷ trim_slash (d ∷ s)

unfoldable pub is_identity_redirect : (Text → Text → Bool) → Redirect → Bool
is_identity_redirect equal_fold r =
    (r.status == 301 || r.status == 308)
    || (equal_fold r.from_url.host r.to_url.host
        && r.from_url.raw_query == r.to_url.raw_query
        && trim_slash r.from_url.escaped_path == trim_slash r.to_url.escaped_path)

-- `identity` and `renamed`.
pub record Identity : Type 0 where
  pub identity : Text
  pub renamed : Bool

unfoldable pub check_redirect : (Text → Text → Bool) → Redirect → Identity → Identity
check_redirect equal_fold r i =
    if i.renamed && is_identity_redirect equal_fold r
    then record i { identity = r.to_url.printed }
    else record i { renamed = false }

abbrev pub max_redirects : ℕ
max_redirects = 10

-- The redirects of one fetch, behind `via` earlier requests: too many of them are an error.
unfoldable pub follow : (Text → Text → Bool) → ℕ → List Redirect → Identity → Option Identity
follow equal_fold via [] i = some i
follow equal_fold via (r ∷ rs) i =
    let rest = follow equal_fold (via + 1) rs (check_redirect equal_fold r i) in
    if leb max_redirects via then none else rest

unfoldable pub identity_of : (Text → Text → Bool) → Text → List Redirect → Option Identity
identity_of equal_fold url rs = follow equal_fold 1 rs (record { identity = url; renamed = true })

-- Where the leading run of redirects that rename the page ends.
unfoldable pub end_of_run : (Text → Text → Bool) → Text → List Redirect → Text
end_of_run equal_fold url [] = url
end_of_run equal_fold url (r ∷ rs) = elim (is_identity_redirect equal_fold r) [
  | true ↦ end_of_run equal_fold r.to_url.printed rs
  | false ↦ url
]

-- The fetch was answered, and with that identity.
abbrev pub Names : Text → Option Identity → Type 0
Names url none = Unit
Names url (some i) = i.identity ≡ url

module _ (equal_fold : Text → Text → Bool) where
  settled :
      (via : ℕ) (rs : List Redirect) (url : Text)
      → Names url (follow equal_fold via rs (record { identity = url; renamed = false }))
  unfolding follow check_redirect
  settled via [] url = refl
  settled via (r ∷ rs) url = elim (Bool-cases (leb max_redirects via)) [
    | inl over ↦ rw (over, follow) tt
    | inr fine ↦ rw (fine, follow) (settled (via + 1) rs url)
  ]

  follow-Names :
      (via : ℕ) (rs : List Redirect) (url : Text)
      → Names
          (end_of_run equal_fold url rs)
          (follow equal_fold via rs (record { identity = url; renamed = true }))
  unfolding follow check_redirect end_of_run
  follow-Names via [] url = refl
  follow-Names via (r ∷ rs) url = elim (Bool-cases (leb max_redirects via)) [
    | inl over ↦ rw (over, follow) tt
    | inr fine ↦ elim (Bool-cases (is_identity_redirect equal_fold r)) [
      | inl same ↦
          rw (fine, follow)
            (rw (same, check_redirect, end_of_run) (follow-Names (via + 1) rs r.to_url.printed))
      | inr other ↦
          rw (fine, follow) (rw (other, check_redirect, end_of_run) (settled (via + 1) rs url))
    ]
  ]

  follow-answers :
      (via : ℕ) (rs : List Redirect) (i : Identity)
      → via + length rs ≤ max_redirects
      → follow equal_fold via rs i ≢ none
  unfolding follow
  follow-answers via [] i h = ground arith
  follow-answers via (r ∷ rs) i h = elim (Bool-cases (leb max_redirects via)) [
    | inl over ↦ absurd (ground arith)
    | inr fine ↦
        rw (fine, follow)
          (follow-answers (via + 1) rs (check_redirect equal_fold r i) (ground arith))
  ]

  -- A fetch with fewer redirects than the bound is answered, and its identity is where the leading run
  -- of redirects that rename the page ends, whatever the later ones are.
  pub identity_of-end_of_run :
      (url : Text) (rs : List Redirect)
      → 1 + length rs ≤ max_redirects
      → (identity_of equal_fold url rs ≢ none)
        × Names (end_of_run equal_fold url rs) (identity_of equal_fold url rs)
  unfolding identity_of
  identity_of-end_of_run url rs h =
      (follow-answers 1 rs (record { identity = url; renamed = true }) h, follow-Names 1 rs url)
