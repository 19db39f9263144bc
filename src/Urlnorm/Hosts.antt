-- ===== src/Urlnorm/Hosts.antt =====
-- The host of a canonical URL: `canonicalHost` of internal/urlnorm/urlnorm.go.
use project_arachne.Prelude.{
  ℕ, ◌≡◌, ◌≢◌, refl, sym, ◌⊎◌, inl, inr, [], ◌∷◌, ◌++◌, map, true, false, some, arith, ◌==◌, All,
  nat_eq, list_eq, Text, codes, Bool-cases, Option-cases, some-injective, subst,
}
use project_arachne.Strings.{cut_at, is_empty}
use project_arachne.Urlnorm.{
  Url, NetUrl, trim_dot, is_default_port, with_port, canonical_name, canonical_host,
}

-- The port that the scheme has anyway.
abbrev pub IsDefault : Text → Text → Type 0
IsDefault scheme port =
    ((scheme ≡ codes "http") × (port ≡ codes "80"))
    ⊎ ((scheme ≡ codes "https") × (port ≡ codes "443"))

-- The host is the ASCII form of a name in lower case, or such an address in brackets; a port follows only
-- if it is not the default one.
pub record IsHost (net : NetUrl) (scheme host : Text) : Type 0 where
  pub hostname : Text
  pub name : Text
  pub port : Text
  pub filled : hostname ≢ []
  pub lowered : All (λ c. net.lower c ≡ c) hostname
  pub named : (net.to_ascii hostname ≡ some name) ⊎ (name ≡ b'[' ∷ (hostname ++ b']' ∷ []))
  pub ported :
      ((port ≡ []) × (host ≡ name))
      ⊎ ((port ≢ []) × (¬ IsDefault scheme port) × (host ≡ name ++ b':' ∷ port))

pub default_port : (scheme port : Text) → IsDefault scheme port → is_default_port scheme port ≡ true
unfolding is_default_port is_empty
default_port scheme port (inl (s, p)) = rw (s, p) refl
default_port scheme port (inr (s, p)) = rw (s, p) refl

pub no_port : (scheme : Text) → is_default_port scheme [] ≡ true
unfolding is_default_port is_empty
no_port scheme = refl

map-lowered :
    (lower : ℕ → ℕ) (s : Text)
    → ((c : ℕ) → lower (lower c) ≡ lower c)
    → All (λ c. lower c ≡ c) (map lower s)
map-lowered lower [] twice = tt
map-lowered lower (c ∷ s) twice = (twice c, map-lowered lower s twice)

trim_dot-All : (P : ℕ → Type 0) (s : Text) → All P s → All P (trim_dot s)
unfolding trim_dot
trim_dot-All P [] h = tt
trim_dot-All P (c ∷ []) h = elim (Bool-cases (c == b'.')) [
  | inl dot ↦ rw (dot, trim_dot) tt
  | inr other ↦ rw (other, trim_dot) h
]
trim_dot-All P (c ∷ d ∷ s) (h, hs) = (h, trim_dot-All P (d ∷ s) hs)

canonical_name-named :
    (net : NetUrl) (hostname name : Text)
    → canonical_name net hostname ≡ some name
    → (hostname ≢ [])
      × ((net.to_ascii hostname ≡ some name) ⊎ (name ≡ b'[' ∷ (hostname ++ b']' ∷ [])))
unfolding canonical_name is_empty
canonical_name-named net [] name h = absurd (ground arith)
canonical_name-named net (c ∷ s) name h = elim (Option-cases (cut_at b':' (c ∷ s))) [
  | inl plain ↦ (λ e. cc, inl (rw (plain, canonical_name) at h))
  | inr (parts, e) ↦ (λ e. cc, inr (sym (some-injective (rw (e, canonical_name) at h))))
]

with_port-ported :
    (scheme port name host : Text)
    → with_port scheme port name ≡ host
    → (p : Text) × (((p ≡ []) × (host ≡ name))
        ⊎ ((p ≢ []) × (¬ IsDefault scheme p) × (host ≡ name ++ b':' ∷ p)))
unfolding with_port
with_port-ported scheme port name host h = elim (Bool-cases (is_default_port scheme port)) [
  | inl default ↦ ([], inl (refl, sym (rw (default, with_port) at h)))
  | inr other ↦ (
    port,
    inr (
      λ e. cc (subst (λ p. is_default_port scheme p ≡ false) e other, no_port scheme),
      λ d. cc (default_port scheme port d, other),
      sym (rw (other, with_port) at h),
    ),
  )
]

pub canonical_host-IsHost :
    (net : NetUrl) (u : Url) (host : Text)
    → ((c : ℕ) → net.lower (net.lower c) ≡ net.lower c)
    → canonical_host net u ≡ some host
    → IsHost net u.scheme host
unfolding canonical_host
canonical_host-IsHost net u host twice h =
    let hostname = trim_dot (map net.lower (net.hostname u)) in
    elim (Option-cases (canonical_name net hostname)) [
      | inl e ↦ absurd (ground arith)
      | inr (name, e) ↦
          let (filled, named) = canonical_name-named net hostname name e in
          let (port, ported) =
            with_port-ported u.scheme (net.port u) name host
              (some-injective (rw (e, canonical_host) at h)) in
          record {
            hostname = hostname;
            name = name;
            port = port;
            filled = filled;
            lowered =
                trim_dot-All (λ c. net.lower c ≡ c) (map net.lower (net.hostname u))
                  (map-lowered net.lower (net.hostname u) twice);
            named = named;
            ported = ported;
          }
    ]
