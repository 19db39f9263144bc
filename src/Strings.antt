-- ===== src/Strings.antt =====
-- What the crawler uses of Go's packages strings and unicode, on texts as lists of code points.
pub mod Splitting
use mathlib.Core.List.{reverse}
use project_arachne.Prelude.{
  ℕ, ◌<◌, ◌≡◌, ◌≢◌, List, [], ◌∷◌, ◌++◌, Bool, true, false, not, ◌&&◌, ◌||◌, Option, none, some,
  leb, if◌then◌else◌, ◌==◌, nat_eq, list_eq, filter, Text, codes,
}

-- `unicode.IsSpace`: the code points of Unicode's White_Space.
unfoldable pub is_space : ℕ → Bool
is_space c =
    (leb 0x9 c && leb c 0xd)
    || c == 0x20
    || c == 0x85
    || c == 0xa0
    || c == 0x1680
    || (leb 0x2000 c && leb c 0x200a)
    || c == 0x2028
    || c == 0x2029
    || c == 0x202f
    || c == 0x205f
    || c == 0x3000

unfoldable pub trim_left : Text → Text
trim_left [] = []
trim_left (c ∷ s) = elim (is_space c) [ true ↦ trim_left s | false ↦ c ∷ s ]

-- `strings.TrimSpace`.
unfoldable pub trim_space : Text → Text
trim_space s = reverse (trim_left (reverse (trim_left s)))

unfoldable pub has_prefix : Text → Text → Bool
has_prefix [] s = true
has_prefix (c ∷ p) [] = false
has_prefix (c ∷ p) (d ∷ s) = c == d && has_prefix p s

unfoldable pub has_suffix : Text → Text → Bool
has_suffix p s = has_prefix (reverse p) (reverse s)

-- What stands before the first such character, and what behind it, if there is one.
unfoldable pub cut_at : ℕ → Text → Option (Text × Text)
cut_at c [] = none
cut_at c (d ∷ s) =
    if d == c
    then some ([], s)
    else elim (cut_at c s) [ none ↦ none | some (before, after) ↦ some (d ∷ before, after) ]

-- The text up to the first such character.
unfoldable pub up_to : ℕ → Text → Text
up_to c [] = []
up_to c (d ∷ s) = if d == c then [] else d ∷ up_to c s

unfoldable pub grow : ℕ → List Text → List Text
grow c [] = (c ∷ []) ∷ []
grow c (p ∷ ps) = (c ∷ p) ∷ ps

-- The parts between the characters that pass the test.
unfoldable pub split_by : (ℕ → Bool) → Text → List Text
split_by test [] = [] ∷ []
split_by test (c ∷ s) = let rest = split_by test s in if test c then [] ∷ rest else grow c rest

-- `strings.Split` at a single character.
unfoldable pub split : ℕ → Text → List Text
split sep = split_by (λ c. c == sep)

unfoldable pub is_empty : Text → Bool
is_empty [] = true
is_empty (c ∷ s) = false

-- `strings.Fields`.
unfoldable pub fields : Text → List Text
fields s = filter (λ w. not (is_empty w)) (split_by is_space s)

-- `strings.Join`.
unfoldable pub join : Text → List Text → Text
join sep [] = []
join sep (p ∷ []) = p
join sep (p ∷ q ∷ ps) = p ++ (sep ++ join sep (q ∷ ps))
