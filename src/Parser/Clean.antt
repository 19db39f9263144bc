-- ===== src/Parser/Clean.antt =====
-- internal/parser/content.go: words and lines that are normalized.
use project_arachne.Prelude.{
  ℕ, ◌≡◌, refl, ap, ◌∙◌, inl, inr, List, [], ◌∷◌, map, Bool, true, false, not, arith, All,
  All-append, ◌==◌, nat_eq, filter, Bool-cases, Text, codes,
}
use project_arachne.Strings.{is_space, is_empty, split_by, fields, join}
use project_arachne.Strings.Splitting.{
  Fails, AllFail, split_by-AllFail, split_by_one, split_by-append,
}
use project_arachne.Parser.Blocks.{normalize_whitespace}

-- A word: not empty, and without space.
abbrev pub IsWord : Text → Type 0
IsWord w = (is_empty w ≡ false) × Fails is_space w

abbrev pub is_newline : ℕ → Bool
is_newline c = c == b'\n'

split_by-join :
    (test : ℕ → Bool) (sep : ℕ) (p : Text) (ps : List Text)
    → test sep ≡ true
    → AllFail test (p ∷ ps)
    → split_by test (join (sep ∷ []) (p ∷ ps)) ≡ p ∷ ps
unfolding join
split_by-join test sep p [] passes h = split_by_one test p h.0
split_by-join test sep p (q ∷ ps) passes h =
    split_by-append test p (join (sep ∷ []) (q ∷ ps)) sep h.0 passes
    ∙ ap (◌∷◌ p) (split_by-join test sep q ps passes h.1)

filter-IsWord :
    (parts : List Text) → AllFail is_space parts → All IsWord (filter (λ w. not (is_empty w)) parts)
filter-IsWord [] h = tt
filter-IsWord (p ∷ parts) (fails, h) = elim (Bool-cases (is_empty p)) [
  | inl e ↦ rw (e, filter) (filter-IsWord parts h)
  | inr e ↦ rw (e, filter) ((e, fails), filter-IsWord parts h)
]

filter_words : (ws : List Text) → All IsWord ws → filter (λ w. not (is_empty w)) ws ≡ ws
filter_words [] h = refl
filter_words (w ∷ ws) ((full, fails), h) = rw (full, filter) (ap (◌∷◌ w) (filter_words ws h))

words-AllFail : (ws : List Text) → All IsWord ws → AllFail is_space ws
words-AllFail [] h = tt
words-AllFail (w ∷ ws) ((full, fails), h) = (fails, words-AllFail ws h)

fields-IsWord : (s : Text) → All IsWord (fields s)
unfolding fields
fields-IsWord s = filter-IsWord (split_by is_space s) (split_by-AllFail is_space s)

fields-join : (ws : List Text) → All IsWord ws → fields (join (codes " ") ws) ≡ ws
unfolding fields join split_by is_empty is_space
fields-join [] h = refl
fields-join (w ∷ ws) h =
    ap (filter (λ w. not (is_empty w)))
      (split_by-join is_space b' ' w ws refl (words-AllFail (w ∷ ws) h))
    ∙ filter_words (w ∷ ws) h

normalize_whitespace_twice :
    (s : Text) → normalize_whitespace (normalize_whitespace s) ≡ normalize_whitespace s
unfolding normalize_whitespace
normalize_whitespace_twice s = ap (join (codes " ")) (fields-join (fields s) (fields-IsWord s))

newline_space : (c : ℕ) → is_space c ≡ false → is_newline c ≡ false
unfolding is_space
newline_space c h = ground arith

Fails-mono : (w : Text) → Fails is_space w → Fails is_newline w
Fails-mono [] h = tt
Fails-mono (c ∷ w) (other, h) = (newline_space c other, Fails-mono w h)

join-Fails : (ws : List Text) → All IsWord ws → Fails is_newline (join (codes " ") ws)
unfolding join
join-Fails [] h = tt
join-Fails (w ∷ []) h = Fails-mono w h.0.1
join-Fails (w ∷ v ∷ ws) h =
    All-append (λ c. is_newline c ≡ false) w _ (Fails-mono w h.0.1) (refl, join-Fails (v ∷ ws) h.1)

-- A line of a paragraph.
abbrev pub IsLine : Text → Type 0
IsLine l = (normalize_whitespace l ≡ l) × (is_empty l ≡ false) × Fails is_newline l

pub normalized-IsLine :
    (s : Text) → is_empty (normalize_whitespace s) ≡ false → IsLine (normalize_whitespace s)
normalized-IsLine s full = (
  normalize_whitespace_twice s,
  full,
  (unfold normalize_whitespace in join-Fails (fields s) (fields-IsWord s)),
)

abbrev pub IsBlock : List Text → Type 0
IsBlock [] = ⊥
IsBlock (l ∷ lines) = All IsLine (l ∷ lines)

abbrev pub rendered : List (List Text) → List Text
rendered = map (join (codes "\n"))
