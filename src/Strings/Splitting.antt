-- ===== src/Strings/Splitting.antt =====
-- Splitting and joining undo one another.
use project_arachne.Prelude.{
  ℕ, ◌≡◌, refl, ap, ◌∙◌, List, [], ◌∷◌, ◌++◌, Bool, true, false, ◌==◌, nat_eq, All, Text,
  Bool-cases, inl, inr, ==_refl,
}
use project_arachne.Strings.{split_by, split, grow, join}

-- No character of the text passes the test.
abbrev pub Fails : (ℕ → Bool) → Text → Type 0
Fails test = All (λ c. test c ≡ false)

abbrev pub AllFail : (ℕ → Bool) → List Text → Type 0
AllFail test = All (Fails test)

grow-AllFail :
    (test : ℕ → Bool) (c : ℕ) (ps : List Text)
    → test c ≡ false
    → AllFail test ps
    → AllFail test (grow c ps)
unfolding grow
grow-AllFail test c [] h ok = ((h, tt), tt)
grow-AllFail test c (p ∷ ps) h ok = ((h, ok.0), ok.1)

-- The parts hold no separator.
pub split_by-AllFail : (test : ℕ → Bool) (s : Text) → AllFail test (split_by test s)
unfolding split_by
split_by-AllFail test [] = (tt, tt)
split_by-AllFail test (c ∷ s) = elim (Bool-cases (test c)) [
  | inl sep ↦ rw sep (tt, split_by-AllFail test s)
  | inr other ↦ rw other (grow-AllFail test c _ other (split_by-AllFail test s))
]

pub split_by_one : (test : ℕ → Bool) (p : Text) → Fails test p → split_by test p ≡ p ∷ []
unfolding split_by grow
split_by_one test [] h = refl
split_by_one test (c ∷ p) h = rw (h.0, split_by_one test p h.1) refl

pub split_by-append :
    (test : ℕ → Bool) (p s : Text) (c : ℕ)
    → Fails test p
    → test c ≡ true
    → split_by test (p ++ c ∷ s) ≡ p ∷ split_by test s
unfolding split_by grow
split_by-append test [] s c h sep = rw sep refl
split_by-append test (d ∷ p) s c h sep = rw (h.0, split_by-append test p s c h.1 sep) refl

-- Splitting a join at its separator gives the parts back.
pub split-join :
    (sep : ℕ) (p : Text) (ps : List Text)
    → AllFail (λ c. c == sep) (p ∷ ps)
    → split sep (join (sep ∷ []) (p ∷ ps)) ≡ p ∷ ps
unfolding split join
split-join sep p [] h = split_by_one (λ c. c == sep) p h.0
split-join sep p (q ∷ ps) h =
    split_by-append (λ c. c == sep) p (join (sep ∷ []) (q ∷ ps)) sep h.0 (==_refl sep)
    ∙ ap (◌∷◌ p) (split-join sep q ps h.1)
