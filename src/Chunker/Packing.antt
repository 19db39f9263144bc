-- ===== src/Chunker/Packing.antt =====
-- `pack` of internal/chunker/chunker_paragraph.go: the length of the chunks, and the overlap between them.
use project_arachne.Prelude.{
  ℕ, ◌+◌, ◌≤◌, ◌≡◌, refl, ◌∙◌, ap, sym, subst, List, [], ◌∷◌, ◌++◌, false, ◌||◌, ltb, leb, nat_eq,
  length, length-append, All, All-append, Bool-cases, inl, inr, Text, arith, append-nil,
}
use project_arachne.Chunker.Paragraph.{
  Settings, TextUnit, separator, separator_runes, render_after, render, measure_after, measure,
  Tail, keep_if_fits, cost_before, extend, tail_within, overlap, Open, nothing_open, joint,
  reopened, must_close, append, last_text, pack_from, pack, units_from,
}
use project_arachne.Chunker.Pieces.{IsMeasured, units_from-IsMeasured}

length-separator : (u v : TextUnit) → length (separator u v) ≡ separator_runes u v
unfolding separator separator_runes
length-separator u v = ground arith

module _ (limit : ℕ) where
  length-render_after :
      (u : TextUnit) (us : List TextUnit)
      → All (IsMeasured limit) us
      → length (render_after u us) ≡ measure_after u us
  unfolding render_after measure_after IsMeasured
  length-render_after u [] h = refl
  length-render_after u (v ∷ us) h = omega (
    arith,
    length-append (separator u v) (v.text ++ render_after v us),
    length-append v.text (render_after v us),
    length-separator u v,
    h.0.0,
    length-render_after v us h.1,
  )

  -- What `measure` counts is the length of what `render` prints.
  pub length-render :
      (us : List TextUnit) → All (IsMeasured limit) us → length (render us) ≡ measure us
  unfolding render measure IsMeasured
  length-render [] h = refl
  length-render (u ∷ us) h =
      omega (arith, length-append u.text (render_after u us), h.0.0, length-render_after u us h.1)

measure_after-append :
    (u v : TextUnit) (us : List TextUnit)
    → measure_after u (us ++ v ∷ []) ≡ measure_after u us + (joint (u ∷ us) v + v.runes)
unfolding measure_after joint
measure_after-append u v [] = omega arith
measure_after-append u v (w ∷ us) = omega (arith, measure_after-append w v us)

measure-append :
    (us : List TextUnit) (v : TextUnit) → measure (us ++ v ∷ []) ≡ measure us + joint us v + v.runes
unfolding measure joint measure_after
measure-append [] v = omega arith
measure-append (u ∷ us) v = omega (arith, measure_after-append u v us)

-- The list ends in the other one.
abbrev pub EndsIn : List TextUnit → List TextUnit → Type 0
EndsIn us tail = (front : List TextUnit) × (us ≡ front ++ tail)

unfoldable IsTail : ℕ → List TextUnit → Tail → Type 0
IsTail limit us t =
    EndsIn us t.units
    × (t.total ≡ measure t.units)
    × (t.total ≤ limit)
    × (t.stopped ≡ false → t.units ≡ us)

measure-cost_before :
    (u : TextUnit) (us : List TextUnit) → measure us + cost_before u us ≡ measure (u ∷ us)
unfolding measure cost_before measure_after
measure-cost_before u [] = omega arith
measure-cost_before u (v ∷ us) = omega arith

extend-IsTail :
    (limit : ℕ) (u : TextUnit) (us : List TextUnit) (t : Tail)
    → IsTail limit us t
    → IsTail limit (u ∷ us) (extend limit u t)
unfolding IsTail extend
extend-IsTail limit u us t ((front, ends), total, within, whole) =
    elim (Bool-cases (t.stopped || ltb limit (t.total + cost_before u t.units))) [
      | inl full ↦
          rw (full, extend)
            ((u ∷ front, ap (◌∷◌ u) ends), total, within, λ h. absurd (ground arith))
      | inr free ↦
          rw (free, extend)
            (
              ([], ap (◌∷◌ u) (sym (whole (ground arith)))),
              omega (arith, total, measure-cost_before u t.units),
              ground arith,
              λ _. ap (◌∷◌ u) (whole (ground arith)),
            )
    ]

tail_within-IsTail : (limit : ℕ) (us : List TextUnit) → IsTail limit us (tail_within limit us)
unfolding IsTail tail_within measure
tail_within-IsTail limit [] = (([], refl), refl, omega arith, λ _. refl)
tail_within-IsTail limit (u ∷ us) =
    extend-IsTail limit u us (tail_within limit us) (tail_within-IsTail limit us)

EndsIn-nil : (us : List TextUnit) → EndsIn us []
EndsIn-nil us = (us, sym (append-nil us))

-- The overlap is an end of the closed chunk that leaves its first unit out, and measures no more than
-- the settings allow, separators included.
pub overlap-EndsIn :
    (s : Settings) (u : TextUnit) (us : List TextUnit)
    → EndsIn us (overlap s (u ∷ us)) × (measure (overlap s (u ∷ us)) ≤ s.overlap_runes)
unfolding overlap measure IsTail
overlap-EndsIn s u [] = (([], refl), omega arith)
overlap-EndsIn s u (v ∷ us) =
    let tail = tail_within-IsTail s.overlap_runes (v ∷ us) in
    elim (Bool-cases (leb s.overlap_runes 0)) [
      | inl off ↦ rw (off, overlap) (EndsIn-nil (v ∷ us), omega arith)
      | inr on ↦ rw (on, overlap) (tail.0, omega (arith, tail.1, tail.2))
    ]

All-append_right {ℓ} : {A : Type 0} (P : A → Type ℓ) (xs ys : List A) → All P (xs ++ ys) → All P ys
All-append_right P [] ys h = h
All-append_right P (x ∷ xs) ys h = All-append_right P xs ys h.1

unfoldable pub IsShort : Settings → Text → Type 0
IsShort s text = length text ≤ s.max_runes

module _ (s : Settings) where
  -- What is open is measured, and within the limit.
  unfoldable IsOpen : Open → Type 0
  IsOpen o =
      (o.runes ≡ measure o.units) × (o.runes ≤ s.max_runes) × All (IsMeasured s.max_runes) o.units

  append-IsOpen :
      (o : Open) (u : TextUnit)
      → o.runes ≡ measure o.units
      → All (IsMeasured s.max_runes) o.units
      → IsMeasured s.max_runes u
      → o.runes + joint o.units u + u.runes ≤ s.max_runes
      → IsOpen (append o u)
  unfolding IsOpen
  append-IsOpen o u e us h fits = (
    ap (λ n. n + joint o.units u + u.runes) e ∙ sym (measure-append o.units u),
    fits,
    All-append (IsMeasured s.max_runes) o.units (u ∷ []) us (h, tt),
  )

  first-IsOpen : (u : TextUnit) → IsMeasured s.max_runes u → IsOpen (append nothing_open u)
  first-IsOpen u h =
      append-IsOpen nothing_open u (unfold measure in refl) tt h
        (unfold joint IsMeasured in omega (arith, h.1))

  overlap-IsMeasured :
      (us : List TextUnit)
      → All (IsMeasured s.max_runes) us
      → All (IsMeasured s.max_runes) (overlap s us)
  overlap-IsMeasured [] h = unfold overlap in tt
  overlap-IsMeasured (u ∷ us) h =
      let (front, ends) = (overlap-EndsIn s u us).0 in
      All-append_right (IsMeasured s.max_runes) front (overlap s (u ∷ us))
        (subst (All (IsMeasured s.max_runes)) ends h.1)

  keep_if_fits-IsOpen :
      (u : TextUnit) (tail : List TextUnit)
      → All (IsMeasured s.max_runes) tail
      → IsMeasured s.max_runes u
      → IsOpen (append (keep_if_fits s u tail) u)
  unfolding keep_if_fits
  keep_if_fits-IsOpen u [] us h = first-IsOpen u h
  keep_if_fits-IsOpen u (v ∷ vs) us h =
      elim (Bool-cases (ltb s.max_runes (measure (v ∷ vs) + joint (v ∷ vs) u + u.runes))) [
        | inl full ↦ rw (full, keep_if_fits) (first-IsOpen u h)
        | inr free ↦
            rw (free, keep_if_fits)
              (append-IsOpen (record { units = v ∷ vs; runes = measure (v ∷ vs) }) u refl us h
                (ground arith))
      ]

  must_close-fits :
      (u : TextUnit) (o : Open)
      → must_close s u o ≡ false
      → o.runes + joint o.units u + u.runes ≤ s.max_runes
  unfolding must_close
  must_close-fits u o h = ground arith

  last_text-IsShort :
      (us : List TextUnit)
      → measure us ≤ s.max_runes
      → All (IsMeasured s.max_runes) us
      → All (IsShort s) (last_text us)
  unfolding last_text IsShort
  last_text-IsShort [] h m = tt
  last_text-IsShort (u ∷ us) h m = (omega (arith, length-render s.max_runes (u ∷ us) m), tt)

  alone_fits :
      (u : TextUnit) (runes : ℕ) (opened : List TextUnit)
      → opened ≡ []
      → runes ≡ measure opened
      → IsMeasured s.max_runes u
      → runes + joint opened u + u.runes ≤ s.max_runes
  alone_fits u runes opened none_open e h =
      subst (λ l. runes ≡ measure l → runes + joint l u + u.runes ≤ s.max_runes) (sym none_open)
        (λ e'. unfold measure joint IsMeasured in omega (arith, e', h.1)) e

  -- One round of the loop, given the rounds behind it.
  pack_round-IsShort :
      (o : Open) (u : TextUnit) (us : List TextUnit)
      → IsOpen o
      → IsMeasured s.max_runes u
      → ((o' : Open) → IsOpen o' → All (IsShort s) (pack_from s o' us))
      → (opened : List TextUnit) → o.units ≡ opened
      → All (IsShort s) (pack_from s o (u ∷ us))
  unfolding pack_from IsOpen IsShort
  pack_round-IsShort o u us (e, within, units) h rest [] none_open =
      rw (none_open, pack_from)
        (rest (append o u)
          (append-IsOpen o u e units h (alone_fits u o.runes o.units none_open e h)))
  pack_round-IsShort o u us (e, within, units) h rest (v ∷ vs) some_open =
      elim (Bool-cases (must_close s u o)) [
        | inl full ↦
            rw (some_open, pack_from)
              (rw (full, pack_from)
                (
                  omega (arith, length-render s.max_runes o.units units, e),
                  rest (append (reopened s u o.units) u) (
                      unfold reopened in
                      keep_if_fits-IsOpen u (overlap s o.units) (overlap-IsMeasured o.units units)
                        h),
                ))
        | inr free ↦
            rw (some_open, pack_from)
              (rw (free, pack_from)
                (rest (append o u) (append-IsOpen o u e units h (must_close-fits u o free))))
      ]

  pack_from-IsShort :
      (o : Open) (us : List TextUnit)
      → IsOpen o
      → All (IsMeasured s.max_runes) us
      → All (IsShort s) (pack_from s o us)
  unfolding pack_from IsOpen IsShort
  pack_from-IsShort o [] (e, within, units) h = last_text-IsShort o.units (omega (arith, e)) units
  pack_from-IsShort o (u ∷ us) h (hu, hs) =
      pack_round-IsShort o u us h hu (λ o' h'. pack_from-IsShort o' us h' hs) o.units refl

  -- Whatever the paragraphs are: no text that is packed from them is longer than the limit.
  pub pack-IsShort : (paragraphs : List Text) → All (IsShort s) (pack s (units_from s 0 paragraphs))
  unfolding pack
  pack-IsShort paragraphs =
      pack_from-IsShort nothing_open (units_from s 0 paragraphs)
        (unfold IsOpen measure in (refl, omega arith, tt)) (units_from-IsMeasured s 0 paragraphs)
