-- ===== src/PageParser/Endless.antt =====
-- The loop of `ExtractLinksFromJS` over a script that gives one name two different texts.
use project_arachne.Prelude.{
  ℕ, zero, suc, ◌≡◌, ◌⊎◌, inl, inr, refl, subst, sym, List, [], ◌∷◌, ◌++◌, true, false, Option,
  none, some, ◌==◌, ==_iff, nat_eq, list_eq, lookup, Bool-cases, Option-cases, ◌≢◌, Text, arith,
}
use project_arachne.PageParser.Script.{
  Expr, string_literal, identifier, number_literal, template_literal, plus, dot, bracket,
  object_literal, new_expression, call_expression, other, Constants, Progress, is_text, assign_var,
  assign_property, assign_at, assign_to, Assign, assign_step, assign_steps, init_steps, Script,
  round, rounds, eval_string_expr, set_object,
}

-- Something has changed in this round, or else the variables are so.
abbrev Marked : (List (Text × Text) → Type 0) → Progress → Type 0
Marked Q p = (p.changed ≡ true) ⊎ Q p.constants.vars

module _ (Q : List (Text × Text) → Type 0) where
  assign_var-Marked : (name v : Text) (p : Progress) → Marked Q p → Marked Q (assign_var name v p)
  unfolding assign_var
  assign_var-Marked name v p m = elim (Bool-cases (is_text (lookup name p.constants.vars) v)) [
    | inl same ↦ rw (same, assign_var) m
    | inr new ↦ rw (new, assign_var) (inl refl)
  ]

  assign_at-Marked :
      (e : Expr) (key v : Option Text) (p : Progress) → Marked Q p → Marked Q (assign_at e key v p)
  unfolding assign_at assign_property set_object
  assign_at-Marked e key v p m = ground arith

  assign_to-Marked :
      (e : Expr) (v : Option Text) (p : Progress) → Marked Q p → Marked Q (assign_to e v p)
  unfolding assign_to
  assign_to-Marked (identifier name) none p m = m
  assign_to-Marked (identifier name) (some v) p m = assign_var-Marked name v p m
  assign_to-Marked (dot left key) v p m = assign_at-Marked left (some key) v p m
  assign_to-Marked (bracket left member) v p m =
      assign_at-Marked left (eval_string_expr p.constants member) v p m
  assign_to-Marked (string_literal t) v p m = m
  assign_to-Marked (number_literal n) v p m = m
  assign_to-Marked (template_literal parts exprs) v p m = m
  assign_to-Marked (plus left right) v p m = m
  assign_to-Marked (object_literal props) v p m = m
  assign_to-Marked (new_expression callee args) v p m = m
  assign_to-Marked (call_expression callee args) v p m = m
  assign_to-Marked other v p m = m

  assign_steps-Marked :
      (assigns : List Assign) (p : Progress) → Marked Q p → Marked Q (assign_steps assigns p)
  unfolding assign_steps assign_step
  assign_steps-Marked [] p m = m
  assign_steps-Marked (a ∷ assigns) p m =
      assign_steps-Marked assigns (assign_step a p)
        (assign_to-Marked a.target (eval_string_expr p.constants a.value) p m)

-- `x = "…"`.
abbrev pub set_to : Text → Text → Assign
set_to x s = record { target = identifier x; value = string_literal s }

-- The name holds the text.
abbrev Holds : Text → Text → List (Text × Text) → Type 0
Holds x s vars = lookup x vars ≡ some s

set_to-Marked : (x s : Text) (p : Progress) → Marked (Holds x s) (assign_step (set_to x s) p)
unfolding assign_step assign_to assign_var eval_string_expr is_text
set_to-Marked x s p = elim (Option-cases (lookup x p.constants.vars)) [
  | inl e ↦ inl (ground arith)
  | inr (old, e) ↦ ground (arith, ==_iff old s)
]

-- A name that holds another text is changed.
set_to-changed :
    (x s t : Text) (p : Progress)
    → (s == t) ≡ false
    → Marked (Holds x s) p
    → (assign_step (set_to x t) p).changed ≡ true
unfolding assign_step assign_to assign_var eval_string_expr is_text
set_to-changed x s t p ne m = ground arith

changed-stays :
    (assigns : List Assign) (p : Progress)
    → p.changed ≡ true
    → (assign_steps assigns p).changed ≡ true
changed-stays assigns p h = elim (assign_steps-Marked (λ vars. ⊥) assigns p (inl h)) [
  | inl changed ↦ changed
  | inr never ↦ absurd never
]

assign_steps-append :
    (first rest : List Assign) (p : Progress)
    → assign_steps (first ++ rest) p ≡ assign_steps rest (assign_steps first p)
unfolding assign_steps
assign_steps-append [] rest p = refl
assign_steps-append (a ∷ first) rest p = assign_steps-append first rest (assign_step a p)

-- With the assignment of one text to a name and, somewhere behind it, that of another, every round
-- changes something.
assign_steps-changed :
    (x s t : Text) (first between rest : List Assign) (p : Progress)
    → (s == t) ≡ false
    → (assign_steps (first ++ set_to x s ∷ (between ++ set_to x t ∷ rest)) p).changed ≡ true
assign_steps-changed x s t first between rest p ne =
    subst (λ q. q.changed ≡ true)
      (sym (assign_steps-append first (set_to x s ∷ (between ++ set_to x t ∷ rest)) p))
      (unfold assign_steps in
        (subst (λ q. q.changed ≡ true)
          (sym (
            assign_steps-append between (set_to x t ∷ rest)
              (assign_step (set_to x s) (assign_steps first p))))
          (changed-stays rest _ (
            set_to-changed x s t _ ne (
              assign_steps-Marked (Holds x s) between _
                (set_to-Marked x s (assign_steps first p)))))))

round-changed :
    (x s t : Text) (first between rest : List Assign) (n : ℕ) (script : Script) (c : Constants)
    → s ≢ t
    → script.assigns ≡ first ++ set_to x s ∷ (between ++ set_to x t ∷ rest)
    → (round n script c).changed ≡ true
unfolding round
round-changed x s t first between rest n script c ne e =
    let p = init_steps (script.var_inits n) (record { constants = c; changed = false }) in
    subst (λ assigns. (assign_steps assigns p).changed ≡ true) (sym e)
      (assign_steps-changed x s t first between rest p (ground (arith, ==_iff s t)))

-- A script that assigns one name two different texts, in whatever else it says, is never done with:
-- no number of rounds is enough.
pub rounds-endless :
    (x s t : Text) (first between rest : List Assign) (script : Script)
    → s ≢ t
    → script.assigns ≡ first ++ set_to x s ∷ (between ++ set_to x t ∷ rest)
    → (fuel : ℕ) (c : Constants) → rounds fuel script c ≡ none
unfolding rounds
rounds-endless x s t first between rest script ne e zero c = refl
rounds-endless x s t first between rest script ne e (suc fuel) c =
    rw (round-changed x s t first between rest fuel script c ne e, rounds)
      (rounds-endless x s t first between rest script ne e fuel _)
