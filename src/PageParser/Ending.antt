-- ===== src/PageParser/Ending.antt =====
-- The loop of `ExtractLinksFromJS` over a script without assignments and object literals.
use project_arachne.Prelude.{
  ap, ℕ, zero, suc, ◌≤◌, ◌<◌, ◌≡◌, ◌≢◌, ◌⊎◌, inl, inr, refl, subst, sym, List, [], ◌∷◌, true, false,
  Option, none, some, ==_refl, nat_eq, list_eq, lookup, insert, lookup-insert, length, All, In,
  Bool-cases, Option-cases, Text, arith,
}
use project_arachne.PageParser.Script.{
  Expr, string_literal, identifier, number_literal, template_literal, plus, dot, bracket,
  object_literal, new_expression, call_expression, other, Constants, Progress, merge_literal,
  declare, init_step, assign_steps, init_steps, Script, round, rounds, eval_string_expr,
}

-- The expression is no object literal.
abbrev pub IsPlain : Text × Expr → Type 0
IsPlain (name, object_literal props) = ⊥
IsPlain (name, _) = Unit

-- How many of the variables have no value yet.
unfoldable missing : List (Text × Expr) → List (Text × Text) → ℕ
missing [] vars = 0
missing ((name, e) ∷ inits) vars = elim (lookup name vars) [
  | none ↦ suc (missing inits vars)
  | some s ↦ missing inits vars
]

merge_literal-plain :
    (name : Text) (e : Expr) (p : Progress) → IsPlain (name, e) → merge_literal name e p ≡ p
unfolding merge_literal
merge_literal-plain name (object_literal props) p h = absurd h
merge_literal-plain name (string_literal t) p h = refl
merge_literal-plain name (identifier n) p h = refl
merge_literal-plain name (number_literal n) p h = refl
merge_literal-plain name (template_literal parts exprs) p h = refl
merge_literal-plain name (plus left right) p h = refl
merge_literal-plain name (dot left key) p h = refl
merge_literal-plain name (bracket left member) p h = refl
merge_literal-plain name (new_expression callee args) p h = refl
merge_literal-plain name (call_expression callee args) p h = refl
merge_literal-plain name other p h = refl

-- A value for one more name leaves fewer missing, or as many.
missing-insert :
    (inits : List (Text × Expr)) (name s : Text) (vars : List (Text × Text))
    → missing inits (insert name s vars) ≤ missing inits vars
unfolding missing
missing-insert [] name s vars = omega arith
missing-insert ((n, e) ∷ inits) name s vars =
    ground (arith, lookup-insert name n s vars, missing-insert inits name s vars)

missing-insert_new :
    (inits : List (Text × Expr)) (name s : Text) (e : Expr) (vars : List (Text × Text))
    → In (name, e) inits
    → lookup name vars ≡ none
    → missing inits (insert name s vars) < missing inits vars
unfolding missing
missing-insert_new [] name s e vars h new = absurd h
missing-insert_new ((n, d) ∷ inits) name s e vars (inl same) new =
    let at = ap (λ i. i.0) same in
    ground (
      arith,
      at,
      lookup-insert name n s vars,
      ==_refl name,
      missing-insert inits name s vars,
      ap (λ t. lookup t vars) at,
    )
missing-insert_new ((n, d) ∷ inits) name s e vars (inr later) new =
    ground (arith, lookup-insert name n s vars, missing-insert_new inits name s e vars later new)

-- From the first state to the second no value gets lost, and the flag is set only for a new one.
unfoldable Advances : List (Text × Expr) → Progress → Progress → Type 0
Advances inits p q =
    (missing inits q.constants.vars ≤ missing inits p.constants.vars)
    × (q.changed ≡ true
        → (p.changed ≡ true) ⊎ (missing inits q.constants.vars < missing inits p.constants.vars))

Advances-refl : (inits : List (Text × Expr)) (p : Progress) → Advances inits p p
unfolding Advances
Advances-refl inits p = (omega arith, λ h. inl h)

Advances-trans :
    (inits : List (Text × Expr)) (p q r : Progress)
    → Advances inits p q
    → Advances inits q r
    → Advances inits p r
unfolding Advances
Advances-trans inits p q r (le, why) (le', why') = (
  omega arith,
  λ h. elim (why' h) [
    | inl before ↦ elim (why before) [ inl b ↦ inl b | inr l ↦ inr (omega arith) ]
    | inr l ↦ inr (omega arith)
  ],
)

declare-Advances :
    (inits : List (Text × Expr)) (name : Text) (e : Expr) (r : Option Text) (p : Progress)
    → In (name, e) inits
    → IsPlain (name, e)
    → lookup name p.constants.vars ≡ none
    → Advances inits p (declare name e r p)
unfolding declare
declare-Advances inits name e none p h plain new =
    subst (Advances inits p) (sym (merge_literal-plain name e p plain)) (Advances-refl inits p)
declare-Advances inits name e (some s) p h plain new =
    unfold Advances in
    let fewer = missing-insert_new inits name s e p.constants.vars h new in
    (omega arith, λ h. inr fewer)

init_step-Advances :
    (inits : List (Text × Expr)) (i : Text × Expr) (p : Progress)
    → In i inits
    → IsPlain i
    → Advances inits p (init_step i p)
unfolding init_step
init_step-Advances inits (name, e) p h plain = elim (Option-cases (lookup name p.constants.vars)) [
  | inl new ↦
      rw (new, init_step)
        (declare-Advances inits name e (eval_string_expr p.constants e) p h plain new)
  | inr (s, known) ↦
      rw (known, init_step)
        (subst (Advances inits p) (sym (merge_literal-plain name e p plain))
          (Advances-refl inits p))
]

init_steps-Advances :
    (inits rest : List (Text × Expr)) (p : Progress)
    → All (λ i. In i inits) rest
    → All IsPlain rest
    → Advances inits p (init_steps rest p)
unfolding init_steps
init_steps-Advances inits [] p h plain = Advances-refl inits p
init_steps-Advances inits (i ∷ rest) p (h, later) (plain, others) =
    Advances-trans inits p (init_step i p) (init_steps rest (init_step i p))
      (init_step-Advances inits i p h plain)
      (init_steps-Advances inits rest (init_step i p) later others)

missing-bounded :
    (inits : List (Text × Expr)) (vars : List (Text × Text)) → missing inits vars ≤ length inits
unfolding missing
missing-bounded [] vars = omega arith
missing-bounded ((name, e) ∷ inits) vars = ground (arith, missing-bounded inits vars)

-- A script for which so many rounds are enough: it has no assignments, and fewer initial values than
-- that, in whatever order, of which none is an object literal.
pub record IsShort (n : ℕ) (script : Script) : Type 0 where
  pub unassigned : script.assigns ≡ []
  pub inits : List (Text × Expr)
  pub within : (r : ℕ) → All (λ i. In i inits) (script.var_inits r)
  pub plain : (r : ℕ) → All IsPlain (script.var_inits r)
  pub few : length inits < n

module _ (n : ℕ) (script : Script) (short : IsShort n script) where
  round-Advances :
      (r : ℕ) (c : Constants)
      → Advances short.inits (record { constants = c; changed = false }) (round r script c)
  unfolding round assign_steps
  round-Advances r c =
      subst
        (λ assigns.
          Advances short.inits (record { constants = c; changed = false })
            (assign_steps assigns
              (init_steps (script.var_inits r) (record { constants = c; changed = false }))))
        (sym short.unassigned)
        (init_steps-Advances short.inits (script.var_inits r) _ (short.within r) (short.plain r))

  round-fewer :
      (r : ℕ) (c : Constants)
      → (round r script c).changed ≡ true
      → missing short.inits (round r script c).constants.vars < missing short.inits c.vars
  unfolding Advances
  round-fewer r c changed = elim ((round-Advances r c).1 changed) [
    | inl before ↦ absurd (ground arith)
    | inr fewer ↦ fewer
  ]

  rounds-enough :
      (fuel : ℕ) (c : Constants) → missing short.inits c.vars < fuel → rounds fuel script c ≢ none
  unfolding rounds
  rounds-enough zero c h = absurd (omega arith)
  rounds-enough (suc fuel) c h = elim (Bool-cases (round fuel script c).changed) [
    | inl e ↦ ground (arith, round-fewer fuel c, rounds-enough fuel (round fuel script c).constants)
    | inr e ↦ ground arith
  ]

  -- The loop over the constants of a short script ends, whatever is known at the start.
  pub rounds-short : (c : Constants) → rounds n script c ≢ none
  rounds-short c =
      let few = short.few in rounds-enough n c (ground (arith, missing-bounded short.inits c.vars))
