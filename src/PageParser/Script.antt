-- ===== src/PageParser/Script.antt =====
-- internal/pageparser/page_parser_basic_javascript.go: the constant texts of a script, and the links
-- made of them. The script comes parsed, as the parts of its syntax tree that the code reads; the
-- walk over the tree, by reflection, is not modelled: what it collects is the record `Script`.
use project_arachne.Prelude.{
  ℕ, zero, suc, List, [], ◌∷◌, ◌++◌, Bool, true, false, ◌||◌, Option, none, some, if◌then◌else◌,
  ◌==◌, nat_eq, list_eq, lookup, insert, Text,
}

mutual
  pub data Expr : Type 0 where
    string_literal : Text → Expr
    identifier : Text → Expr
    -- The number as it prints, where the parser gives a number.
    number_literal : Option Text → Expr
    template_literal : List Text → Exprs → Expr
    plus : Expr → Expr → Expr
    dot : Expr → Text → Expr
    bracket : Expr → Expr → Expr
    object_literal : Props → Expr
    new_expression : Expr → Exprs → Expr
    call_expression : Expr → Exprs → Expr
    other : Expr

  pub data Exprs : Type 0 where
    nil : Exprs
    cons : Expr → Exprs → Exprs

  -- The properties of an object literal that `objectProps` finds.
  pub data Props : Type 0 where
    end : Props
    prop : Text → Expr → Props → Props

-- `vars` and `objects`.
pub record Constants : Type 0 where
  pub vars : List (Text × Text)
  pub objects : List (Text × List (Text × Text))

abbrev pub no_constants : Constants
no_constants = record { vars = []; objects = [] }

unfoldable pub property : Constants → Text → Text → Option Text
property c name key = elim (lookup name c.objects) [ none ↦ none | some m ↦ lookup key m ]

unfoldable pub concat : Option Text → Option Text → Option Text
concat none right = none
concat (some left) none = none
concat (some left) (some right) = some (left ++ right)

unfoldable pub property_at : Constants → Expr → Option Text → Option Text
property_at c (identifier name) (some key) = property c name key
property_at c _ _ = none

unfoldable mutual
  pub eval_string_expr : Constants → Expr → Option Text
  eval_string_expr c (string_literal s) = some s
  eval_string_expr c (identifier name) = lookup name c.vars
  eval_string_expr c (number_literal printed) = printed
  eval_string_expr c (template_literal parts exprs) = eval_template c parts exprs
  eval_string_expr c (plus left right) = concat (eval_string_expr c left) (eval_string_expr c right)
  eval_string_expr c (dot left key) = property_at c left (some key)
  eval_string_expr c (bracket left member) = property_at c left (eval_string_expr c member)
  eval_string_expr c (object_literal props) = none
  eval_string_expr c (new_expression callee arguments) = none
  eval_string_expr c (call_expression callee arguments) = none
  eval_string_expr c other = none

  pub eval_template : Constants → List Text → Exprs → Option Text
  eval_template c [] exprs = some []
  eval_template c (part ∷ parts) nil = concat (some part) (eval_template c parts nil)
  eval_template c (part ∷ parts) (cons e exprs) =
      concat (some part) (concat (eval_string_expr c e) (eval_template c parts exprs))

unfoldable pub add_evaluated : Text → Option Text → List (Text × Text) → List (Text × Text)
add_evaluated key none res = res
add_evaluated key (some s) res = insert key s res

-- The loop of `collectObjectLiteralStrings`.
unfoldable pub collect_from : Constants → Props → List (Text × Text) → List (Text × Text)
collect_from c end res = res
collect_from c (prop key value props) res =
    collect_from c props (add_evaluated key (eval_string_expr c value) res)

unfoldable pub collect_object_literal_strings : Constants → Props → List (Text × Text)
collect_object_literal_strings c props = collect_from c props []

-- The constants with the flag `changed`.
pub record Progress : Type 0 where
  pub constants : Constants
  pub changed : Bool

unfoldable pub is_text : Option Text → Text → Bool
is_text none s = false
is_text (some old) s = old == s

-- `mergeChanged`: the object behind it, and whether it changed.
unfoldable pub merge_changed : List (Text × Text) → List (Text × Text) → List (Text × Text) × Bool
merge_changed dst [] = (dst, false)
merge_changed dst ((key, value) ∷ src) =
    if is_text (lookup key dst) value
    then merge_changed dst src
    else ((merge_changed (insert key value dst) src).0, true)

unfoldable pub object_of : Text → Constants → List (Text × Text)
object_of name c = elim (lookup name c.objects) [ none ↦ [] | some m ↦ m ]

unfoldable pub set_object : Text → List (Text × Text) → Constants → Constants
set_object name m c = record c { objects = insert name m c.objects }

unfoldable pub merge_object : Text → Props → Progress → Progress
merge_object name props p =
    let made = set_object name (object_of name p.constants) p.constants in
    let (m, changed) =
      merge_changed (object_of name made) (collect_object_literal_strings made props) in
    record { constants = set_object name m made; changed = p.changed || changed }

unfoldable pub merge_literal : Text → Expr → Progress → Progress
merge_literal name (object_literal props) p = merge_object name props p
merge_literal name _ p = p

unfoldable pub declare : Text → Expr → Option Text → Progress → Progress
declare name init none p = merge_literal name init p
declare name init (some s) p = record {
  constants = record p.constants { vars = insert name s p.constants.vars };
  changed = true;
}

-- One variable of the first loop of a round.
unfoldable pub init_step : Text × Expr → Progress → Progress
init_step (name, init) p = elim (lookup name p.constants.vars) [
  | some _ ↦ merge_literal name init p
  | none ↦ declare name init (eval_string_expr p.constants init) p
]

unfoldable pub assign_var : Text → Text → Progress → Progress
assign_var name s p = if is_text (lookup name p.constants.vars) s then p else record {
  constants = record p.constants { vars = insert name s p.constants.vars };
  changed = true;
}

unfoldable pub assign_property : Text → Text → Text → Progress → Progress
assign_property name key s p =
    let made = set_object name (object_of name p.constants) p.constants in
    if is_text (lookup key (object_of name made)) s then record p { constants = made } else record {
      constants = set_object name (insert key s (object_of name made)) made;
      changed = true;
    }

unfoldable pub assign_at : Expr → Option Text → Option Text → Progress → Progress
assign_at (identifier name) (some key) (some s) p = assign_property name key s p
assign_at _ _ _ p = p

unfoldable pub assign_to : Expr → Option Text → Progress → Progress
assign_to (identifier name) (some s) p = assign_var name s p
assign_to (dot left key) right p = assign_at left (some key) right p
assign_to (bracket left member) right p =
    assign_at left (eval_string_expr p.constants member) right p
assign_to _ _ p = p

pub record Assign : Type 0 where
  pub target : Expr
  pub value : Expr

-- One assignment of the second loop of a round.
unfoldable pub assign_step : Assign → Progress → Progress
assign_step a p = assign_to a.target (eval_string_expr p.constants a.value) p

unfoldable pub init_steps : List (Text × Expr) → Progress → Progress
init_steps [] p = p
init_steps (i ∷ inits) p = init_steps inits (init_step i p)

unfoldable pub assign_steps : List Assign → Progress → Progress
assign_steps [] p = p
assign_steps (a ∷ assigns) p = assign_steps assigns (assign_step a p)

pub record Call : Type 0 where
  pub callee : Expr
  pub arguments : Exprs

-- What the walk collects: the variables with their initial values, in the order in which Go happens to
-- run through its map in each round (the rounds are numbered down, as the fuel is), the object
-- literals among them in the order of the loop before, the assignments, the calls, the names that hold
-- an XMLHttpRequest, and all expressions.
pub record Script : Type 0 where
  pub var_inits : ℕ → List (Text × Expr)
  pub obj_literals : List (Text × Props)
  pub assigns : List Assign
  pub calls : List Call
  pub xhr_vars : List Text
  pub expressions : List Expr

unfoldable pub round : ℕ → Script → Constants → Progress
round n script c =
    assign_steps script.assigns
      (init_steps (script.var_inits n) (record { constants = c; changed = false }))

-- `for changed`: the rounds, of which the fuel allows so many, until one changes nothing.
unfoldable pub rounds : ℕ → Script → Constants → Option Constants
rounds zero script c = none
rounds (suc fuel) script c =
    let p = round fuel script c in
    let rest = rounds fuel script p.constants in if p.changed then rest else some p.constants

unfoldable pub first_objects : List (Text × Props) → Constants → Constants
first_objects [] c = c
first_objects ((name, props) ∷ rest) c =
    first_objects rest (set_object name (collect_object_literal_strings c props) c)
