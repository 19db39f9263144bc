-- ===== src/PageParser/Calls.antt =====
-- internal/pageparser/page_parser_basic_javascript.go: the links of a script, from its calls, its texts
-- and its expressions.
use project_arachne.Prelude.{
  ℕ, zero, suc, List, [], ◌∷◌, ◌++◌, Bool, false, ◌&&◌, ◌||◌, Option, none, some, if◌then◌else◌,
  ◌==◌, nat_eq, list_eq, is_seen, Text, codes,
}
use project_arachne.Strings.{has_prefix, has_suffix, is_empty}
use project_arachne.Urlnorm.{Url, NetUrl}
use project_arachne.PageParser.Urls.{add_link, looks_like_relative_path}
use project_arachne.PageParser.Script.{
  Expr, identifier, dot, object_literal, new_expression, call_expression, Exprs, nil, cons, Props,
  end, prop, Constants, no_constants, eval_string_expr, Call, Script, rounds, first_objects,
}

unfoldable pub argument_at : ℕ → Exprs → Option Expr
argument_at n nil = none
argument_at zero (cons e rest) = some e
argument_at (suc n) (cons e rest) = argument_at n rest

unfoldable pub ident_is : Expr → Text → Bool
ident_is (identifier n) name = n == name
ident_is _ name = false

unfoldable pub ident_is_new_xml_http_request : Expr → Bool
ident_is_new_xml_http_request (new_expression callee arguments) =
    ident_is callee (codes "XMLHttpRequest")
ident_is_new_xml_http_request (call_expression callee arguments) =
    ident_is callee (codes "XMLHttpRequest")
ident_is_new_xml_http_request _ = false

unfoldable pub name_of : Expr → Option Text
name_of (identifier name) = some name
name_of _ = none

unfoldable pub left_ident_name_of_dot : Expr → Option Text
left_ident_name_of_dot (dot left key) = name_of left
left_ident_name_of_dot _ = none

-- A call on a new XMLHttpRequest.
unfoldable pub opens_new_request : Expr → Bool
opens_new_request (dot left key) = ident_is_new_xml_http_request left
opens_new_request _ = false

unfoldable pub find_object_prop : Props → Text → Option Expr
find_object_prop end key = none
find_object_prop (prop name value props) key =
    let rest = find_object_prop props key in if name == key then some value else rest

unfoldable pub callee_name : Expr → Text
callee_name (identifier name) = name
callee_name (dot left method) =
    let left_name = callee_name left in
    if is_empty left_name then codes "." ++ method else left_name ++ (codes "." ++ method)
callee_name (new_expression callee arguments) = callee_name callee
callee_name _ = []

unfoldable pub add_expr_url : NetUrl → Option Url → Constants → Option Expr → List Text → List Text
add_expr_url net base c none seen = seen
add_expr_url net base c (some e) seen = elim (eval_string_expr c e) [
  | none ↦ seen
  | some s ↦ add_link net base s seen
]

unfoldable pub add_arg_url : NetUrl → Option Url → Constants → ℕ → Exprs → List Text → List Text
add_arg_url net base c n arguments = add_expr_url net base c (argument_at n arguments)

unfoldable pub props_of : Option Expr → Props
props_of (some (object_literal props)) = props
props_of _ = end

unfoldable pub add_from_object_prop_arg :
    NetUrl → Option Url → Constants → Text → Exprs → List Text → List Text
add_from_object_prop_arg net base c key arguments =
    add_expr_url net base c (find_object_prop (props_of (argument_at 0 arguments)) key)

-- Whether the call is an `open` of an XMLHttpRequest.
unfoldable pub opens_request : List Text → Expr → Bool
opens_request xhr_vars callee =
    opens_new_request callee
    || elim (left_ident_name_of_dot callee) [ none ↦ false | some name ↦ is_seen name xhr_vars ]

-- One call: the switch of `ExtractLinksFromJS`.
unfoldable pub add_call : NetUrl → Option Url → Constants → List Text → Call → List Text → List Text
add_call net base c xhr_vars call seen =
    let name = callee_name call.callee in
    let first = add_arg_url net base c 0 call.arguments seen in
    let second = add_arg_url net base c 1 call.arguments seen in
    let from_url = add_from_object_prop_arg net base c (codes "url") call.arguments seen in
    if name == codes "fetch"
    then first
    else if has_prefix (codes "axios") name
    then if name == codes "axios" then from_url else first
    else if name == codes "$.get" || name == codes "$.getJSON" || name == codes "$.post"
    then first
    else if name == codes "$.ajax" || name == codes "jQuery.ajax"
    then from_url
    else if has_suffix (codes ".open") name && opens_request xhr_vars call.callee
    then second
    else seen

unfoldable pub add_calls :
    NetUrl → Option Url → Constants → List Text → List Call → List Text → List Text
add_calls net base c xhr_vars [] seen = seen
add_calls net base c xhr_vars (call ∷ calls) seen =
    add_calls net base c xhr_vars calls (add_call net base c xhr_vars call seen)

unfoldable pub add_links : NetUrl → Option Url → List Text → List Text → List Text
add_links net base [] seen = seen
add_links net base (s ∷ texts) seen = add_links net base texts (add_link net base s seen)

-- `exprURLVisitor.visit`.
unfoldable pub visit : NetUrl → Option Url → Constants → Expr → List Text → List Text
visit net base c e seen = elim (eval_string_expr c e) [
  | none ↦ seen
  | some s ↦ if looks_like_relative_path s then add_link net base s seen else seen
]

unfoldable pub visit_all : NetUrl → Option Url → Constants → List Expr → List Text → List Text
visit_all net base c [] seen = seen
visit_all net base c (e ∷ rest) seen = visit_all net base c rest (visit net base c e seen)

-- The links of a script whose constants are known, with the matches of `urlRegex` in its source.
unfoldable pub links_of : NetUrl → Option Url → Script → Constants → List Text → List Text
links_of net base script c matches =
    visit_all net base c script.expressions
      (add_links net base matches (add_calls net base c script.xhr_vars script.calls []))

-- The links of a parsed script, if the fuel is enough for its constants.
unfoldable pub script_links : ℕ → NetUrl → Option Url → Script → List Text → Option (List Text)
script_links fuel net base script matches =
    elim (rounds fuel script (first_objects script.obj_literals no_constants)) [
      | none ↦ none
      | some c ↦ some (links_of net base script c matches)
    ]
