-- ===== src/PageParser/Kept.antt =====
-- What every step of the page parsers keeps: a property of the set of links that survives each
-- canonical URL.
use project_arachne.Prelude.{
  some-injective, ℕ, inl, inr, subst, ◌==◌, ◌&&◌, ◌||◌, ◌≡◌, List, [], ◌∷◌, Bool, true, false,
  Option, none, some, if◌then◌else◌, arith, Bool-cases, Option-cases, Text, codes, list_eq, nat_eq,
}
use project_arachne.Strings.{has_prefix, has_suffix, is_empty}
use project_arachne.Urlnorm.{Url, NetUrl, canonical}
use project_arachne.PageParser.Urls.{
  is_url_candidate, normalize_url, put_seen, resolve_and_add, add_normalized, add_link,
  looks_like_relative_path,
}
use project_arachne.PageParser.Script.{
  Expr, Constants, eval_string_expr, Call, Script, rounds, first_objects, no_constants,
}
use project_arachne.PageParser.Calls.{
  argument_at, find_object_prop, props_of, callee_name, opens_request, add_expr_url, add_arg_url,
  add_from_object_prop_arg, add_call, add_calls, add_links, visit, visit_all, links_of,
  script_links,
}

-- The text is the canonical form of something.
abbrev pub IsFound : NetUrl → Text → Type 0
IsFound net url = (raw : Text) × (base : Option Url) × (canonical net raw base ≡ some url)

module _ (net : NetUrl) (Q : List Text → Type 0)
    (kept : (url : Text) (seen : List Text)
      → IsFound net url
      → Q seen
      → Q (put_seen url seen)) where
  pub resolve_and_add-kept :
      (base : Option Url) (raw : Text) (seen : List Text)
      → Q seen
      → Q (resolve_and_add net base raw seen)
  unfolding resolve_and_add
  resolve_and_add-kept base raw seen q = elim (Option-cases (canonical net raw base)) [
    | inl e ↦ rw (e, resolve_and_add) q
    | inr (url, e) ↦ rw (e, resolve_and_add) (kept url seen (raw, base, e) q)
  ]

  pub add_normalized-kept :
      (base : Option Url) (raw : Text) (seen : List Text)
      → Q seen
      → Q (add_normalized net base raw seen)
  unfolding add_normalized
  add_normalized-kept base raw seen q = elim (Bool-cases (is_empty (normalize_url net.lower raw))) [
    | inl e ↦ rw (e, add_normalized) q
    | inr e ↦ rw (e, add_normalized) (resolve_and_add-kept base _ seen q)
  ]

  pub add_link-kept :
      (base : Option Url) (s : Text) (seen : List Text) → Q seen → Q (add_link net base s seen)
  unfolding add_link
  add_link-kept base s seen q = elim (Bool-cases (is_url_candidate s)) [
    | inl e ↦ rw (e, add_link) (add_normalized-kept base s seen q)
    | inr e ↦ rw (e, add_link) q
  ]

  add_expr_url-kept :
      (base : Option Url) (c : Constants) (e : Option Expr) (seen : List Text)
      → Q seen
      → Q (add_expr_url net base c e seen)
  unfolding add_expr_url
  add_expr_url-kept base c none seen q = q
  add_expr_url-kept base c (some e) seen q = elim (Option-cases (eval_string_expr c e)) [
    | inl unknown ↦ rw (unknown, add_expr_url) q
    | inr (s, known) ↦ rw (known, add_expr_url) (add_link-kept base s seen q)
  ]

  if-kept : (b : Bool) (xs ys : List Text) → Q xs → Q ys → Q (if b then xs else ys)
  if-kept true xs ys x y = x
  if-kept false xs ys x y = y

  add_call-kept :
      (base : Option Url) (c : Constants) (xhr_vars : List Text) (call : Call) (seen : List Text)
      → Q seen
      → Q (add_call net base c xhr_vars call seen)
  unfolding add_call add_arg_url add_from_object_prop_arg
  add_call-kept base c xhr_vars call seen q =
      let first = add_expr_url-kept base c (argument_at 0 call.arguments) seen q in
      let second = add_expr_url-kept base c (argument_at 1 call.arguments) seen q in
      let from_url =
        add_expr_url-kept base c
          (find_object_prop (props_of (argument_at 0 call.arguments)) (codes "url")) seen q in
      let name = callee_name call.callee in
      if-kept (name == codes "fetch") _ _ first (
        if-kept (has_prefix (codes "axios") name) _ _
          (if-kept (name == codes "axios") _ _ from_url first)
          (if-kept (name == codes "$.get" || name == codes "$.getJSON" || name == codes "$.post") _
            _ first
            (if-kept (name == codes "$.ajax" || name == codes "jQuery.ajax") _ _ from_url (
              if-kept (has_suffix (codes ".open") name && opens_request xhr_vars call.callee) _ _
                second q))))

  add_calls-kept :
      (base : Option Url) (c : Constants) (xhr_vars : List Text) (calls : List Call)
      (seen : List Text)
      → Q seen
      → Q (add_calls net base c xhr_vars calls seen)
  unfolding add_calls
  add_calls-kept base c xhr_vars [] seen q = q
  add_calls-kept base c xhr_vars (call ∷ calls) seen q =
      add_calls-kept base c xhr_vars calls (add_call net base c xhr_vars call seen)
        (add_call-kept base c xhr_vars call seen q)

  pub add_links-kept :
      (base : Option Url) (texts seen : List Text) → Q seen → Q (add_links net base texts seen)
  unfolding add_links
  add_links-kept base [] seen q = q
  add_links-kept base (s ∷ texts) seen q =
      add_links-kept base texts (add_link net base s seen) (add_link-kept base s seen q)

  visit-kept :
      (base : Option Url) (c : Constants) (e : Expr) (seen : List Text)
      → Q seen
      → Q (visit net base c e seen)
  unfolding visit
  visit-kept base c e seen q = elim (Option-cases (eval_string_expr c e)) [
    | inl unknown ↦ rw (unknown, visit) q
    | inr (s, known) ↦
        rw (known, visit) (if-kept (looks_like_relative_path s) _ _ (add_link-kept base s seen q) q)
  ]

  pub visit_all-kept :
      (base : Option Url) (c : Constants) (es : List Expr) (seen : List Text)
      → Q seen
      → Q (visit_all net base c es seen)
  unfolding visit_all
  visit_all-kept base c [] seen q = q
  visit_all-kept base c (e ∷ es) seen q =
      visit_all-kept base c es (visit net base c e seen) (visit-kept base c e seen q)

  pub links_of-kept :
      (base : Option Url) (script : Script) (c : Constants) (matches : List Text)
      → Q []
      → Q (links_of net base script c matches)
  unfolding links_of
  links_of-kept base script c matches q =
      visit_all-kept base c script.expressions _
        (add_links-kept base matches _ (add_calls-kept base c script.xhr_vars script.calls [] q))

  pub script_links-kept :
      (fuel : ℕ) (base : Option Url) (script : Script) (matches links : List Text)
      → Q []
      → script_links fuel net base script matches ≡ some links
      → Q links
  unfolding script_links
  script_links-kept fuel base script matches links q =
      elim (Option-cases (rounds fuel script (first_objects script.obj_literals no_constants))) [
        | inl e ↦ rw (e, script_links) (λ h. absurd (ground arith))
        | inr (c, e) ↦
            rw (e, script_links)
              (λ h. subst Q (some-injective h) (links_of-kept base script c matches q))
      ]
