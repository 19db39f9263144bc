-- ===== src/PageParser/Trees.antt =====
-- internal/pageparser: what is parsed, and `ScanText` of internal/parser/scantext.go. The parsers of
-- the three languages, the regular expression and `strings.EqualFold` are not part of the repository:
-- `Parsers` holds them. A tree that a parser returns is the data type `Node` or `Json`.
use project_arachne.Prelude.{List, [], ◌∷◌, ◌++◌, Bool, Option, Text, codes}
use project_arachne.PageParser.Script.{Script}

mutual
  pub data Node : Type 0 where
    text : Text → Node
    comment : Text → Node
    -- Its name, its attributes, its children, and what its text holds if it is a <noscript>.
    element : Text → List (Text × Text) → Nodes → Markup → Node
    -- A document or a doctype.
    other : Nodes → Node

  pub data Nodes : Type 0 where
    last : Nodes
    child : Node → Nodes → Nodes

  -- What `ParseFragment` makes of the text of a <noscript>.
  pub data Markup : Type 0 where
    no_markup : Markup
    markup : Nodes → Markup

mutual
  pub data Json : Type 0 where
    object : Members → Json
    array : Values → Json
    string : Text → Json
    scalar : Json

  pub data Members : Type 0 where
    no_member : Members
    member : Text → Json → Members → Members

  pub data Values : Type 0 where
    no_value : Values
    value : Json → Values → Values

-- What the other packages provide. `find_urls` is `FindAll` of `urlRegex`.
pub record Parsers : Type 0 where
  pub parse_js : Text → Option Script
  pub parse_html : Text → Option Node
  pub parse_json : Text → Option Json
  pub find_urls : Text → List Text
  pub equal_fold : Text → Text → Bool

-- `ScanText`.
unfoldable pub lines_of : List (Text × Text) → Text
lines_of [] = []
lines_of ((key, val) ∷ attrs) = val ++ (codes "\n" ++ lines_of attrs)

unfoldable mutual
  pub scan_text : Node → Text
  scan_text (text s) = s ++ codes "\n"
  scan_text (comment s) = s ++ codes "\n"
  scan_text (element name attrs children inner) =
      lines_of attrs ++ scan_inside inner (scan_texts children)
  scan_text (other children) = scan_texts children

  pub scan_texts : Nodes → Text
  scan_texts last = []
  scan_texts (child node nodes) = scan_text node ++ scan_texts nodes

  pub scan_inside : Markup → Text → Text
  scan_inside no_markup below = below
  scan_inside (markup nodes) below = scan_texts nodes
