-- ===== src/Browser/Selector.antt =====
-- worker/browser.go: selectors, and the elements that they name.
use remote_hands.Shared.{
  ℕ, suc, Bool, true, false, ◌||◌, List, [], ◌∷◌, Option, none, some, Text, Text_eq, codes, nat_eq,
  text_eq, lookup, index_byte, has_prefix, take, drop, if◌then◌else◌, ok, err, Error, connect_error,
  plain, not_found,
}
use remote_hands.Action.{pure, fail, ◌>>=◌}
use remote_hands.Rod.{Rod}
use remote_hands.Browser.{Method, browse}

-- The strategies that `parseSelector` returns.
pub data Strategy : Type 0 where
  css xpath text role ref : Strategy

-- knownSelectorPrefixes
unfoldable pub known_prefix : Text → Option Strategy
unfolding text_eq
known_prefix p =
    if text_eq p (codes "xpath")
    then some xpath
    else if text_eq p (codes "text")
    then some text
    else if text_eq p (codes "role")
    then some role
    else if text_eq p (codes "ref")
    then some ref
    else none

-- The first `=` ends the prefix, if it is not the first byte.
unfoldable pub parse_selector : Text → Strategy × Text
unfolding text_eq index_byte known_prefix
parse_selector selector = elim (index_byte b'=' selector) [
  | none ↦ (css, selector)
  | some idx ↦ elim (known_prefix (take idx selector)) [
    | none ↦ (css, selector)
    | some strategy ↦ (strategy, drop (suc idx) selector)
  ]
]

abbrev pub is_quote : ℕ → Bool
is_quote c = nat_eq c 34 || nat_eq c 39

-- The bytes up to a quote of either kind, for `[^"']*["']`.
unfoldable pub up_to_quote : Text → Option Text
up_to_quote [] = none
up_to_quote (c ∷ s) = elim (is_quote c) [
  | true ↦ some []
  | false ↦ elim (up_to_quote s) [ none ↦ none | some name ↦ some (c ∷ name) ]
]

-- What follows `name=`: a quote, a name that is not empty, and a quote.
unfoldable pub quoted_name : Text → Option Text
unfolding up_to_quote
quoted_name [] = none
quoted_name (c ∷ s) =
    if is_quote c
    then elim (up_to_quote s) [ none ↦ none | some [] ↦ none | some (b ∷ name) ↦ some (b ∷ name) ]
    else none

-- roleSpecNameRe at the start of a text.
unfoldable pub name_here : Text → Option Text
unfolding has_prefix quoted_name
name_here s = if has_prefix s (codes "name=") then quoted_name (drop 5 s) else none

-- roleSpecNameRe, with its leftmost match.
unfoldable pub find_name : Text → Option Text
unfolding name_here
find_name [] = none
find_name (c ∷ s) = elim (name_here (c ∷ s)) [ some name ↦ some name | none ↦ find_name s ]

-- parseRoleSpec
unfoldable pub parse_role_spec : Text → Text × Text
unfolding index_byte find_name
parse_role_spec spec = elim (index_byte 91 spec) [
  | none ↦ (spec, [])
  | some idx ↦ elim (find_name (drop idx spec)) [
    | none ↦ (take idx spec, [])
    | some name ↦ (take idx spec, name)
  ]
]

module _ (rod : Rod) where
  -- The node's element on the page.
  unfoldable pub resolve_node : rod.Page → ℕ → Error → Error → Method rod rod.Element
  resolve_node page node e e1 = do
    object ← browse rod (rod.resolve_node page node) e
    browse rod (rod.element_from_object page object) e1

  -- The node that a reference of the last snapshot stands for.
  unfoldable pub ref_node : Text → Method rod ℕ
  ref_node name s = elim (lookup name s.bm.ref_map) [
    | none ↦ (err (connect_error not_found "ref %q not found in current snapshot"), s)
    | some node ↦ (ok node, s)
  ]

  -- resolveRef
  unfoldable pub resolve_ref : rod.Page → Text → Method rod rod.Element
  resolve_ref page name = do
    node ← ref_node name
    resolve_node page node (connect_error not_found "ref %q no longer valid: %w")
        (plain "resolve ref element: %w")

  -- The first node of a query.
  unfoldable pub first_node : List ℕ → Method rod ℕ
  first_node [] = fail (connect_error not_found "no element with role %q found")
  first_node (node ∷ _) =
      if nat_eq node 0 then fail (plain "role element has no backend DOM node ID") else pure node

  -- findByRole
  unfoldable pub find_by_role : rod.Page → Text → Method rod rod.Element
  find_by_role page spec = do
    let (wanted, name) = parse_role_spec spec
    nodes ← browse rod (rod.query_ax_tree page wanted name) (plain "query accessibility tree: %w")
    node ← first_node nodes
    resolve_node page node (plain "resolve role element: %w") (plain "%w")

  -- The cases of findElement.
  unfoldable pub find_with : rod.Page → Strategy → Text → Method rod rod.Element
  find_with page css value =
      browse rod (rod.element page value) (connect_error not_found "element %q not found: %w")
  find_with page xpath value =
      browse rod (rod.element_x page value)
        (connect_error not_found "element xpath=%q not found: %w")
  find_with page text value =
      browse rod (rod.element_r page value)
        (connect_error not_found "element text=%q not found: %w")
  find_with page role value = find_by_role page value
  find_with page ref value = resolve_ref page value

  -- findElement
  unfoldable pub find_element : rod.Page → Text → Method rod rod.Element
  find_element page selector =
      let (strategy, value) = parse_selector selector in find_with page strategy value
