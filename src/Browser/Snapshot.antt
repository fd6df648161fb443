-- ===== src/Browser/Snapshot.antt =====
-- worker/browser.go: snapshots of a page, with the references to its nodes.
use remote_hands.Shared.{
  ℕ, ◌+◌, ◌%◌, ◌^◌, Bool, true, false, ◌||◌, not, List, [], ◌∷◌, ◌++◌, Option, none, some, Text,
  Text_eq, nat_eq, Map, lookup, insert, is_empty, if◌then◌else◌, decimal, plain, any,
}
use remote_hands.Action.{pure, gets, ◌>>=◌, ◌>>◌}
use remote_hands.Rod.{Rod, AxNode, Box}
use remote_hands.Browser.{
  BrowserManager, Method, browse, observe, change, wrapped, when_running, current_page,
}

-- `nodeEntry`: the node, and what is added to it in the answer. A child is named by its ID, since
-- the source holds pointers.
pub record NodeEntry : Type 0 where
  pub ax_node : AxNode
  pub ref : Text
  pub children : List Text
  pub bounds : Option Box

-- The nodes by their IDs, and the root. With no root the answer is a single node "none".
pub record AxTree : Type 0 where
  pub nodes : Map Text NodeEntry
  pub root : Option Text

-- `fmt.Sprintf("e%d", id)`
unfoldable pub ref_of : ℕ → Text
ref_of id = b'e' ∷ decimal id

unfoldable pub new_entry : AxNode → NodeEntry
unfolding ref_of
new_entry n = record {
  ax_node = n;
  ref = if nat_eq n.backend_id 0 then [] else ref_of n.backend_id;
  children = [];
  bounds = none;
}

-- The references, and the nodes, behind the first pass.
pub record Converted : Type 0 where
  pub refs : Map Text ℕ
  pub entries : Map Text NodeEntry

-- A node in the DOM gets a reference.
unfoldable pub add_ref : ℕ → Map Text ℕ → Map Text ℕ
unfolding ref_of insert
add_ref id refs = if nat_eq id 0 then refs else insert (ref_of id) id refs

-- A round of the first pass of buildAccessibilityTree.
unfoldable pub convert_node : AxNode → Converted → Converted
unfolding add_ref new_entry insert
convert_node n c = if n.ignored then c else record {
  refs = add_ref n.backend_id c.refs;
  entries = insert n.node_id (new_entry n) c.entries;
}

unfoldable pub convert_nodes : List AxNode → Converted → Converted
unfolding convert_node
convert_nodes [] c = c
convert_nodes (n ∷ ns) c = convert_nodes ns (convert_node n c)

-- A child is added to its parent, if the parent is there.
unfoldable pub adopt : Text → Text → Map Text NodeEntry → Map Text NodeEntry
unfolding lookup insert
adopt parent id nodes = elim (lookup parent nodes) [
  | none ↦ nodes
  | some e ↦ insert parent (record e { children = e.children ++ id ∷ [] }) nodes
]

-- A round of the second pass.
unfoldable pub wire_node : Text → NodeEntry → AxTree → AxTree
unfolding adopt
wire_node id e t =
    if is_empty e.ax_node.parent_id
    then record t { root = some id }
    else record t { nodes = adopt e.ax_node.parent_id id t.nodes }

unfoldable pub wire_nodes : Map Text NodeEntry → AxTree → AxTree
unfolding wire_node
wire_nodes [] t = t
wire_nodes ((id, e) ∷ entries) t = wire_nodes entries (wire_node id e t)

-- The two passes over the nodes.
unfoldable pub converted : List AxNode → Converted
unfolding convert_nodes
converted nodes = convert_nodes nodes (record { refs = []; entries = [] })

unfoldable pub tree_of : List AxNode → AxTree
unfolding converted wire_nodes
tree_of nodes =
    let c : Converted = converted nodes in
    wire_nodes c.entries (record { nodes = c.entries; root = none })

-- The bounds that a call for them gives.
abbrev pub set_bounds : Option (Option Box) → NodeEntry → NodeEntry
set_bounds none e = e
set_bounds (some none) e = e
set_bounds (some (some box)) e = record e { bounds = some box }

pub data SnapshotType : Type 0 where
  unspecified_type dom accessibility : SnapshotType

abbrev pub is_dom : SnapshotType → Bool
is_dom dom = true
is_dom _ = false

abbrev pub is_accessibility : SnapshotType → Bool
is_accessibility accessibility = true
is_accessibility _ = false

-- SnapshotResult
pub record SnapshotResult : Type 0 where
  pub dom_html : Option Text
  pub accessibility_tree : Option AxTree
  pub snapshot_id : Option Text

abbrev pub snapshot_result : Option Text → Option (AxTree × Text) → SnapshotResult
snapshot_result html none = record {
  dom_html = html;
  accessibility_tree = none;
  snapshot_id = none;
}
snapshot_result html (some (tree, id)) = record {
  dom_html = html;
  accessibility_tree = some tree;
  snapshot_id = some id;
}

module _ (rod : Rod) where
  -- A round of the third pass. A node with no bounds is passed over.
  unfoldable pub measure_node : rod.Page → NodeEntry → rod.World → NodeEntry × rod.World
  measure_node page e w =
      if nat_eq e.ax_node.backend_id 0
      then (e, w)
      else (let (o, w1) = rod.box_model page e.ax_node.backend_id w in (set_bounds o e, w1))

  unfoldable pub measure_nodes :
      rod.Page → Map Text NodeEntry → rod.World → Map Text NodeEntry × rod.World
  measure_nodes page [] w = ([], w)
  measure_nodes page ((id, e) ∷ entries) w =
      let (e1, w1) = measure_node page e w in
      let (rest, w2) = measure_nodes page entries w1 in ((id, e1) ∷ rest, w2)

  -- The third pass runs if bounds are asked for.
  unfoldable pub with_bounds : Bool → rod.Page → AxTree → Method rod AxTree
  with_bounds false page t = pure t
  with_bounds true page t = do
    nodes ← observe rod (measure_nodes page t.nodes)
    pure (record t { nodes = nodes })

  -- The references of earlier snapshots are replaced.
  unfoldable pub refer : List AxNode → BrowserManager rod.Page → BrowserManager rod.Page
  refer nodes bm = record bm { ref_map = (converted nodes).refs }

  -- buildAccessibilityTree
  unfoldable pub build_accessibility_tree : rod.Page → Bool → Method rod AxTree
  build_accessibility_tree page include_bounds = do
    nodes ← browse rod (rod.full_ax_tree page) (plain "get accessibility tree: %w")
    change rod (refer nodes)
    with_bounds include_bounds page (tree_of nodes)

  -- `bm.snapshotID++`, on 64 bits.
  unfoldable pub count_snapshot : BrowserManager rod.Page → BrowserManager rod.Page
  count_snapshot bm = record bm { snapshot_id = (bm.snapshot_id + 1) % 2 ^ 64 }

  unfoldable pub dom_part : Bool → rod.Page → Method rod (Option Text)
  dom_part false page = pure none
  dom_part true page = do
    html ← browse rod (rod.html page) (plain "get page HTML: %w")
    pure (some html)

  unfoldable pub tree_part : Bool → rod.Page → Bool → Method rod (Option (AxTree × Text))
  tree_part false page include_bounds = pure none
  tree_part true page include_bounds = do
    tree ←
        wrapped rod (build_accessibility_tree page include_bounds)
          (plain "build accessibility tree: %w")
    change rod count_snapshot
    id ← gets (λ s. s.bm.snapshot_id)
    pure (some (tree, decimal id))

  -- Snapshot. With no type that it knows, both parts are wanted.
  unfoldable pub snapshot : Option Text → List SnapshotType → Bool → Method rod SnapshotResult
  snapshot page_id types include_bounds = when_running rod (do
    page ← current_page rod page_id
    let want_dom = any is_dom types || not (any is_accessibility types)
    let want_a11y = any is_accessibility types || not (any is_dom types)
    html ← dom_part want_dom page
    tree ← tree_part want_a11y page include_bounds
    pure (snapshot_result html tree))
