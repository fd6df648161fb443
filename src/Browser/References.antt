-- ===== src/Browser/References.antt =====
-- worker/browser.go: the references that a snapshot hands out.
use remote_hands.Shared.{
  ℕ, ◌≡◌, ◌≢◌, refl, sym, ap, ◌∙◌, ◌⊎◌, inl, inr, Bool, true, false, List, [], ◌∷◌, Option, none,
  some, Text, Text_eq, text_eq, text_eq_iff, nat_eq, nat_eq_iff, Map, lookup, insert, lookup-insert,
  decimal-injective, is_empty, ok, Bool-cases, Option-cases, arith, if_either,
}
use remote_hands.Action.{◌>>=◌, bind-eq-ok}
use remote_hands.Rod.{Rod, AxNode, Box}
use remote_hands.Browser.{Session, observe}
use remote_hands.Browser.Selector.{ref_node}
use remote_hands.Browser.Snapshot.{
  NodeEntry, AxTree, Converted, ref_of, new_entry, add_ref, convert_node, convert_nodes, converted,
  adopt, wire_node, wire_nodes, set_bounds, measure_node, measure_nodes, with_bounds, refer,
  tree_of, build_accessibility_tree,
}

-- An entry whose node is in the DOM has a reference, which stands for that node.
abbrev pub Referred : Map Text ℕ → NodeEntry → Type 0
Referred refs e =
    e.ax_node.backend_id ≢ 0
    → (e.ref ≡ ref_of e.ax_node.backend_id)
      × (lookup (ref_of e.ax_node.backend_id) refs ≡ some e.ax_node.backend_id)

abbrev pub AllReferred : Map Text ℕ → Map Text NodeEntry → Type 0
AllReferred refs nodes = (id : Text) (e : NodeEntry) → lookup id nodes ≡ some e → Referred refs e

ref_of-injective : (m n : ℕ) → ref_of m ≡ ref_of n → m ≡ n
unfolding ref_of
ref_of-injective m n e = decimal-injective m n (cc)

-- A further reference leaves the others.
lookup-ref_of :
    (m n : ℕ) (refs : Map Text ℕ)
    → lookup (ref_of m) refs ≡ some m
    → lookup (ref_of m) (insert (ref_of n) n refs) ≡ some m
lookup-ref_of m n refs h = ground (
  arith,
  lookup-insert (ref_of n) (ref_of m) n refs,
  text_eq_iff (ref_of n) (ref_of m),
  ref_of-injective n m,
)

add_ref-Referred :
    (n : ℕ) (refs : Map Text ℕ) (e : NodeEntry) → Referred refs e → Referred (add_ref n refs) e
unfolding add_ref
add_ref-Referred n refs e h k = (
  (h k).0,
  if_either (λ m. lookup (ref_of e.ax_node.backend_id) m ≡ some e.ax_node.backend_id) (nat_eq n 0)
      refs _ (h k).1 (lookup-ref_of e.ax_node.backend_id n refs (h k).1),
)

new_entry-Referred :
    (n : AxNode) (refs : Map Text ℕ) → Referred (add_ref n.backend_id refs) (new_entry n)
unfolding new_entry add_ref
new_entry-Referred n refs k = (
  ground (arith, nat_eq_iff n.backend_id 0),
  ground (
    arith,
    nat_eq_iff n.backend_id 0,
    lookup-insert (ref_of n.backend_id) (ref_of n.backend_id) n.backend_id refs,
    text_eq_iff (ref_of n.backend_id) (ref_of n.backend_id),
  ),
)

-- What is found in a map with one more entry.
lookup-insert-eq-some :
    (key id : Text) (e f : NodeEntry) (nodes : Map Text NodeEntry)
    → lookup id (insert key e nodes) ≡ some f
    → (e ≡ f) ⊎ (lookup id nodes ≡ some f)
lookup-insert-eq-some key id e f nodes l = elim (Bool-cases (text_eq key id)) [
  | inl k ↦ inl (ground (arith, lookup-insert key id e nodes, k))
  | inr k ↦ inr (ground (arith, lookup-insert key id e nodes, k))
]

-- What holds of every entry and of a further one.
lookup-insert_all {ℓ} :
    (P : NodeEntry → Type ℓ) (key : Text) (e : NodeEntry) (nodes : Map Text NodeEntry)
    → P e
    → ((id : Text) (f : NodeEntry) → lookup id nodes ≡ some f → P f)
    → (id : Text) (f : NodeEntry) → lookup id (insert key e nodes) ≡ some f
    → P f
lookup-insert_all P key e nodes he h id f l = elim (lookup-insert-eq-some key id e f nodes l) [
  | inl same ↦ rw (← same) he
  | inr old ↦ h id f old
]

convert_node-AllReferred :
    (n : AxNode) (c : Converted)
    → AllReferred c.refs c.entries
    → AllReferred (convert_node n c).refs (convert_node n c).entries
unfolding convert_node
convert_node-AllReferred n c h =
    if_either (λ d. AllReferred (Converted.refs d) (Converted.entries d)) n.ignored c _ h
      (lookup-insert_all (Referred (add_ref n.backend_id c.refs)) n.node_id (new_entry n) c.entries
        (new_entry-Referred n c.refs) (λ id e l. add_ref-Referred n.backend_id c.refs e (h id e l)))

convert_nodes-AllReferred :
    (ns : List AxNode) (c : Converted)
    → AllReferred c.refs c.entries
    → AllReferred (convert_nodes ns c).refs (convert_nodes ns c).entries
unfolding convert_nodes
convert_nodes-AllReferred [] c h = h
convert_nodes-AllReferred (n ∷ ns) c h =
    convert_nodes-AllReferred ns (convert_node n c) (convert_node-AllReferred n c h)

-- Wiring adds children only.
adopt-AllReferred :
    (refs : Map Text ℕ) (parent id : Text) (nodes : Map Text NodeEntry)
    → AllReferred refs nodes
    → AllReferred refs (adopt parent id nodes)
unfolding adopt
adopt-AllReferred refs parent id nodes h = elim (Option-cases (lookup parent nodes)) [
  | inl o ↦ rw (o, adopt) h
  | inr (e, o) ↦ rw (o, adopt) (lookup-insert_all (Referred refs) parent _ nodes (h parent e o) h)
]

wire_nodes-AllReferred :
    (refs : Map Text ℕ) (entries : Map Text NodeEntry) (t : AxTree)
    → AllReferred refs t.nodes
    → AllReferred refs (wire_nodes entries t).nodes
unfolding wire_nodes wire_node
wire_nodes-AllReferred refs [] t h = h
wire_nodes-AllReferred refs ((id, e) ∷ entries) t h =
    wire_nodes-AllReferred refs entries (wire_node id e t) (
      if_either (λ u. AllReferred refs (AxTree.nodes u)) (is_empty e.ax_node.parent_id) _ _ h
        (adopt-AllReferred refs e.ax_node.parent_id id t.nodes h))

tree_of-AllReferred : (ns : List AxNode) → AllReferred (converted ns).refs (tree_of ns).nodes
unfolding tree_of converted lookup
tree_of-AllReferred ns =
    wire_nodes-AllReferred (converted ns).refs (converted ns).entries _
      (convert_nodes-AllReferred ns _ (λ id e l. cc))

-- Entries that differ at most in their children and bounds.
abbrev Alike : NodeEntry → NodeEntry → Type 0
Alike e f = (e.ax_node ≡ f.ax_node) × (e.ref ≡ f.ref)

set_bounds-Alike : (o : Option (Option Box)) (e : NodeEntry) → Alike (set_bounds o e) e
set_bounds-Alike none e = (refl, refl)
set_bounds-Alike (some none) e = (refl, refl)
set_bounds-Alike (some (some box)) e = (refl, refl)

Alike-Referred :
    (refs : Map Text ℕ) (e f : NodeEntry) → Alike e f → Referred refs f → Referred refs e
Alike-Referred refs e f (a, r) h k = rw (a, r) (h (rw (← a) k))

module _ (rod : Rod) where
  measure_node-Alike :
      (page : rod.Page) (e : NodeEntry) (w : rod.World) → Alike (measure_node rod page e w).0 e
  unfolding measure_node
  measure_node-Alike page e w =
      if_either (λ (p : NodeEntry × rod.World). Alike p.0 e) (nat_eq e.ax_node.backend_id 0) (e, w)
        _ (refl, refl) (set_bounds-Alike (rod.box_model page e.ax_node.backend_id w).0 e)

  -- Each entry behind the third pass is one from before it, with bounds.
  measure_nodes-Alike :
      (page : rod.Page) (nodes : Map Text NodeEntry) (w : rod.World) (id : Text) (e : NodeEntry)
      → lookup id (measure_nodes rod page nodes w).0 ≡ some e
      → (f : NodeEntry) × (lookup id nodes ≡ some f) × Alike e f
  unfolding measure_nodes lookup
  measure_nodes-Alike page [] w id e l = cc
  measure_nodes-Alike page ((at, f) ∷ nodes) w id e l = elim (Bool-cases (text_eq id at)) [
    | inl k ↦
        let same : (measure_node rod page f w).0 ≡ e = ground (arith, l, k) in
        (f, rw k refl, rw (← same) (measure_node-Alike page f w))
    | inr k ↦
        let (g, found, alike) =
          measure_nodes-Alike page nodes (measure_node rod page f w).1 id e
            (ground (arith, l, k)) in
        (g, rw k found, alike)
  ]

  with_bounds-AllReferred :
      (refs : Map Text ℕ) (b : Bool) (page : rod.Page) (t t1 : AxTree) (s s1 : Session rod)
      → AllReferred refs t.nodes
      → with_bounds rod b page t s ≡ (ok t1, s1)
      → AllReferred refs t1.nodes × (s1.bm ≡ s.bm)
  unfolding with_bounds ◌>>=◌ observe
  with_bounds-AllReferred refs false page t t1 s s1 h e =
      let same : t ≡ t1 = cc in (rw (← same) h, ap (λ p. p.1.bm) (sym e))
  with_bounds-AllReferred refs true page t t1 s s1 h e =
      let measured : Map Text NodeEntry = (measure_nodes rod page t.nodes s.world).0 in
      let same : record t { nodes = measured } ≡ t1 = cc in
      (
        rw (← same) (λ id x l.
            let (f, found, alike) = measure_nodes-Alike page t.nodes s.world id x l in
            Alike-Referred refs x f alike (h id f found)),
        ap (λ p. p.1.bm) (sym e),
      )

  ref_node-eq :
      (name : Text) (node : ℕ) (s : Session rod)
      → lookup name s.bm.ref_map ≡ some node
      → ref_node rod name s ≡ (ok node, s)
  unfolding ref_node
  ref_node-eq name node s l = rw (l, ref_node) refl

  -- Each reference that a snapshot puts on a node of the DOM is found again by `resolveRef`, and stands
  -- for that node.
  pub build_accessibility_tree-ref_node :
      (page : rod.Page) (b : Bool) (s s1 : Session rod) (t : AxTree) (id : Text) (e : NodeEntry)
      → build_accessibility_tree rod page b s ≡ (ok t, s1)
      → lookup id t.nodes ≡ some e
      → e.ax_node.backend_id ≢ 0
      → ref_node rod e.ref s1 ≡ (ok e.ax_node.backend_id, s1)
  unfolding build_accessibility_tree refer
  build_accessibility_tree-ref_node page b s s1 t id e done l k =
      let (nodes, s2, got, more) = bind-eq-ok _ _ s done in
      let (u, s3, referred, bounds) = bind-eq-ok _ _ s2 more in
      let (all, same) =
        with_bounds-AllReferred (converted nodes).refs b page (tree_of nodes) t s3 s1
          (tree_of-AllReferred nodes) bounds in
      let refs : s1.bm.ref_map ≡ (converted nodes).refs =
        ap (λ m. m.ref_map) same ∙ ap (λ p. p.1.bm.ref_map) (sym referred) in
      ref_node-eq e.ref e.ax_node.backend_id s1 (rw (refs, (all id e l k).0) ((all id e l k).1))
