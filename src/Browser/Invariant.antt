-- ===== src/Browser/Invariant.antt =====
-- worker/browser.go: the manager is well formed behind every request.
use remote_hands.Shared.{
  ℕ, ◌≡◌, ◌≢◌, refl, ◌⊎◌, inl, inr, true, false, List, [], ◌∷◌, some, Text, Text_eq, text_eq,
  text_eq_iff, Map, lookup, erase, lookup-insert, lookup-erase, if◌then◌else◌, Bool-cases, arith,
  if_either,
}
use remote_hands.Rod.{Rod, AxNode}
use remote_hands.Browser.{
  BrowserManager, new_browser_manager, mark_started, mark_stopped, track_page, untrack_page,
  some_page_id,
}
use remote_hands.Browser.Rules.{Closed}
use remote_hands.Browser.Methods.{serve_all-keeps}
use remote_hands.Browser.Requests.{BrowserRequest, serve_all}
use remote_hands.Browser.Snapshot.{
  ref_of, refer, count_snapshot, converted, convert_nodes, convert_node, add_ref, Converted,
}

-- Each reference is made from the node it stands for.
abbrev pub RefsOk : Map Text ℕ → Type 0
RefsOk refs = (r : Text) (n : ℕ) → lookup r refs ≡ some n → (r ≡ ref_of n) × (n ≢ 0)

add_ref-RefsOk : (id : ℕ) (refs : Map Text ℕ) → RefsOk refs → RefsOk (add_ref id refs)
unfolding add_ref
add_ref-RefsOk id refs h r m e =
    ground (arith, lookup-insert (ref_of id) r id refs, text_eq_iff (ref_of id) r, h r m)

convert_node-RefsOk : (n : AxNode) (c : Converted) → RefsOk c.refs → RefsOk (convert_node n c).refs
unfolding convert_node
convert_node-RefsOk n c h =
    if_either (λ d. RefsOk (Converted.refs d)) n.ignored c _ h
      (add_ref-RefsOk n.backend_id c.refs h)

convert_nodes-RefsOk :
    (ns : List AxNode) (c : Converted) → RefsOk c.refs → RefsOk (convert_nodes ns c).refs
unfolding convert_nodes
convert_nodes-RefsOk [] c h = h
convert_nodes-RefsOk (n ∷ ns) c h =
    convert_nodes-RefsOk ns (convert_node n c) (convert_node-RefsOk n c h)

module _ (rod : Rod) where
  -- The manager's fields agree: a browser that does not run has no launcher, pages or references;
  -- a page is kept under its target ID; the last page is tracked, unless there are no pages.
  pub record BrowserOk (b : BrowserManager rod.Page) : Type 0 where
    pub launcher : b.has_launcher ≡ b.running
    pub closed_pages : b.running ≡ false → b.pages ≡ []
    pub closed_refs : b.running ≡ false → b.ref_map ≡ []
    pub keyed :
        (id : Text) (page : rod.Page) → lookup id b.pages ≡ some page → rod.target_id page ≡ id
    pub current :
        ((b.pages ≡ []) × (b.last_page_id ≡ []))
        ⊎ ((page : rod.Page) × (lookup b.last_page_id b.pages ≡ some page))
    pub refs : RefsOk b.ref_map

  -- What `pages` and `last_page_id` owe to one another.
  abbrev PagesOk : Map Text rod.Page → Text → Type 0
  PagesOk pages last =
      ((pages ≡ []) × (last ≡ [])) ⊎ ((page : rod.Page) × (lookup last pages ≡ some page))

  some_page_id-PagesOk : (pages : Map Text rod.Page) → PagesOk pages (some_page_id pages)
  unfolding lookup
  some_page_id-PagesOk [] = inl (refl, refl)
  some_page_id-PagesOk ((id, page) ∷ pages) = inr (page, ground (arith, text_eq_iff id id))

  erased-PagesOk :
      (id : Text) (pages : Map Text rod.Page) (last : Text)
      → PagesOk pages last
      → PagesOk (erase id pages) (if text_eq last id then some_page_id (erase id pages) else last)
  unfolding erase
  erased-PagesOk id pages last v = elim (Bool-cases (text_eq last id)) [
    | inl h ↦ rw h (some_page_id-PagesOk (erase id pages))
    | inr h ↦ elim v [
      | inl (e0, e1) ↦ rw (h, e0) (inl (refl, e1))
      | inr (page, l) ↦ rw h (
          inr (
            page,
            ground (arith, lookup-erase id last pages, text_eq_iff id last, text_eq_iff last id),
          ))
    ]
  ]

  pub new_browser_manager-BrowserOk : BrowserOk new_browser_manager
  unfolding new_browser_manager lookup
  new_browser_manager-BrowserOk = record {
    launcher = refl;
    closed_pages = λ h. refl;
    closed_refs = λ h. refl;
    keyed = λ id page h. cc;
    current = inl (refl, refl);
    refs = λ r n h. cc;
  }

  mark_started-BrowserOk :
      (b : BrowserManager rod.Page)
      → b.running ≡ false
      → BrowserOk b
      → BrowserOk (mark_started rod b)
  unfolding mark_started
  mark_started-BrowserOk b h v = record {
    launcher = refl;
    closed_pages = λ e. cc;
    closed_refs = λ e. cc;
    keyed = v.keyed;
    current = v.current;
    refs = v.refs;
  }

  mark_stopped-BrowserOk :
      (b : BrowserManager rod.Page) → BrowserOk b → BrowserOk (mark_stopped rod b)
  unfolding mark_stopped lookup
  mark_stopped-BrowserOk b v = record {
    launcher = refl;
    closed_pages = λ h. refl;
    closed_refs = λ h. refl;
    keyed = λ id page h. cc;
    current = inl (refl, refl);
    refs = λ r n h. cc;
  }

  track_page-BrowserOk :
      (page : rod.Page) (b : BrowserManager rod.Page)
      → b.running ≡ true
      → BrowserOk b
      → BrowserOk (track_page rod page b)
  unfolding track_page lookup
  track_page-BrowserOk page b run v = record {
    launcher = v.launcher;
    closed_pages = λ h. cc;
    closed_refs = λ h. refl;
    keyed = λ id other h. ground (
      arith,
      lookup-insert (rod.target_id page) id page b.pages,
      text_eq_iff (rod.target_id page) id,
      v.keyed id other,
    );
    current = inr (
      page,
      ground (
        arith,
        lookup-insert (rod.target_id page) (rod.target_id page) page b.pages,
        text_eq_iff (rod.target_id page) (rod.target_id page),
      ),
    );
    refs = λ r n h. cc;
  }

  untrack_page-BrowserOk :
      (id : Text) (b : BrowserManager rod.Page)
      → b.running ≡ true
      → BrowserOk b
      → BrowserOk (untrack_page rod id b)
  unfolding untrack_page
  untrack_page-BrowserOk id b run v = record {
    launcher = v.launcher;
    closed_pages = λ h. cc;
    closed_refs = λ h. cc;
    keyed =
        λ at page h. ground (arith, lookup-erase id at b.pages, text_eq_iff id at, v.keyed at page);
    current = erased-PagesOk id b.pages b.last_page_id v.current;
    refs = v.refs;
  }

  refer-BrowserOk :
      (nodes : List AxNode) (b : BrowserManager rod.Page)
      → b.running ≡ true
      → BrowserOk b
      → BrowserOk (refer rod nodes b)
  unfolding refer converted lookup
  refer-BrowserOk nodes b run v = record {
    launcher = v.launcher;
    closed_pages = v.closed_pages;
    closed_refs = λ h. cc;
    keyed = v.keyed;
    current = v.current;
    refs = convert_nodes-RefsOk nodes _ (λ r n h. cc);
  }

  count_snapshot-BrowserOk :
      (b : BrowserManager rod.Page)
      → b.running ≡ true
      → BrowserOk b
      → BrowserOk (count_snapshot rod b)
  unfolding count_snapshot
  count_snapshot-BrowserOk b run v = record {
    launcher = v.launcher;
    closed_pages = v.closed_pages;
    closed_refs = v.closed_refs;
    keyed = v.keyed;
    current = v.current;
    refs = v.refs;
  }

  pub BrowserOk-Closed : Closed rod BrowserOk
  BrowserOk-Closed = record {
    starts = mark_started-BrowserOk;
    stops = mark_stopped-BrowserOk;
    tracks = track_page-BrowserOk;
    untracks = untrack_page-BrowserOk;
    refers = refer-BrowserOk;
    counts = count_snapshot-BrowserOk;
  }

  -- Behind any requests to a new manager its fields agree (`BrowserOk`): a browser that does not run
  -- has no launcher, pages or references; a page is kept under its target ID; the last page is
  -- tracked, unless there are no pages; each reference is made from its node.
  pub serve_all-BrowserOk :
      (rs : List (BrowserRequest rod)) (w : rod.World)
      → BrowserOk (serve_all rod rs (record { bm = new_browser_manager; world = w })).bm
  serve_all-BrowserOk rs w =
      serve_all-keeps rod BrowserOk BrowserOk-Closed rs _ new_browser_manager-BrowserOk
