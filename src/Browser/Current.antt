-- ===== src/Browser/Current.antt =====
-- worker/browser.go: the page that a request without an ID works on.
use remote_hands.Shared.{
  ◌≡◌, ◌≢◌, refl, ◌∙◌, ◌⊎◌, inl, inr, List, [], ◌∷◌, none, some, Text, Text_eq, Map, lookup, ok,
  err, connect_error, not_found, arith,
}
use remote_hands.Rod.{Rod}
use remote_hands.Browser.{BrowserManager, new_browser_manager, get_page}
use remote_hands.Browser.Invariant.{BrowserOk, serve_all-BrowserOk}
use remote_hands.Browser.Requests.{BrowserRequest, serve_all}

module _ (rod : Rod) where
  -- The state behind requests to a new manager.
  abbrev pub behind : List (BrowserRequest rod) → rod.World → BrowserManager rod.Page
  behind rs w = (serve_all rod rs (record { bm = new_browser_manager; world = w })).bm

  -- The page that is found without an ID.
  abbrev pub Default : BrowserManager rod.Page → Type 0
  Default b =
      ((b.pages ≡ [])
        × (get_page b.pages b.last_page_id none ≡ err (connect_error not_found "no pages open")))
      ⊎ ((page : rod.Page) × (lookup (rod.target_id page) b.pages ≡ some page)
          × (get_page b.pages b.last_page_id none ≡ ok (page, rod.target_id page)))

  get_page-last :
      (pages : Map Text rod.Page) (last : Text) (page : rod.Page)
      → last ≢ []
      → lookup last pages ≡ some page
      → get_page pages last none ≡ ok (page, last)
  unfolding get_page
  get_page-last pages [] page h l = absurd (h refl)
  get_page-last pages (c ∷ last) page h l = ground (arith, l)

  BrowserOk-Default :
      (b : BrowserManager rod.Page)
      → ((page : rod.Page) → rod.target_id page ≢ [])
      → BrowserOk rod b
      → Default b
  BrowserOk-Default b some_id v = elim v.current [
    | inl (e, l) ↦ inl (e, unfold get_page in ground arith)
    | inr (page, l) ↦ inr (
      page,
      rw (v.keyed b.last_page_id page l) l,
      rw (v.keyed b.last_page_id page l) (
          get_page-last b.pages b.last_page_id page
            (λ e. some_id page (v.keyed b.last_page_id page l ∙ e)) l),
    )
  ]

  -- Where target IDs are not empty, a request without an ID finds a page behind any requests to a new
  -- manager exactly when a page is tracked, and it is a tracked one under its own target ID.
  pub serve_all-Default :
      (rs : List (BrowserRequest rod)) (w : rod.World)
      → ((page : rod.Page) → rod.target_id page ≢ [])
      → Default (behind rs w)
  serve_all-Default rs w some_id = BrowserOk-Default _ some_id (serve_all-BrowserOk rod rs w)
