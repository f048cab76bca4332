-- ===== src/Routes/Contents.antt =====
-- What the pages of server.go and mgmt.go keep of the contents, and which page answers a request.
use lfs_server_go.Prelude.{◌≡◌, refl, ap, ◌∙◌, inl, inr, some, ◌++◌, Option-cases}
use lfs_server_go.Text.{Bytes}
use lfs_server_go.Errors.{Result, ok}
use lfs_server_go.Types.{MetaObject}
use lfs_server_go.MetaStore.Transactions.{Result-cases}
use lfs_server_go.Server.{App, Request, fresh, unpack}
use lfs_server_go.Handlers.{put_handler}
use lfs_server_go.Mgmt.{Web}
use lfs_server_go.Routes.{
  Page, Mux, find_route, lfs_routes, mgmt_routes, with_vars, managed, managed_search, run_page,
  serve_http,
}

module _ {M C : Type 0} (app : App M C) (web : Web) (salt : Bytes) (opened : Result M) where
  open app use {meta_store, content_store, json}

  put_handler-content :
      (Q : C → Type 0) (r : Request) (m : M) (c : C)
      → Q c
      → ((meta : MetaObject)
          → meta_store.get (unpack json r) m ≡ ok meta
          → Q (content_store.put meta r.body c).1)
      → Q (put_handler app r fresh m c).1
  unfolding put_handler
  put_handler-content Q r m c q stored = elim (Result-cases (meta_store.get (unpack json r) m)) [
    | inl (meta, got) ↦ rw (got, put_handler) (stored meta got)
    | inr (e, missing) ↦ rw (missing, put_handler) q
  ]

  run_page-content :
      (Q : C → Type 0) (page : Page) (vars : Bytes → Bytes) (r : Request) (m : M) (c : C)
      → Q c
      → (page ≡ Page.put_content
          → (meta : MetaObject) → meta_store.get (unpack json r) m ≡ ok meta
          → Q (content_store.put meta r.body c).1)
      → Q (run_page app web salt opened page vars r m c).content
  unfolding run_page managed managed_search
  run_page-content Q Page.put_content vars r m c q stored =
      put_handler-content Q r m c q (stored refl)
  run_page-content Q Page.batch vars r m c q stored = q
  run_page-content Q Page.get_content vars r m c q stored = q
  run_page-content Q Page.get_meta vars r m c q stored = q
  run_page-content Q Page.search vars r m c q stored = q
  run_page-content Q Page.post vars r m c q stored = q
  run_page-content Q Page.mgmt_index vars r m c q stored = q
  run_page-content Q Page.mgmt_objects vars r m c q stored = q
  run_page-content Q Page.mgmt_projects vars r m c q stored = q
  run_page-content Q Page.mgmt_add_project vars r m c q stored = q
  run_page-content Q Page.mgmt_users vars r m c q stored = q
  run_page-content Q Page.mgmt_add vars r m c q stored = q
  run_page-content Q Page.mgmt_del vars r m c q stored = q
  run_page-content Q Page.mgmt_search vars r m c q stored = q
  run_page-content Q Page.css vars r m c q stored = q
  run_page-content Q Page.js vars r m c q stored = q

  -- A request keeps of the contents what the Put keeps that a PUT of a content comes to.
  pub serve_http-content :
      (Q : C → Type 0) (mux : Mux) (path : Bytes) (r : Request) (m : M) (c : C)
      → Q c
      → ((vars : Bytes → Bytes) (meta : MetaObject)
          → find_route mux (lfs_routes ++ mgmt_routes) path r ≡ some (Page.put_content, vars)
          → meta_store.get (unpack json (with_vars vars r)) m ≡ ok meta
          → Q (content_store.put meta r.body c).1)
      → Q (serve_http app web salt opened mux path r m c).content
  unfolding serve_http
  serve_http-content Q mux path r m c q stored =
      elim (Option-cases (find_route mux (lfs_routes ++ mgmt_routes) path r)) [
        | inl missing ↦ rw (missing, serve_http) q
        | inr ((page, vars), found) ↦
            rw (found, serve_http)
              (run_page-content Q page vars (with_vars vars r) m c q
                (λ put meta got. stored vars meta (found ∙ ap (λ p. some (p, vars)) put) got))
      ]

-- A request that a route takes is answered by its page.
pub serve_http-routed :
    {M C : Type 0} (app : App M C) (web : Web) (salt : Bytes) (opened : Result M) (mux : Mux)
    (path : Bytes) (r : Request) (m : M) (c : C) (page : Page) (vars : Bytes → Bytes)
    → find_route mux (lfs_routes ++ mgmt_routes) path r ≡ some (page, vars)
    → serve_http app web salt opened mux path r m c
      ≡ run_page app web salt opened page vars (with_vars vars r) m c
unfolding serve_http
serve_http-routed app web salt opened mux path r m c page vars found = rw (found, serve_http) refl
