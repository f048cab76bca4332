-- ===== src/Routes/Preserved.antt =====
-- What every handler of server.go and mgmt.go keeps of the metadata, where the methods of the
-- store keep it.
use lfs_server_go.Prelude.{
  ◌≡◌, refl, sym, inl, inr, Option, none, some, List, [], ◌∷◌, ◌++◌, arith, Bool-cases,
  Option-cases, ◌||◌, if_intro,
}
use mathlib.Core.Path.{subst}
use lfs_server_go.Text.{Bytes, lit, ◌==◌}
use lfs_server_go.Errors.{Error, Result, is_auth_error}
use lfs_server_go.Types.{RequestVars, Representation}
use lfs_server_go.MetaStore.Transactions.{Result-cases}
use lfs_server_go.Server.{
  GenericMetaStore, App, Request, ResponseWriter, fresh, unpack, unpackbatch,
}
use lfs_server_go.Handlers.{collect, batch_handler, post_handler}
use lfs_server_go.Mgmt.{
  Web, Handler, denied, basic_auth, conclude, index_handler, css_handler, js_handler,
  objects_handler, projects_handler, users_handler, add_project, add_user_handler, del_user_handler,
}
use lfs_server_go.Routes.{
  Page, Mux, find_route, lfs_routes, mgmt_routes, with_vars, managed, managed_search, run_page,
  serve_http,
}

-- Each method of a metadata store that changes it keeps `P`.
pub record KeepsMeta {M : Type 0} (store : GenericMetaStore M) (P : M → Type 0) : Type 0 where
  pub put : (rv : RequestVars) (m : M) → P m → P (store.put rv m).1
  pub delete_user : (user : Bytes) (m : M) → P m → P (store.delete_user user m).1
  pub add_user : (salt user pass : Bytes) (m : M) → P m → P (store.add_user salt user pass m).1
  pub add_project : (name : Bytes) (m : M) → P m → P (store.add_project name m).1

module _ {M C : Type 0} (app : App M C) (web : Web) (P : M → Type 0)
    (kept : KeepsMeta app.meta_store P) where
  open app use {meta_store, content_store, json}

  collect_keeps :
      (vs : List (Option RequestVars)) (reps : List Representation) (m : M)
      → P m
      → P (collect app vs reps m).1
  unfolding collect is_auth_error
  collect_keeps [] reps m p = p
  collect_keeps (none ∷ vs) reps m p = p
  collect_keeps (some v ∷ vs) reps m p = elim (Result-cases (meta_store.get v m)) [
    | inl (meta, got) ↦ rw (got, collect) (collect_keeps vs _ m p)
    | inr (e, missing) ↦
        rw (missing, collect)
          (elim (Bool-cases (is_auth_error e)) [
            | inl auth ↦ rw (auth, collect) p
            | inr other ↦
                rw (other, collect)
                  (elim (Option-cases (meta_store.put v m).0) [
                    | inl panics ↦ rw (panics, collect) (kept.put v m p)
                    | inr (result, made) ↦ elim (Result-cases result) [
                      | inl (meta, good) ↦
                          rw (made, collect)
                            (rw (good, collect)
                              (collect_keeps vs _ (meta_store.put v m).1 (kept.put v m p)))
                      | inr (bad, failed) ↦
                          rw (made, collect)
                            (rw (failed, collect)
                              (collect_keeps vs reps (meta_store.put v m).1 (kept.put v m p)))
                    ]
                  ])
          ])
  ]

  batch_keeps : (r : Request) (m : M) → P m → P (batch_handler app r fresh m).1
  unfolding batch_handler
  batch_keeps r m p = elim (Option-cases (unpackbatch json r)) [
    | inl panics ↦ rw (panics, batch_handler) p
    | inr (vs, sent) ↦ rw (sent, batch_handler) (collect_keeps vs [] m p)
  ]

  -- The pages of the management run a handler or leave the store as it is.
  managed_keeps :
      (h : Handler app web) (r : Request) (m : M)
      → P m
      → P (h r fresh m).1
      → P (basic_auth app web h r fresh m).1
  unfolding basic_auth
  managed_keeps h r m p after = elim (Option-cases (denied app web r fresh)) [
    | inl admin ↦ rw (admin, basic_auth) after
    | inr (w, refused) ↦ rw (refused, basic_auth) p
  ]

  conclude-state :
      (r : Request) (page text : Bytes) (w : ResponseWriter) (x : Option Error × M)
      → (conclude app web r page text w x).1 ≡ x.1
  unfolding conclude
  conclude-state r page text w (none, m) = refl
  conclude-state r page text w (some e, m) = refl

  objects_handler-state : (r : Request) (m : M) → (objects_handler app web r fresh m).1 ≡ m
  unfolding objects_handler
  objects_handler-state r m = ground arith

  projects_handler-state : (r : Request) (m : M) → (projects_handler app web r fresh m).1 ≡ m
  unfolding projects_handler
  projects_handler-state r m = ground arith

  users_handler-state : (r : Request) (m : M) → (users_handler app web r fresh m).1 ≡ m
  unfolding users_handler
  users_handler-state r m = ground arith

  css_handler-state :
      (file : Bytes) (r : Request) (m : M) → (css_handler app web file r fresh m).1 ≡ m
  unfolding css_handler
  css_handler-state file r m = ground arith

  js_handler-state :
      (file : Bytes) (r : Request) (m : M) → (js_handler app web file r fresh m).1 ≡ m
  unfolding js_handler
  js_handler-state file r m = ground arith

  add_project_keeps : (r : Request) (m : M) → P m → P (add_project app web r fresh m).1
  unfolding add_project
  add_project_keeps r m p =
      let name = web.form_value r (lit "name") in
      if_intro (λ (x : Option ResponseWriter × M). P x.1) (name == []) _ _ (λ _. p)
        (λ _. subst P (sym (conclude-state r _ _ fresh _)) (kept.add_project name m p))

  add_user_keeps :
      (salt : Bytes) (r : Request) (m : M) → P m → P (add_user_handler app web salt r fresh m).1
  unfolding add_user_handler
  add_user_keeps salt r m p =
      let user = web.form_value r (lit "name") in
      let pass = web.form_value r (lit "password") in
      if_intro (λ (x : Option ResponseWriter × M). P x.1) ((user == []) || (pass == [])) _ _
        (λ _. p)
        (λ _. subst P (sym (conclude-state r _ _ fresh _)) (kept.add_user salt user pass m p))

  del_user_keeps : (r : Request) (m : M) → P m → P (del_user_handler app web r fresh m).1
  unfolding del_user_handler
  del_user_keeps r m p =
      let user = web.form_value r (lit "name") in
      if_intro (λ (x : Option ResponseWriter × M). P x.1) (user == []) _ _ (λ _. p)
        (λ _. subst P (sym (conclude-state r _ _ fresh _)) (kept.delete_user user m p))

  module _ (salt : Bytes) (opened : Result M) where
    -- A page that reads the store.
    shown :
        (h : Handler app web) (r : Request) (m : M)
        → (h r fresh m).1 ≡ m
        → P m
        → P (basic_auth app web h r fresh m).1
    shown h r m same p = managed_keeps h r m p (subst P (sym same) p)

    run_page-meta :
        (page : Page) (vars : Bytes → Bytes) (r : Request) (m : M) (c : C)
        → P m
        → P (run_page app web salt opened page vars r m c).meta
    unfolding run_page managed managed_search index_handler post_handler
    run_page-meta Page.batch vars r m c p = batch_keeps r m p
    run_page-meta Page.get_content vars r m c p = p
    run_page-meta Page.get_meta vars r m c p = p
    run_page-meta Page.search vars r m c p = p
    run_page-meta Page.put_content vars r m c p = p
    run_page-meta Page.post vars r m c p = kept.put (unpack json r) m p
    run_page-meta Page.mgmt_index vars r m c p = shown (index_handler app web) r m refl p
    run_page-meta Page.mgmt_objects vars r m c p = shown _ r m (objects_handler-state r m) p
    run_page-meta Page.mgmt_projects vars r m c p = shown _ r m (projects_handler-state r m) p
    run_page-meta Page.mgmt_add_project vars r m c p =
        managed_keeps _ r m p (add_project_keeps r m p)
    run_page-meta Page.mgmt_users vars r m c p = shown _ r m (users_handler-state r m) p
    run_page-meta Page.mgmt_add vars r m c p = managed_keeps _ r m p (add_user_keeps salt r m p)
    run_page-meta Page.mgmt_del vars r m c p = managed_keeps _ r m p (del_user_keeps r m p)
    run_page-meta Page.mgmt_search vars r m c p = p
    run_page-meta Page.css vars r m c p = shown _ r m (css_handler-state _ r m) p
    run_page-meta Page.js vars r m c p = shown _ r m (js_handler-state _ r m) p

    -- A request keeps what the methods of the metadata store keep.
    pub serve_http-meta :
        (mux : Mux) (path : Bytes) (r : Request) (m : M) (c : C)
        → P m
        → P (serve_http app web salt opened mux path r m c).meta
    unfolding serve_http
    serve_http-meta mux path r m c p =
        elim (Option-cases (find_route mux (lfs_routes ++ mgmt_routes) path r)) [
          | inl missing ↦ rw (missing, serve_http) p
          | inr ((page, vars), found) ↦
              rw (found, serve_http) (run_page-meta page vars (with_vars vars r) m c p)
        ]
