-- ===== src/Routes/Unauthorized.antt =====
-- What a request without a valid authorization leaves, whichever route of server.go and mgmt.go it
-- takes.
use lfs_server_go.Prelude.{
  ◌≡◌, refl, ap, ◌∙◌, inl, inr, Bool, false, Option, none, some, List, [], ◌∷◌, ◌++◌, Option-cases,
}
use mathlib.Core.Path.{subst}
use mathlib.Core.Option
use mathlib.Core.Option.{some-injective}
use mathlib.Core.List.{Memᴰ}
use lfs_server_go.Text.{Bytes}
use lfs_server_go.Errors.{Result, is_auth_error}
use lfs_server_go.Types.{RequestVars}
use lfs_server_go.Server.{App, Request, fresh, unpackbatch, all_with_route}
use lfs_server_go.Handlers.{collect, batch_handler}
use lfs_server_go.Handlers.Guard.{IsGuarded, refused_everywhere}
use lfs_server_go.Mgmt.{Web, Handler, basic_auth}
use lfs_server_go.Mgmt.Admin.{IsAdmin, basic_auth-cases}
use lfs_server_go.Routes.{
  Page, Mux, Answer, find_route, lfs_routes, mgmt_routes, with_vars, managed, managed_search,
  run_page, serve_http,
}

-- `Request.BasicAuth` reads only the header.
pub record IsWeb (web : Web) : Type 0 where
  pub reads_header :
      (r r' : Request) → r.authorization ≡ r'.authorization → web.basic_auth r ≡ web.basic_auth r'

module _ {M C : Type 0} (app : App M C) (web : Web) (admits : Bytes → M → Bool)
    (guarded : IsGuarded app.meta_store admits) where
  open app use {meta_store, json}

  -- No object has an authorization that is taken.
  abbrev pub NoneAdmitted : M → List (Option RequestVars) → Type 0
  NoneAdmitted m vs = (v : RequestVars) → Memᴰ (some v) vs → admits v.authorization m ≡ false

  -- The loop stops at the first object, if there is one.
  abbrev StopsAtOnce : M → List (Option RequestVars) → Type 0
  StopsAtOnce m [] = Unit {0}
  StopsAtOnce m (none ∷ vs) = Unit {0}
  StopsAtOnce m (some v ∷ vs) = admits v.authorization m ≡ false

  collect_keeps :
      (m : M) (vs : List (Option RequestVars)) → StopsAtOnce m vs → (collect app vs [] m).1 ≡ m
  unfolding collect is_auth_error
  collect_keeps m [] h = refl
  collect_keeps m (none ∷ vs) h = refl
  collect_keeps m (some v ∷ vs) h = rw (guarded.get_refused v m h, collect) refl

  sent-StopsAtOnce : (m : M) (vs : List (Option RequestVars)) → NoneAdmitted m vs → StopsAtOnce m vs
  sent-StopsAtOnce m [] h = tt
  sent-StopsAtOnce m (none ∷ vs) h = tt
  sent-StopsAtOnce m (some v ∷ vs) h = h v (Memᴰ.head refl)

  -- The objects of a body that decodes have the authorization of the header.
  routed-StopsAtOnce :
      (r : Request) (m : M) (vs ws : List (Option RequestVars))
      → admits r.authorization m ≡ false
      → all_with_route r vs ≡ some ws
      → StopsAtOnce m ws
  unfolding all_with_route
  routed-StopsAtOnce r m [] ws h routed = subst (StopsAtOnce m) (some-injective _ _ routed) tt
  routed-StopsAtOnce r m (none ∷ vs) ws h routed = cc
  routed-StopsAtOnce r m (some v ∷ vs) ws h routed =
      let (rest, _, same) = (Option.map-eq-some_iff _ _).0 routed in subst (StopsAtOnce m) same h

  batch_keeps :
      (r : Request) (m : M)
      → admits r.authorization m ≡ false
      → NoneAdmitted m (json.decode_batch_vars r.body).0
      → (batch_handler app r fresh m).1 ≡ m
  unfolding batch_handler unpackbatch
  batch_keeps r m h sent = elim (Option-cases (json.decode_batch_vars r.body).1) [
    | inr (e, failed) ↦
        rw (failed, batch_handler)
          (collect_keeps m _ (sent-StopsAtOnce m (json.decode_batch_vars r.body).0 sent))
    | inl decoded ↦ elim (Option-cases (all_with_route r (json.decode_batch_vars r.body).0)) [
      | inl panics ↦ rw (decoded, batch_handler) (rw (panics, batch_handler) refl)
      | inr (ws, routed) ↦
          rw (decoded, batch_handler)
            (rw (routed, batch_handler) (collect_keeps m ws (routed-StopsAtOnce r m _ ws h routed)))
    ]
  ]

  -- The pages of the management keep the metadata from all but the administrator.
  managed_keeps :
      (h : Handler app web) (r : Request) (m : M)
      → (IsAdmin app web r → ⊥)
      → (basic_auth app web h r fresh m).1 ≡ m
  managed_keeps h r m other = elim (basic_auth-cases app web h r m) [
    | inl (admin, _) ↦ absurd (other admin)
    | inr (_, refused) ↦ refused.0
  ]

  -- A request that neither the metadata store nor the management pages take: its header, the objects
  -- that are read from its body and the administrator's credentials.
  pub record IsUnauthorized (r : Request) (m : M) : Type 0 where
    pub header : admits r.authorization m ≡ false
    pub objects : NoneAdmitted m (json.decode_batch_vars r.body).0
    pub admin : IsAdmin app web r → ⊥

  module _ (salt : Bytes) (opened : Result M) where
    -- Both stores are as they were.
    abbrev Unchanged : M → C → Answer M C → Type 0
    Unchanged m c a = (a.meta ≡ m) × (a.content ≡ c)

    run_page-Unchanged :
        (page : Page) (vars : Bytes → Bytes) (r : Request) (m : M) (c : C)
        → IsUnauthorized r m
        → Unchanged m c (run_page app web salt opened page vars r m c)
    unfolding run_page managed managed_search
    run_page-Unchanged Page.batch vars r m c u = (batch_keeps r m u.header u.objects, refl)
    run_page-Unchanged Page.get_content vars r m c u = (refl, refl)
    run_page-Unchanged Page.get_meta vars r m c u = (refl, refl)
    run_page-Unchanged Page.search vars r m c u = (refl, refl)
    run_page-Unchanged Page.put_content vars r m c u =
        (refl, ap (λ x. x.1) (refused_everywhere app admits guarded r m c u.header).4)
    run_page-Unchanged Page.post vars r m c u =
        (ap (λ x. x.1) (refused_everywhere app admits guarded r m c u.header).3, refl)
    run_page-Unchanged Page.mgmt_index vars r m c u = (managed_keeps _ r m u.admin, refl)
    run_page-Unchanged Page.mgmt_objects vars r m c u = (managed_keeps _ r m u.admin, refl)
    run_page-Unchanged Page.mgmt_projects vars r m c u = (managed_keeps _ r m u.admin, refl)
    run_page-Unchanged Page.mgmt_add_project vars r m c u = (managed_keeps _ r m u.admin, refl)
    run_page-Unchanged Page.mgmt_users vars r m c u = (managed_keeps _ r m u.admin, refl)
    run_page-Unchanged Page.mgmt_add vars r m c u = (managed_keeps _ r m u.admin, refl)
    run_page-Unchanged Page.mgmt_del vars r m c u = (managed_keeps _ r m u.admin, refl)
    run_page-Unchanged Page.mgmt_search vars r m c u = (refl, refl)
    run_page-Unchanged Page.css vars r m c u = (managed_keeps _ r m u.admin, refl)
    run_page-Unchanged Page.js vars r m c u = (managed_keeps _ r m u.admin, refl)

    module _ (lawful : IsWeb web) where
      routed-IsUnauthorized :
          (vars : Bytes → Bytes) (r : Request) (m : M)
          → IsUnauthorized r m
          → IsUnauthorized (with_vars vars r) m
      routed-IsUnauthorized vars r m u = record {
        header = u.header;
        objects = u.objects;
        admin = λ a. u.admin (record {
          user_set = a.user_set;
          pass_set = a.pass_set;
          named = lawful.reads_header r (with_vars vars r) refl ∙ a.named;
        });
      }

      -- Over any metadata store that refuses wrong authorizations: a request that neither the store
      -- nor the management pages take, by its header or by an object of its body, changes neither
      -- store, whatever its method and its path are and whichever handler answers it.
      pub serve_http-Unchanged :
          (mux : Mux) (path : Bytes) (r : Request) (m : M) (c : C)
          → IsUnauthorized r m
          → ((serve_http app web salt opened mux path r m c).meta ≡ m)
            × ((serve_http app web salt opened mux path r m c).content ≡ c)
      unfolding serve_http
      serve_http-Unchanged mux path r m c u =
          elim (Option-cases (find_route mux (lfs_routes ++ mgmt_routes) path r)) [
            | inl nowhere ↦ rw (nowhere, serve_http) (refl, refl)
            | inr ((page, vars), found) ↦
                rw (found, serve_http)
                  (run_page-Unchanged page vars (with_vars vars r) m c
                    (routed-IsUnauthorized vars r m u))
          ]
