-- ===== src/Routes.antt =====
-- The routes of server.go and mgmt.go, and which handler answers a request. The router, which is
-- github.com/gorilla/mux, is a parameter.
pub mod Unauthorized
pub mod Preserved
pub mod Contents
pub mod History
pub mod Download
pub mod Cloud
pub mod Session
use lfs_server_go.Prelude.{
  Bool, true, false, ◌&&◌, ◌||◌, Option, none, some, List, [], ◌∷◌, ◌++◌, if◌then◌else◌,
}
use lfs_server_go.Text.{Bytes, lit, one_of}
use lfs_server_go.Errors.{Result}
use lfs_server_go.Server.{App, Request, ResponseWriter, fresh, content_matcher, meta_matcher}
use lfs_server_go.Handlers.{
  get_content_handler, get_search_handler, get_meta_handler, post_handler, batch_handler,
  put_handler,
}
use lfs_server_go.Mgmt.{
  Web, Handler, denied, basic_auth, index_handler, css_handler, js_handler, objects_handler,
  projects_handler, users_handler, add_project, add_user_handler, del_user_handler,
  search_oid_handler,
}

-- The handlers that are registered.
pub data Page : Type 0 where
  batch get_content get_meta search put_content post : Page
  mgmt_index mgmt_objects mgmt_projects mgmt_add_project mgmt_users mgmt_add mgmt_del mgmt_search :
      Page
  css js : Page

pub record Route : Type 0 where
  pub template : Bytes
  -- none: every method
  pub methods : List Bytes
  pub matcher : Request → Bool
  pub page : Page

-- What the program uses of mux: the variables of a path that a template matches, and the answer where
-- no route matches.
pub record Mux : Type 0 where
  pub match_path : (template path : Bytes) → Option (Bytes → Bytes)
  pub not_found : ResponseWriter → ResponseWriter

abbrev pub any_request : Request → Bool
any_request r = true

abbrev pub get_or_head : List Bytes
get_or_head = lit "GET" ∷ lit "HEAD" ∷ []

abbrev pub object_template : Bytes
object_template = lit "/{namespace}/{repo}/objects/{oid}"

abbrev pub route : Bytes → List Bytes → (Request → Bool) → Page → Route
route template methods matcher page = record {
  template = template;
  methods = methods;
  matcher = matcher;
  page = page;
}

-- `NewApp`
unfoldable pub lfs_routes : List Route
lfs_routes =
    route (lit "/{namespace}/{repo}/objects/batch") (lit "POST" ∷ []) meta_matcher batch
    ∷ route object_template get_or_head content_matcher get_content
    ∷ route object_template get_or_head meta_matcher get_meta
    ∷ route (lit "/search/{oid}") (lit "GET" ∷ []) any_request search
    ∷ route object_template (lit "PUT" ∷ []) content_matcher put_content
    ∷ route (lit "/{namespace}/{repo}/objects") (lit "POST" ∷ []) meta_matcher post
    ∷ []

-- `addMgmt`
unfoldable pub mgmt_routes : List Route
mgmt_routes =
    route (lit "/mgmt") (lit "GET" ∷ []) any_request mgmt_index
    ∷ route (lit "/mgmt/objects") (lit "GET" ∷ []) any_request mgmt_objects
    ∷ route (lit "/mgmt/projects") (lit "GET" ∷ []) any_request mgmt_projects
    ∷ route (lit "/mgmt/addProject") (lit "POST" ∷ []) any_request mgmt_add_project
    ∷ route (lit "/mgmt/users") (lit "GET" ∷ []) any_request mgmt_users
    ∷ route (lit "/mgmt/add") (lit "POST" ∷ []) any_request mgmt_add
    ∷ route (lit "/mgmt/del") (lit "POST" ∷ []) any_request mgmt_del
    ∷ route (lit "/mgmt/searchOid") (lit "GET" ∷ []) any_request mgmt_search
    ∷ route (lit "/mgmt/css/{file}") [] any_request css
    ∷ route (lit "/mgmt/js/{file}") [] any_request js
    ∷ []

unfoldable pub allows : List Bytes → Bytes → Bool
allows [] method = true
allows (b ∷ bs) method = one_of (b ∷ bs) method

-- The first route, in the order of their registration, that takes the request.
unfoldable pub find_route : Mux → List Route → Bytes → Request → Option (Page × (Bytes → Bytes))
unfolding allows
find_route mux [] path r = none
find_route mux (x ∷ xs) path r =
    let later = find_route mux xs path r in
    elim (mux.match_path x.template path) [
      | none ↦ later
      | some vars ↦ if allows x.methods r.method && x.matcher r then some (x.page, vars) else later
    ]

-- `mux.Vars(r)`, as the handlers of LFS read it.
abbrev pub with_vars : (Bytes → Bytes) → Request → Request
with_vars vars r = record r {
  namespace = vars (lit "namespace");
  repo = vars (lit "repo");
  oid = vars (lit "oid");
}

-- What a request gets (`none` is a panic) and leaves.
pub record Answer (M C : Type 0) : Type 0 where
  pub reply : Option ResponseWriter
  pub meta : M
  pub content : C

-- `salt` is what bcrypt draws for a user who is added, and `opened` what `FindMetaStore` returns to
-- the search page.
module _ {M C : Type 0} (app : App M C) (web : Web) (salt : Bytes) (opened : Result M) where
  unfoldable pub managed : Handler app web → Request → M → C → Answer M C
  managed h r m c =
      let (w, m') = basic_auth app web h r fresh m in record { reply = w; meta = m'; content = c }

  -- The search page behind `basicAuth`.
  unfoldable pub managed_search : Request → M → C → Answer M C
  managed_search r m c = record {
    reply = elim (denied app web r fresh) [
      | some w ↦ some w
      | none ↦ search_oid_handler app web opened r fresh
    ];
    meta = m;
    content = c;
  }

  unfoldable pub run_page : Page → (Bytes → Bytes) → Request → M → C → Answer M C
  unfolding managed managed_search
  run_page batch vars r m c =
      let (w, m') = batch_handler app r fresh m in record { reply = w; meta = m'; content = c }
  run_page get_content vars r m c = record {
    reply = some (get_content_handler app r fresh m c);
    meta = m;
    content = c;
  }
  run_page get_meta vars r m c = record {
    reply = some (get_meta_handler app r fresh m);
    meta = m;
    content = c;
  }
  run_page search vars r m c = record {
    reply = some (get_search_handler app r fresh m);
    meta = m;
    content = c;
  }
  run_page put_content vars r m c =
      let (w, c') = put_handler app r fresh m c in record { reply = some w; meta = m; content = c' }
  run_page post vars r m c =
      let (w, m') = post_handler app r fresh m c in record { reply = w; meta = m'; content = c }
  run_page mgmt_index vars r m c = managed (index_handler app web) r m c
  run_page mgmt_objects vars r m c = managed (objects_handler app web) r m c
  run_page mgmt_projects vars r m c = managed (projects_handler app web) r m c
  run_page mgmt_add_project vars r m c = managed (add_project app web) r m c
  run_page mgmt_users vars r m c = managed (users_handler app web) r m c
  run_page mgmt_add vars r m c = managed (add_user_handler app web salt) r m c
  run_page mgmt_del vars r m c = managed (del_user_handler app web) r m c
  run_page mgmt_search vars r m c = managed_search r m c
  run_page css vars r m c = managed (css_handler app web (vars (lit "file"))) r m c
  run_page js vars r m c = managed (js_handler app web (vars (lit "file"))) r m c

  -- `ServeHTTP`
  unfoldable pub serve_http : Mux → Bytes → Request → M → C → Answer M C
  unfolding find_route lfs_routes mgmt_routes run_page
  serve_http mux path r m c = elim (find_route mux (lfs_routes ++ mgmt_routes) path r) [
    | none ↦ record { reply = some (mux.not_found fresh); meta = m; content = c }
    | some (page, vars) ↦ run_page page vars (with_vars vars r) m c
  ]

-- A request, with what is drawn and opened for it.
pub record Event (M : Type 0) : Type 0 where
  pub path : Bytes
  pub request : Request
  pub salt : Bytes
  pub opened : Result M

module _ {M C : Type 0} (app : App M C) (web : Web) (mux : Mux) where
  -- `Serve`: the two stores after these requests, each answered before the next. (A handler that
  -- panics is ended by net/http, and the server goes on.)
  unfoldable pub serve : List (Event M) → M → C → M × C
  serve [] m c = (m, c)
  serve (e ∷ es) m c =
      let a = serve_http app web e.salt e.opened mux e.path e.request m c in
      serve es a.meta a.content

  -- The answer to a GET of a content after these requests.
  abbrev pub downloaded : List (Event M) → M → C → Request → ResponseWriter
  downloaded es m c r = let (m', c') = serve es m c in get_content_handler app r fresh m' c'
