-- ===== src/Mgmt.antt =====
-- mgmt.go: the management pages. A handler takes the response so far and the state of the metadata
-- store, and returns the response (`none` is a panic) and the state. The templates and the files of
-- go.rice are parameters.
pub mod Admin
pub mod Search
use lfs_server_go.Prelude.{
  ℕ, Bool, true, false, ◌&&◌, ◌||◌, not, Option, none, some, List, [], ◌∷◌, ◌++◌, if◌then◌else◌,
}
use lfs_server_go.Text.{Bytes, lit, ◌==◌, contains}
use lfs_server_go.Errors.{Error, Result, ok, err, message}
use lfs_server_go.Types.{MetaObject, MetaProject, MetaUser}
use lfs_server_go.Server.{App, Request, ResponseWriter, set_header, write, write_status}

-- What the pages use of net/http, encoding/json and html/template.
pub record Web : Type 0 where
  -- `Request.BasicAuth`
  pub basic_auth : Request → Option (Bytes × Bytes)
  -- `Request.FormValue`
  pub form_value : Request → Bytes → Bytes
  -- `Request.URL.Query().Get`
  pub query : Request → Bytes → Bytes
  -- `http.Redirect`
  pub redirect : Request → Bytes → ℕ → ResponseWriter → ResponseWriter
  pub marshal_object : MetaObject → Result Bytes
  pub marshal_objects : List MetaObject → Result Bytes
  pub marshal_projects : List MetaProject → Result Bytes
  pub marshal_users : List MetaUser → Result Bytes
  -- the page of the settings
  pub marshal_index : Result Bytes
  -- `templateBox.String`, `cssBox.Open` and `jsBox.Open`
  pub template : Bytes → Result Bytes
  pub css : Bytes → Result Bytes
  pub js : Bytes → Result Bytes
  -- parsing the two templates and executing them: what is written, and the error
  pub execute_index : Bytes → Bytes → Bytes × Option Error
  pub execute_objects : Bytes → Bytes → List MetaObject → Bytes × Option Error
  pub execute_projects : Bytes → Bytes → List MetaProject → Bytes × Option Error
  pub execute_users : Bytes → Bytes → List MetaUser → Bytes × Option Error

-- `isJson`
unfoldable pub any_json : List Bytes → Bool
any_json [] = false
any_json (l ∷ ls) = contains l (lit "application/json") || any_json ls

module _ {M C : Type 0} (app : App M C) (web : Web) where
  open app use {meta_store, cfg, status_text}

  abbrev pub Handler : Type 0
  Handler = Request → ResponseWriter → M → Option ResponseWriter × M

  -- The answer to wrong credentials.
  unfoldable pub ask_admin : Request → ResponseWriter → ResponseWriter
  ask_admin r w =
      write_status status_text r 401
        (set_header (lit "WWW-Authenticate") (lit "Basic realm=mgmt") w)

  -- The answer of `basicAuth` where it does not call the handler.
  unfoldable pub denied : Request → ResponseWriter → Option ResponseWriter
  denied r w =
      if (cfg.admin_user == []) || (cfg.admin_pass == [])
      then some (write_status status_text r 404 w)
      else elim (web.basic_auth r) [
        | none ↦ some (ask_admin r w)
        | some (user, pass) ↦
            if not (user == cfg.admin_user) || not (pass == cfg.admin_pass)
            then some (ask_admin r w)
            else none
      ]

  unfoldable pub basic_auth : Handler → Handler
  basic_auth h r w m = elim (denied r w) [ some answer ↦ (some answer, m) | none ↦ h r w m ]

  -- The two ways to show a list: as JSON, or by a template.
  unfoldable pub show_json : Request → Result Bytes → ResponseWriter → ResponseWriter
  show_json r marshalled w =
      let w1 = set_header (lit "Content-Type") (lit "application/json") w in
      elim marshalled [
        | ok json ↦ write json w1
        | err e ↦ write [] (write_status status_text r 500 w1)
      ]

  unfoldable pub show_page : Request → Bytes × Option Error → ResponseWriter → ResponseWriter
  show_page r (page, none) w = write page w
  show_page r (page, some e) w = write_status status_text r 404 (write page w)

  unfoldable pub show :
      Request → Result Bytes → Bytes × Option Error → ResponseWriter → ResponseWriter
  show r marshalled page w =
      if any_json r.accept then show_json r marshalled w else show_page r page w

  -- `render`, with what the page writes by its two templates.
  unfoldable pub render : Bytes → (Bytes → Bytes → Bytes × Option Error) → Bytes × Option Error
  render tmpl execute = elim (web.template (lit "body.tmpl")) [
    | err e ↦ ([], some e)
    | ok body ↦ elim (web.template tmpl) [
      | err e ↦ ([], some e)
      | ok content ↦ execute body content
    ]
  ]

  unfoldable pub index_handler : Handler
  index_handler r w m =
      (some (show r web.marshal_index (render (lit "config.tmpl") web.execute_index) w), m)

  -- `file` is the variable of the route.
  unfoldable pub css_handler : Bytes → Handler
  css_handler file r w m = elim (web.css file) [
    | err e ↦ (some (write_status status_text r 404 w), m)
    | ok f ↦ (some (write f (set_header (lit "Content-Type") (lit "text/css") w)), m)
  ]

  unfoldable pub js_handler : Bytes → Handler
  js_handler file r w m = elim (web.js file) [
    | err e ↦ (some (write_status status_text r 404 w), m)
    | ok f ↦ (some (write f (set_header (lit "Content-Type") (lit "text/javascript") w)), m)
  ]

  unfoldable pub objects_handler : Handler
  objects_handler r w m = elim (meta_store.objects m) [
    | none ↦ (none, m)
    | some (err e) ↦ (some (write (lit "Error retrieving objects: " ++ message e) w), m)
    | some (ok objects) ↦ (
      some (
          show r (web.marshal_objects objects)
            (render (lit "objects.tmpl") (λ b c. web.execute_objects b c objects)) w),
      m,
    )
  ]

  unfoldable pub projects_handler : Handler
  projects_handler r w m = elim (meta_store.projects m) [
    | none ↦ (none, m)
    | some (err e) ↦ (some (write (lit "Error retrieving objects: " ++ message e) w), m)
    | some (ok projects) ↦ (
      some (
          show r (web.marshal_projects projects)
            (render (lit "projects.tmpl") (λ b c. web.execute_projects b c projects)) w),
      m,
    )
  ]

  unfoldable pub users_handler : Handler
  users_handler r w m = elim (meta_store.users m) [
    | err e ↦ (some (write (lit "Error retrieving users: " ++ message e) w), m)
    | ok users ↦ (
      some (
          show r (web.marshal_users users)
            (render (lit "users.tmpl") (λ b c. web.execute_users b c users)) w),
      m,
    )
  ]

  -- The end of a handler that changes the store: back to a page, or the error.
  unfoldable pub conclude :
      Request → Bytes → Bytes → ResponseWriter → Option Error × M → Option ResponseWriter × M
  conclude r page text w (none, m) = (some (web.redirect r page 302 w), m)
  conclude r page text w (some e, m) = (some (write (text ++ message e) w), m)

  unfoldable pub add_project : Handler
  add_project r w m =
      let name = web.form_value r (lit "name") in
      if name == []
      then (some (write (lit "Invalid project name: " ++ name) w), m)
      else conclude r (lit "/mgmt/projects") (lit "Error adding project: ") w
          (meta_store.add_project name m)

  -- `salt` is what the store draws for the new hash.
  unfoldable pub add_user_handler : Bytes → Handler
  add_user_handler salt r w m =
      let user = web.form_value r (lit "name") in
      let pass = web.form_value r (lit "password") in
      if (user == []) || (pass == [])
      then (some (write (lit "Invalid username or password") w), m)
      else conclude r (lit "/mgmt/users") (lit "Error adding user: ") w
          (meta_store.add_user salt user pass m)

  unfoldable pub del_user_handler : Handler
  del_user_handler r w m =
      let user = web.form_value r (lit "name") in
      if user == []
      then (some (write (lit "Invalid username") w), m)
      else conclude r (lit "/mgmt/users") (lit "Error deleting user: ") w
          (meta_store.delete_user user m)

  -- The answer of `searchOidHandler` about one object that matches.
  unfoldable pub found_oid : Request → MetaObject → ResponseWriter → ResponseWriter
  unfolding show_json
  found_oid r o w = show_json r (web.marshal_object o) w

  unfoldable pub search_loop : Request → Bytes → List MetaObject → ResponseWriter → ResponseWriter
  search_loop r searched [] w = w
  search_loop r searched (o ∷ os) w =
      search_loop r searched os (if contains o.oid searched then found_oid r o w else w)

  -- `opened` is what `FindMetaStore` returns, which is used although its error was answered: with an
  -- error it is no store, and Objects panics, which is `none`.
  unfoldable pub search_oid_handler : Result M → Request → ResponseWriter → Option ResponseWriter
  search_oid_handler opened r w =
      let searched = web.query r (lit "oid") in
      let w1 = if searched == [] then write_status status_text r 404 w else w in
      elim opened [
        | err e ↦ none
        | ok m ↦ elim (meta_store.objects m) [
          | none ↦ none
          | some (err e) ↦ some (write_status status_text r 404 w1)
          | some (ok objects) ↦ some (search_loop r searched objects w1)
        ]
      ]
