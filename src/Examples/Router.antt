-- ===== src/Examples/Router.antt =====
-- The theorem on the routes at a router that knows each path by its template.
use mathlib.Core.List.Memᴰ
use lfs_server_go.Prelude.{
  ◌≡◌, refl, ap, ◌∙◌, inl, inr, Option, none, some, [], ◌∷◌, arith, if◌then◌else◌,
}
use lfs_server_go.Text.{Bytes, lit, ◌==◌}
use lfs_server_go.Errors.{ok}
use lfs_server_go.Types.{RequestVars}
use lfs_server_go.MetaStore.{authenticate}
use lfs_server_go.Server.{Request}
use lfs_server_go.Handlers.Lfs.{bolt_store-IsGuarded}
use lfs_server_go.Mgmt.{Web}
use lfs_server_go.Routes.{Mux, serve_http}
use lfs_server_go.Routes.Unauthorized.{IsUnauthorized, NoneAdmitted, serve_http-Unchanged}
use lfs_server_go.Examples.Setup.{server_env, one_user}
use lfs_server_go.Examples.Disk.{no_files}
use lfs_server_go.Examples.Requests.{lfs, request, vars_of, not_admitted}
use lfs_server_go.Examples.Admin.{web}

-- A browser without a user and a password.
abbrev bare : Web
bare = record web { basic_auth = λ r. none }

abbrev exact : Mux
exact = record {
  match_path = λ template path. if template == path then some (λ name. []) else none;
  not_found = λ w. w;
}

abbrev anonymous_post : Request
anonymous_post = request (lit "POST") []

abbrev authorization_of : Option RequestVars → Bytes
authorization_of none = []
authorization_of (some v) = v.authorization

sent :
    NoneAdmitted lfs bare
      (authenticate server_env)
      (bolt_store-IsGuarded server_env)
      one_user
      (some (vars_of []) ∷ [])
sent v m = elim (Memᴰ.cases_cons m) [
  | inl here ↦ ap (λ o. authenticate server_env (authorization_of o) one_user) here ∙ not_admitted
  | inr later ↦ absurd (Memᴰ.not-nil later)
]

stranger :
    IsUnauthorized lfs bare
      (authenticate server_env)
      (bolt_store-IsGuarded server_env)
      anonymous_post
      one_user
stranger = record {
  header = not_admitted;
  objects = sent;
  admin = λ a. absurd (ground (arith, a.named));
}

serve_http-Unchanged_example :
    ((serve_http lfs bare []
        (ok one_user)
        exact
        (lit "/{namespace}/{repo}/objects")
        anonymous_post
        one_user
        no_files).meta
      ≡ one_user)
    × ((serve_http lfs bare []
          (ok one_user)
          exact
          (lit "/{namespace}/{repo}/objects")
          anonymous_post
          one_user
          no_files).content
        ≡ no_files)
serve_http-Unchanged_example =
    serve_http-Unchanged lfs bare (authenticate server_env) (bolt_store-IsGuarded server_env) []
      (ok one_user) (record { reads_header = λ r r' same. refl }) exact
      (lit "/{namespace}/{repo}/objects") anonymous_post one_user no_files stranger
