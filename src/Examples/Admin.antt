-- ===== src/Examples/Admin.antt =====
-- The theorems on mgmt.go at requests of the administrator.
use lfs_server_go.Prelude.{◌≡◌, refl, false, none, some, [], ◌∷◌, if◌then◌else◌}
use lfs_server_go.Text.{lit, ◌==◌}
use lfs_server_go.Errors.{ok, err, object_not_found}
use lfs_server_go.Types.{MetaObject, pos}
use lfs_server_go.Server.{App, Request, ResponseWriter, fresh, write_header}
use lfs_server_go.Mgmt.{Web, basic_auth, search_oid_handler}
use lfs_server_go.Mgmt.Search.{matching, concat_of, search_oid_handler-body}
use lfs_server_go.Examples.Setup.{server_env}
use lfs_server_go.Examples.Requests.{json, no_text, request}

-- The administrator's credentials with every request, and a form with the user "v" and the
-- password "q".
abbrev pub web : Web
web = record {
  basic_auth = λ r. some (lit "admin", lit "secret");
  form_value = λ r name. if name == lit "name" then lit "v" else lit "q";
  query = λ r name. lit "ab";
  redirect = λ r page n w. write_header n w;
  marshal_object = λ o. ok o.oid;
  marshal_objects = λ os. ok [];
  marshal_projects = λ ps. ok [];
  marshal_users = λ us. ok [];
  marshal_index = ok [];
  template = λ name. ok [];
  css = λ file. ok [];
  js = λ file. ok [];
  execute_index = λ b c. ([], none);
  execute_objects = λ b c os. ([], none);
  execute_projects = λ b c ps. ([], none);
  execute_users = λ b c us. ([], none);
}

abbrev form : Request
form = request (lit "POST") []

abbrev some_object : MetaObject
some_object = record { oid = lit "ab12"; size = pos 3; project_names = []; existing = false }

-- A store of one object.
abbrev shelf : App Unit Unit
shelf = record {
  content_store = record {
    get = λ m c. err object_not_found;
    put = λ m r c. (none, c);
    exists = λ m c. false;
  };
  meta_store = record {
    put = λ rv m. (some (ok some_object), m);
    get = λ rv m. ok some_object;
    delete_user = λ u m. (none, m);
    add_user = λ s u p m. (none, m);
    add_project = λ p m. (none, m);
    users = λ m. ok [];
    objects = λ m. some (ok (some_object ∷ []));
    projects = λ m. some (ok []);
  };
  cfg = server_env.cfg;
  json = json;
  status_text = no_text;
}

asked : (web.query form (lit "oid") == []) ≡ false
unfolding ◌==◌
asked = refl

search_oid_handler-body_example :
    (w : ResponseWriter) × (search_oid_handler shelf web (ok tt) form fresh ≡ some w)
    × (w.body ≡ concat_of (λ o. o.oid) (matching (lit "ab") (some_object ∷ [])))
search_oid_handler-body_example =
    search_oid_handler-body shelf web (λ o. o.oid) (λ o. refl) tt form (some_object ∷ []) asked refl
