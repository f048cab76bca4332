-- ===== src/Server.antt =====
-- server.go: requests, responses, the stores as the handlers see them, and what a handler makes
-- of a request and of an object.
pub mod Matching
pub mod RequestLog
use lfs_server_go.Prelude.{ℕ, Bool, not, Option, none, some, List, [], ◌∷◌, ◌++◌, if◌then◌else◌}
use mathlib.Core.Option
use lfs_server_go.Text.{Bytes, lit, ◌==◌, has_suffix, before}
use lfs_server_go.Errors.{Error, Result, ok, err}
use lfs_server_go.Types.{pos, RequestVars, MetaObject, MetaProject, MetaUser, Link, Representation}
use lfs_server_go.Config.{Configuration, is_https, is_public}
use lfs_server_go.ContentStore.{Reader}

-- `GenericMetaStore` without Close, over the states of a store. AddUser takes the salt that the
-- store draws.
pub record GenericMetaStore (M : Type 0) : Type 0 where
  -- `none` where it panics
  pub put : RequestVars → M → Option (Result MetaObject) × M
  pub get : RequestVars → M → Result MetaObject
  pub delete_user : Bytes → M → Option Error × M
  pub add_user : (salt user pass : Bytes) → M → Option Error × M
  pub add_project : Bytes → M → Option Error × M
  pub users : M → Result (List MetaUser)
  pub objects : M → Option (Result (List MetaObject))
  pub projects : M → Option (Result (List MetaProject))

-- `GenericContentStore`, over the states of a store.
pub record GenericContentStore (C : Type 0) : Type 0 where
  pub get : MetaObject → C → Result Reader
  pub put : MetaObject → Reader → C → Option Error × C
  pub exists : MetaObject → C → Bool

-- What the handlers use of encoding/json: the two decoders, with what is in the variable after an
-- error (a nil of `Objects` is `none`), and what the encoder writes.
pub record Json : Type 0 where
  pub decode_request_vars : Reader → Result RequestVars
  pub decode_batch_vars : Reader → List (Option RequestVars) × Option Error
  pub encode_representation : Representation → Bytes
  pub encode_objects : List Representation → Bytes

-- `App` and what it is used with; `status_text` is http.StatusText.
pub record App (M C : Type 0) : Type 0 where
  pub content_store : GenericContentStore C
  pub meta_store : GenericMetaStore M
  pub cfg : Configuration
  pub json : Json
  pub status_text : ℕ → Bytes

-- A request after routing: the variables of the route, the headers that the handlers read (the
-- lines of Accept, and Authorization), and the body.
pub record Request : Type 0 where
  pub method : Bytes
  pub namespace : Bytes
  pub repo : Bytes
  pub oid : Bytes
  pub accept : List Bytes
  pub authorization : Bytes
  pub body : Reader

-- `http.ResponseWriter`: the status once it is sent, the headers that go with it, and the body.
pub record ResponseWriter : Type 0 where
  pub status : Option ℕ
  pub header : List (Bytes × Bytes)
  pub body : Bytes

abbrev pub fresh : ResponseWriter
fresh = record { status = none; header = []; body = [] }

-- The code that the client gets.
abbrev pub code_of : ResponseWriter → ℕ
code_of w = elim w.status [ none ↦ 200 | some n ↦ n ]

-- The code of the answer, if there is one.
abbrev pub reply_code : Option ResponseWriter → Option ℕ
reply_code none = none
reply_code (some w) = some (code_of w)

-- `Header().Set(k, v)`, which does nothing once the headers are sent.
unfoldable pub set_header : Bytes → Bytes → ResponseWriter → ResponseWriter
set_header k v w = elim w.status [ none ↦ record w { header = (k, v) ∷ w.header } | some n ↦ w ]

-- `WriteHeader(n)`, which does nothing the second time.
unfoldable pub write_header : ℕ → ResponseWriter → ResponseWriter
write_header n w = elim w.status [ none ↦ record w { status = some n } | some m ↦ w ]

-- `Write`, which sends status 200 first where none is sent.
unfoldable pub write : Bytes → ResponseWriter → ResponseWriter
write b w = record w { status = some (code_of w); body = w.body ++ b }

abbrev pub content_media_type : Bytes
content_media_type = lit "application/vnd.git-lfs"

abbrev pub meta_media_type : Bytes
meta_media_type = content_media_type ++ lit "+json"

-- `Header.Get`: the first line, "" where there is none.
abbrev pub first_line : List Bytes → Bytes
first_line [] = []
first_line (l ∷ ls) = l

unfoldable pub media_type : Request → Bytes
media_type r = before (first_line r.accept) b';'

unfoldable pub content_matcher : Request → Bool
content_matcher r = media_type r == content_media_type

unfoldable pub meta_matcher : Request → Bool
meta_matcher r = media_type r == meta_media_type

unfoldable pub object_link : Configuration → RequestVars → Bytes
object_link cfg rv =
    let path = lit "/" ++ rv.namespace ++ lit "/" ++ rv.repo ++ lit "/objects/" ++ rv.oid in
    if is_https cfg
    then cfg.scheme ++ lit "://" ++ cfg.host ++ path
    else lit "http://" ++ cfg.host ++ path

unfoldable pub link_header : Configuration → RequestVars → List (Bytes × Bytes)
link_header cfg rv =
    (lit "Accept", content_media_type)
    ∷ (if not (is_public cfg) then (lit "Authorization", rv.authorization) ∷ [] else [])

unfoldable pub represent : Configuration → RequestVars → MetaObject → Bool → Bool → Representation
represent cfg rv meta download upload =
    let link : Link = record { href = object_link cfg rv; header = link_header cfg rv } in
    record {
      oid = meta.oid;
      size = meta.size;
      links =
          (if download then (lit "download", link) ∷ [] else [])
          ++ (if upload then (lit "upload", link) ∷ [] else []);
    }

-- The variables of the route and the header.
abbrev pub route_vars : Request → RequestVars
route_vars r = record {
  oid = r.oid;
  size = pos 0;
  user = [];
  password = [];
  namespace = r.namespace;
  repo = r.repo;
  authorization = r.authorization;
}

unfoldable pub unpack : Json → Request → RequestVars
unpack json r =
    if r.method == lit "POST"
    then elim (json.decode_request_vars r.body) [
      | err e ↦ route_vars r
      | ok p ↦ record (route_vars r) { oid = p.oid; size = p.size }
    ]
    else route_vars r

-- The fields that `unpackbatch` writes over what the client sent.
abbrev pub with_route : Request → RequestVars → RequestVars
with_route r v = record v {
  namespace = r.namespace;
  repo = r.repo;
  authorization = r.authorization;
}

-- The loop of `unpackbatch`; writing to a nil object panics, which is `none`.
unfoldable pub all_with_route :
    Request → List (Option RequestVars) → Option (List (Option RequestVars))
all_with_route r [] = some []
all_with_route r (none ∷ vs) = none
all_with_route r (some v ∷ vs) =
    Option.map (λ rest. some (with_route r v) ∷ rest) (all_with_route r vs)

unfoldable pub unpackbatch : Json → Request → Option (List (Option RequestVars))
unpackbatch json r =
    let (vs, failed) = json.decode_batch_vars r.body in
    elim failed [ some e ↦ some vs | none ↦ all_with_route r vs ]

module _ (status_text : ℕ → Bytes) (r : Request) where
  unfoldable pub write_status : ℕ → ResponseWriter → ResponseWriter
  write_status n w =
      let text = status_text n in
      let message =
        if has_suffix (media_type r) (lit "+json")
        then lit "{\"message\":\"" ++ text ++ lit "\"}"
        else text in
      write message (write_header n w)

  unfoldable pub require_auth : ResponseWriter → ResponseWriter
  require_auth w =
      write_status 401 (set_header (lit "Lfs-Authenticate") (lit "Basic realm=lfs-server-go") w)
