-- ===== src/Handlers/Links.antt =====
-- What unpackbatch and Represent of server.go make of an object of a batch, written out.
use lfs_server_go.Prelude.{
  ◌≡◌, refl, inl, inr, Bool, not, Bool-cases, some, List, [], ◌∷◌, ◌++◌, map, if◌then◌else◌,
}
use lfs_server_go.Text.{Bytes, lit, contains}
use lfs_server_go.Types.{ℤ, RequestVars, MetaObject, Link, Representation}
use lfs_server_go.Config.{Configuration, is_https, is_public}
use lfs_server_go.Server.{Request, represent, object_link, link_header, all_with_route}

-- An object of a batch with what the request says of it.
abbrev pub asked : Request → RequestVars → RequestVars
asked r v = record {
  oid = v.oid;
  size = v.size;
  user = v.user;
  password = v.password;
  namespace = r.namespace;
  repo = r.repo;
  authorization = r.authorization;
}

pub all_with_route-some :
    (r : Request) (vs : List RequestVars)
    → all_with_route r (map some vs) ≡ some (map (λ v. some (asked r v)) vs)
unfolding all_with_route
all_with_route-some r [] = refl
all_with_route-some r (v ∷ vs) = rw (all_with_route-some r vs) refl

-- The link of an object: its address under the scheme of the settings where that has "https" in it,
-- under http where not, and the headers to send with it, the authorization only in private mode.
abbrev pub link_of : Configuration → RequestVars → Link
link_of cfg v = record {
  href =
      (if contains cfg.scheme (lit "https") then cfg.scheme else lit "http")
      ++ lit "://"
      ++ cfg.host
      ++ (lit "/" ++ v.namespace ++ lit "/" ++ v.repo ++ lit "/objects/" ++ v.oid);
  header =
      (if cfg.public
        then (lit "Accept", lit "application/vnd.git-lfs") ∷ []
        else (lit "Accept", lit "application/vnd.git-lfs")
          ∷ (lit "Authorization", v.authorization)
          ∷ []);
}

-- An object with one link, of this name, and a size.
abbrev pub linked : Bytes → Configuration → RequestVars → Bytes → ℤ → Representation
linked name cfg v oid size = record { oid = oid; size = size; links = (name, link_of cfg v) ∷ [] }

pub represent_link :
    (cfg : Configuration) (v : RequestVars) (meta : MetaObject) (download : Bool)
    → represent cfg v meta download (not download)
      ≡ linked (if download then lit "download" else lit "upload") cfg v meta.oid meta.size
unfolding represent object_link link_header is_https is_public
represent_link cfg v meta download = elim (Bool-cases download) [
  | inl down ↦ elim (Bool-cases (contains cfg.scheme (lit "https"))) [
    | inl https ↦ elim (Bool-cases cfg.public) [
      | inl public ↦ rw (down, https, public) refl
      | inr private ↦ rw (down, https, private) refl
    ]
    | inr http ↦ elim (Bool-cases cfg.public) [
      | inl public ↦ rw (down, http, public) refl
      | inr private ↦ rw (down, http, private) refl
    ]
  ]
  | inr up ↦ elim (Bool-cases (contains cfg.scheme (lit "https"))) [
    | inl https ↦ elim (Bool-cases cfg.public) [
      | inl public ↦ rw (up, https, public) refl
      | inr private ↦ rw (up, https, private) refl
    ]
    | inr http ↦ elim (Bool-cases cfg.public) [
      | inl public ↦ rw (up, http, public) refl
      | inr private ↦ rw (up, http, private) refl
    ]
  ]
]
