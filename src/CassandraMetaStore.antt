-- ===== src/CassandraMetaStore.antt =====
-- cassandra_meta_store.go: the metadata store over Cassandra. The libraries gocql and cqlr, and the
-- cluster behind them, are a parameter.
pub mod Session
pub mod Links
pub mod Put
pub mod Users
use lfs_server_go.Prelude.{
  ℕ, zero, suc, Bool, true, false, not, Option, none, some, List, [], ◌∷◌, ◌++◌, map, ltb,
  if◌then◌else◌,
}
use lfs_server_go.Text.{Bytes, lit, ◌==◌}
use lfs_server_go.Errors.{
  Error, Result, ok, err, forbidden, object_not_found, project_not_found, user_not_found,
  not_implemented, mysql_not_implemented,
}
use lfs_server_go.Types.{ℤ, RequestVars, MetaObject, MetaProject, MetaUser}
use lfs_server_go.Config.{Configuration, is_public}
use lfs_server_go.Ldap.{Directory, authenticate_ldap}
use lfs_server_go.Bcrypt.{Hashing, encrypt_pass, check_pass}
use lfs_server_go.Bolt.{Gob}
use lfs_server_go.MetaStore.{credentials}
use lfs_server_go.Panics.{Action, pure, panic, ◌>>=◌, ◌>>◌, call, perror}
use Session.{CqlSession, add_oid_text, remove_oid_text}

-- What the store is used with: the settings and the libraries.
pub record CassandraEnv (S Conn : Type 0) : Type 0 where
  pub cfg : Configuration
  pub session : CqlSession S
  pub gob : Gob
  pub hashing : Hashing
  pub ldap : Directory Conn

abbrev pub object_of : Bytes → ℤ → MetaObject
object_of oid size = record { oid = oid; size = size; project_names = []; existing = false }

abbrev pub blank_user : MetaUser
blank_user = record { name = []; password = [] }

-- The loop of `Users`. Each turn appends a pointer to the one variable `mu` that it scans into: what
-- is left is the variable and the number of pointers to it.
unfoldable pub scan_users : List Bytes → MetaUser → ℕ → MetaUser × ℕ
scan_users [] mu pointers = (mu, pointers)
scan_users (name ∷ names) mu pointers = scan_users names (record mu { name = name }) (suc pointers)

abbrev pub replicate : ℕ → MetaUser → List MetaUser
replicate n u = elim n [ zero ↦ [] | suc (m → rest) ↦ u ∷ rest ]

module _ {S Conn : Type 0} (env : CassandraEnv S Conn) where
  open env use {cfg, session, gob, hashing, ldap}

  unfoldable pub find_user : Bytes → S → Result MetaUser
  find_user user s = elim (session.scan_user user s) [
    | none ↦ err user_not_found
    | some mu ↦ if mu.name == [] then err user_not_found else ok mu
  ]

  unfoldable pub check_user : Bytes → Bytes → S → Bool
  check_user user password s =
      if cfg.ldap.enabled
      then authenticate_ldap ldap cfg.ldap user password
      else elim (find_user user s) [
        | err e ↦ false
        | ok mu ↦ check_pass hashing mu.password password
      ]

  unfoldable pub authenticate : Bytes → S → Bool
  unfolding is_public
  authenticate authorization s =
      if is_public cfg
      then true
      else if authorization == []
      then false
      else elim (credentials authorization) [
        | none ↦ false
        | some (user, password) ↦ check_user user password s
      ]

  unfoldable pub find_project : Bytes → S → Result MetaProject
  find_project name s =
      if name == [] then err project_not_found else elim (session.scan_project name s) [
        | none ↦ err project_not_found
        | some project ↦ if project.name == [] then err project_not_found else ok project
      ]

  unfoldable pub find_oid : Bytes → S → Result MetaObject
  find_oid oid s = elim (session.scan_oid oid s) [
    | none ↦ err object_not_found
    | some (found, size) ↦ if found == [] then err object_not_found else ok (object_of found size)
  ]

  -- The type assertion on the counter panics where the count failed.
  unfoldable pub create_project : Bytes → Action S (Option Error)
  create_project project s = elim (session.count_projects project s) [
    | none ↦ (none, s)
    | some n ↦ if ltb 0 n then (some none, s) else call (session.insert_project project) s
  ]

  unfoldable pub add_oid_to_project : Bytes → Bytes → S → Option Error × S
  add_oid_to_project oid project = session.run_text (add_oid_text oid project)

  unfoldable pub create_oid : Bytes → ℤ → S → Option Error × S
  create_oid oid size = session.insert_oid oid size

  unfoldable pub remove_oid : Bytes → S → Option Error × S
  remove_oid oid = session.delete_oid oid

  unfoldable pub remove_oid_from_project : Bytes → Bytes → S → Option Error × S
  remove_oid_from_project oid project = session.run_text (remove_oid_text oid project)

  unfoldable pub remove_project : Bytes → S → Option Error × S
  remove_project name = session.delete_project name

  unfoldable pub get : RequestVars → S → Result MetaObject
  get v s =
      if not (authenticate v.authorization s) then err forbidden else elim (find_oid v.oid s) [
        | err e ↦ err e
        | ok r ↦
            let meta = object_of r.oid r.size in
            elim (gob.encode_object meta).1 [ some e ↦ err e | none ↦ ok meta ]
      ]

  -- `Put` finds the project of the request or makes it.
  unfoldable pub ensure_project : Bytes → Action S (Unit {0})
  unfolding create_project perror
  ensure_project repo s = elim (find_project repo s) [
    | ok project ↦ pure tt s
    | err e ↦ (create_project repo >>= perror) s
  ]

  -- What `Put` does to the project of the request.
  unfoldable pub link : RequestVars → Action S (Unit {0})
  unfolding ensure_project add_oid_to_project perror
  link v = do ensure_project v.repo; call (add_oid_to_project v.oid v.repo) >>= perror

  unfoldable pub link_named : RequestVars → Action S (Unit {0})
  link_named v = if not (v.repo == []) then link v else pure tt

  abbrev pub encoded : RequestVars → Result MetaObject
  encoded v = elim (gob.encode_object (object_of v.oid v.size)).1 [
    | some e ↦ err e
    | none ↦ ok (object_of v.oid v.size)
  ]

  -- `Put` of an oid that is not there.
  unfoldable pub put_new : RequestVars → Action S (Result MetaObject)
  unfolding create_oid perror link_named
  put_new v = do call (create_oid v.oid v.size) >>= perror; link_named v; pure (encoded v)

  unfoldable pub put : RequestVars → Action S (Result MetaObject)
  put v s =
      if not (authenticate v.authorization s) then (some (err forbidden), s) else elim (get v s) [
        | ok meta ↦ (some (ok (record meta { existing = true })), s)
        | err e ↦ put_new v s
      ]

  -- `salt` is what bcrypt draws for the new hash.
  unfoldable pub add_user : Bytes → Bytes → Bytes → S → Option Error × S
  add_user salt user pass s =
      if cfg.ldap.enabled then (some not_implemented, s) else elim (find_user user s) [
        | ok mu ↦ (none, s)
        | err _ ↦ elim (encrypt_pass hashing salt pass) [
          | err e ↦ (some e, s)
          | ok encrypted_pass ↦ session.insert_user user encrypted_pass s
        ]
      ]

  unfoldable pub delete_user : Bytes → S → Option Error × S
  delete_user user s =
      if cfg.ldap.enabled then (some not_implemented, s) else session.delete_user user s

  unfoldable pub all_users : S → Result (List MetaUser)
  unfolding scan_users
  all_users s =
      if cfg.ldap.enabled
      then err not_implemented
      else let (mu, pointers) = scan_users (session.all_users s) blank_user 0 in
        ok (replicate pointers mu)

  unfoldable pub find_all_oids : S → Result (List MetaObject)
  find_all_oids s = ok (map (λ (r : Bytes × ℤ). object_of r.0 r.1) (session.all_oids s))

  unfoldable pub find_all_projects : S → Result (List MetaProject)
  find_all_projects s = elim (session.all_projects s) [
    | [] ↦ err project_not_found
    | p ∷ ps ↦ ok (p ∷ ps)
  ]

  unfoldable pub all_objects : S → Result (List MetaObject)
  unfolding find_all_oids
  all_objects s = find_all_oids s

  unfoldable pub all_projects : S → Result (List MetaProject)
  unfolding find_all_projects
  all_projects s = find_all_projects s

  unfoldable pub add_project : Bytes → S → Option Error × S
  add_project name s = (some mysql_not_implemented, s)
