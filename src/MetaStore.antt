-- ===== src/MetaStore.antt =====
-- meta_store.go: the metadata store over a bolt database. A method takes the database and returns
-- it beside its result; `View` transactions change nothing and return the result alone.
pub mod Auth
pub mod Invariant
pub mod Objects
pub mod Users
pub mod Transactions
pub mod Sessions
pub mod History
pub mod Listing
pub mod Creation
use lfs_server_go.Prelude.{
  ℕ, suc, Bool, true, false, not, Option, none, some, List, [], ◌∷◌, map, take, drop, if◌then◌else◌,
}
use lfs_server_go.Text.{Bytes, lit, ◌==◌, has_prefix, trim_prefix, index_byte}
use lfs_server_go.Base64.{decode}
use lfs_server_go.Errors.{
  Error, Result, ok, err, ◌>>=◌, forbidden, no_bucket, object_not_found, project_not_found,
  not_implemented, mysql_not_implemented,
}
use lfs_server_go.Types.{RequestVars, MetaObject, MetaProject, MetaUser}
use lfs_server_go.Config.{Configuration, is_public}
use lfs_server_go.Ldap.{Directory, authenticate_ldap}
use lfs_server_go.Bcrypt.{Hashing, encrypt_pass, check_pass}
use lfs_server_go.Bolt.{Bucket, users, objects, projects, Bolt, Gob, bytes_of, update}

-- What the store is used with: the settings and the libraries.
pub record Env (DB Conn : Type 0) : Type 0 where
  pub cfg : Configuration
  pub bolt : Bolt DB
  pub gob : Gob
  pub hashing : Hashing
  pub ldap : Directory Conn

abbrev pub basic : Bytes
basic = lit "Basic "

-- The user and the password of an HTTP Basic authorization, where it is one.
unfoldable pub credentials : Bytes → Option (Bytes × Bytes)
credentials authorization =
    if not (has_prefix authorization basic)
    then none
    else elim (decode (trim_prefix authorization basic)) [
      | none ↦ none
      | some cs ↦ elim (index_byte cs b':') [
        | none ↦ none
        | some i ↦ some (take i cs, drop (suc i) cs)
      ]
    ]

abbrev pub new_project : RequestVars → MetaProject
new_project rv = record { name = rv.repo; oids = rv.oid ∷ [] }

abbrev pub new_object : RequestVars → MetaObject
new_object rv = record {
  oid = rv.oid;
  size = rv.size;
  project_names = rv.repo ∷ [];
  existing = false;
}

abbrev pub user_named : Bytes × Bytes → MetaUser
user_named (k, v) = record { name = k; password = [] }

-- `ForEach` stops at the first value that does not decode, and its error is dropped.
unfoldable pub decoded {ℓ} : {A : Type ℓ} → (Bytes → Result A) → List (Bytes × Bytes) → List A
decoded dec [] = []
decoded dec ((k, v) ∷ rest) =
    let later = decoded dec rest in elim (dec v) [ ok a ↦ a ∷ later | err e ↦ [] ]

module _ {DB Conn : Type 0} (env : Env DB Conn) where
  open env use {cfg, bolt, gob, hashing, ldap}

  -- The bytes that a View transaction reads at a key of a bucket.
  abbrev read : DB → Bucket → Bytes → Result Bytes
  read db c k = if bolt.has_bucket db c then ok (bytes_of (bolt.get db c k)) else err no_bucket

  -- The user's hash, "" where there is none.
  unfoldable pub stored_hash : Bytes → DB → Bytes
  stored_hash user db = elim (read db users user) [ ok v ↦ v | err e ↦ [] ]

  unfoldable pub check_user : Bytes → Bytes → DB → Bool
  check_user user password db =
      if cfg.ldap.enabled
      then authenticate_ldap ldap cfg.ldap user password
      else check_pass hashing (stored_hash user db) password

  unfoldable pub authenticate : Bytes → DB → Bool
  unfolding is_public
  authenticate authorization db =
      if is_public cfg
      then true
      else if authorization == []
      then false
      else elim (credentials authorization) [
        | none ↦ false
        | some (user, password) ↦ check_user user password db
      ]

  unfoldable pub find_object : Bytes → DB → Result MetaObject
  find_object oid db = do
    value ← read db objects oid
    elim value [ [] ↦ err object_not_found | c ∷ rest ↦ gob.decode_object (c ∷ rest) ]

  unfoldable pub get : RequestVars → DB → Result MetaObject
  get rv db =
      if not (authenticate rv.authorization db) then err forbidden else find_object rv.oid db

  unfoldable pub find_project : Bytes → DB → Result MetaProject
  find_project name db = do
    value ← read db projects name
    project ← elim value [ [] ↦ err project_not_found | c ∷ rest ↦ gob.decode_project (c ∷ rest) ]
    if not (project.name == []) then ok project else err project_not_found

  -- The function of a transaction that writes one pair.
  abbrev write : Bucket → Bytes → Bytes → DB → Result DB
  write c k v tx = if bolt.has_bucket tx c then bolt.put tx c k v else err no_bucket

  unfoldable pub create_project : RequestVars → DB → Option Error × DB
  create_project rv db = elim (find_project rv.repo db) [
    | ok project ↦ (none, db)
    | err e ↦
        if rv.repo == []
        then (none, db)
        else update bolt (write projects rv.repo (gob.encode_project (new_project rv)).0) db
  ]

  -- The rest of `Put` once there is a project.
  unfoldable pub put_object : RequestVars → Option Error × DB → Result MetaObject × DB
  put_object rv (some e, db) = (err e, db)
  put_object rv (none, db) =
      let (failed, db') =
        update bolt (write objects rv.oid (gob.encode_object (new_object rv)).0) db in
      (elim failed [ none ↦ ok (new_object rv) | some e ↦ err e ], db')

  -- `Put` of an oid that is not there.
  unfoldable pub put_new : RequestVars → DB → Result MetaObject × DB
  put_new rv db = elim (gob.encode_object (new_object rv)).1 [
    | some e ↦ (err e, db)
    | none ↦ put_object rv (if not (rv.repo == []) then create_project rv db else (none, db))
  ]

  unfoldable pub put : RequestVars → DB → Result MetaObject × DB
  put rv db =
      if not (authenticate rv.authorization db) then (err forbidden, db) else elim (get rv db) [
        | ok meta ↦ (ok (record meta { existing = true }), db)
        | err e ↦ put_new rv db
      ]

  -- The transaction of `AddUser`: a user who is already there keeps the old hash.
  unfoldable pub add_user_tx : Bytes → Bytes → Bytes → DB → Result DB
  add_user_tx salt user pass tx = if not (bolt.has_bucket tx users) then err no_bucket else do
    encrypted_pass ← encrypt_pass hashing salt pass
    elim (bytes_of (bolt.get tx users user)) [
      | [] ↦ bolt.put tx users user encrypted_pass
      | c ∷ rest ↦ ok tx
    ]

  -- `salt` is what bcrypt draws for the new hash.
  unfoldable pub add_user : Bytes → Bytes → Bytes → DB → Option Error × DB
  add_user salt user pass db =
      if cfg.ldap.enabled
      then (some not_implemented, db)
      else update bolt (add_user_tx salt user pass) db

  unfoldable pub delete_user_tx : Bytes → DB → Result DB
  delete_user_tx user tx =
      if not (bolt.has_bucket tx users) then err no_bucket else bolt.delete tx users user

  unfoldable pub delete_user : Bytes → DB → Option Error × DB
  delete_user user db =
      if cfg.ldap.enabled then (some not_implemented, db) else update bolt (delete_user_tx user) db

  unfoldable pub all_users : DB → Result (List MetaUser)
  all_users db =
      if cfg.ldap.enabled
      then err not_implemented
      else if bolt.has_bucket db users
      then ok (map user_named (bolt.entries db users))
      else err no_bucket

  unfoldable pub all_objects : DB → Result (List MetaObject)
  unfolding decoded
  all_objects db =
      if bolt.has_bucket db objects
      then ok (decoded gob.decode_object (bolt.entries db objects))
      else err no_bucket

  unfoldable pub all_projects : DB → Result (List MetaProject)
  unfolding decoded
  all_projects db =
      if bolt.has_bucket db projects
      then ok (decoded gob.decode_project (bolt.entries db projects))
      else err no_bucket

  -- Only the MySQL store adds projects.
  unfoldable pub add_project : Bytes → DB → Option Error × DB
  add_project name db = (some mysql_not_implemented, db)

  unfoldable pub make_buckets : DB → Result DB
  make_buckets tx = do
    tx1 ← bolt.create_bucket_if_not_exists tx users
    tx2 ← bolt.create_bucket_if_not_exists tx1 objects
    bolt.create_bucket_if_not_exists tx2 projects

  -- The error of the transaction that makes the buckets is dropped.
  unfoldable pub new_meta_store : Bytes → Result DB
  new_meta_store db_file = do db ← bolt.open_file db_file; ok (update bolt make_buckets db).1
