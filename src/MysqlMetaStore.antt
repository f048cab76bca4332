-- ===== src/MysqlMetaStore.antt =====
-- mysql_meta_store.go: the metadata store over MySQL. The package database/sql and the database are a
-- parameter.
pub mod Database
pub mod Put
use lfs_server_go.Prelude.{
  ℕ, zero, suc, Bool, true, false, not, Option, none, some, List, [], ◌∷◌, if◌then◌else◌,
}
use lfs_server_go.Text.{Bytes, lit, ◌==◌}
use lfs_server_go.Errors.{
  Error, Result, ok, err, forbidden, object_not_found, project_not_found, not_implemented,
}
use lfs_server_go.Types.{ℤ, pos, eq_int, RequestVars, MetaObject, MetaProject, MetaUser}
use lfs_server_go.Config.{Configuration, is_public}
use lfs_server_go.Ldap.{Directory, authenticate_ldap}
use lfs_server_go.Bolt.{Gob}
use lfs_server_go.MetaStore.{credentials}
use lfs_server_go.Panics.{Action, pure, ◌>>=◌, ◌>>◌, call, perror}
use Database.{SqlClient, Row}

-- What the store is used with: the settings and the libraries.
pub record MysqlEnv (S Conn : Type 0) : Type 0 where
  pub cfg : Configuration
  pub client : SqlClient S
  pub gob : Gob
  pub ldap : Directory Conn

abbrev pub object_of : Bytes → ℤ → MetaObject
object_of oid size = record { oid = oid; size = size; project_names = []; existing = false }

-- What the variables of a loop over rows hold after each Scan, whose errors are only logged.
unfoldable pub scan_rows : {A : Type 0} → List (Row A) → A → List A
scan_rows [] vars = []
scan_rows (row ∷ rows) vars = let held = (row vars).1 in held ∷ scan_rows rows held

-- The loop of `mapOid`, which stops at the first error of Scan.
unfoldable pub scan_all : {A : Type 0} → List (Row A) → A → Result (List A)
scan_all [] vars = ok []
scan_all (row ∷ rows) vars =
    let (failed, held) = row vars in
    let rest = scan_all rows held in
    elim failed [ some e ↦ err e | none ↦ elim rest [ err e ↦ err e | ok more ↦ ok (held ∷ more) ] ]

-- The loop over the counts in `findAllProjects`: whether it returns from the function.
unfoldable pub counts_none : List (Row ℤ) → ℤ → Bool
counts_none [] c = false
counts_none (row ∷ rows) c =
    let (failed, held) = row c in
    let later = counts_none rows held in
    elim failed [ some e ↦ true | none ↦ if eq_int held (pos 0) then true else later ]

-- The rest of `findOid`, after its Scan.
unfoldable pub scanned : Option Error × (Bytes × ℤ) → Result MetaObject
scanned (failed, (found, size)) = elim failed [
  | some e ↦ err e
  | none ↦ if found == [] then err object_not_found else ok (object_of found size)
]

module _ {S Conn : Type 0} (env : MysqlEnv S Conn) where
  open env use {cfg, client, gob, ldap}

  -- Without LDAP nobody is authenticated.
  unfoldable pub authenticate : Bytes → Bool
  unfolding is_public
  authenticate authorization =
      if is_public cfg
      then true
      else if authorization == []
      then false
      else elim (credentials authorization) [
        | none ↦ false
        | some (user, password) ↦
            if cfg.ldap.enabled then authenticate_ldap ldap cfg.ldap user password else false
      ]

  -- A query that failed leaves no rows to ask for the next, which panics (`none`).
  unfoldable pub find_all_oids : S → Option (Result (List MetaObject))
  unfolding scan_rows
  find_all_oids s = elim (client.all_oids s) [
    | err e ↦ none
    | ok rows ↦ some (ok (objects (scan_rows rows ([], pos 0))))
  ]
    where
      objects : List (Bytes × ℤ) → List MetaObject
      objects [] = []
      objects ((oid, size) ∷ more) = object_of oid size ∷ objects more

  unfoldable pub map_oid : ℤ → S → Result (List Bytes)
  unfolding scan_all
  map_oid id s = elim (client.project_oids id s) [ err e ↦ err e | ok rows ↦ scan_all rows [] ]

  -- The oids of a project, whose error is dropped.
  unfoldable pub project_of : ℤ × Bytes → S → MetaProject
  unfolding map_oid
  project_of (id, name) s = record {
    name = name;
    oids = elim (map_oid id s) [ err e ↦ [] | ok oids ↦ oids ];
  }

  -- Where there are no projects, neither a list nor an error.
  unfoldable pub find_all_projects : S → Option (Result (List MetaProject))
  unfolding counts_none scan_rows project_of
  find_all_projects s = elim (client.count_projects s) [
    | err e ↦ none
    | ok counts ↦
        if counts_none counts (pos 0) then some (ok []) else elim (client.all_projects s) [
          | err e ↦ none
          | ok rows ↦ elim (projects (scan_rows rows (pos 0, []))) [
            | [] ↦ some (err project_not_found)
            | p ∷ ps ↦ some (ok (p ∷ ps))
          ]
        ]
  ]
    where
      projects : List (ℤ × Bytes) → List MetaProject
      projects [] = []
      projects (row ∷ more) = project_of row s ∷ projects more

  unfoldable pub create_project : Bytes → S → Option Error × S
  create_project name = client.insert_project name

  -- The error of the insert is only logged.
  unfoldable pub create_oid : Bytes → ℤ → S → Option Error × S
  create_oid oid size s = (none, (client.insert_oid oid size s).1)

  unfoldable pub find_project : Bytes → S → Option (Result MetaProject)
  unfolding scan_rows
  find_project project_name s =
      if project_name == []
      then some (err project_not_found)
      else let (failed, (id, name)) = client.scan_project project_name s (pos 0, []) in
        elim failed [
          | some e ↦ some (err e)
          | none ↦ elim (client.project_oids id s) [
            | err e ↦ none
            | ok rows ↦
                if name == []
                then some (err project_not_found)
                else some (ok (record { name = name; oids = scan_rows rows [] }))
          ]
        ]

  -- Where the project is not found, its id is what Scan left of 0.
  unfoldable pub add_oid_to_project : Bytes → Bytes → S → Option Error × S
  add_oid_to_project oid project s =
      let (failed, (id, name)) = client.scan_project project s (pos 0, []) in
      client.insert_oid_map oid id s

  unfoldable pub find_oid : Bytes → S → Result MetaObject
  unfolding scanned
  find_oid oid s = scanned (client.scan_oid oid s ([], pos 0))

  unfoldable pub get : RequestVars → S → Result MetaObject
  get v s = if not (authenticate v.authorization) then err forbidden else elim (find_oid v.oid s) [
    | err e ↦ err e
    | ok r ↦
        let meta = object_of r.oid r.size in
        elim (gob.encode_object meta).1 [ some e ↦ err e | none ↦ ok meta ]
  ]

  -- What `Put` does to the project of the request: the error that it returns at once, or `none` where
  -- it goes on.
  unfoldable pub link : RequestVars → Action S (Option Error)
  unfolding add_oid_to_project perror
  link v s = if v.repo == [] then pure none s else elim (find_project v.repo s) [
    | none ↦ (none, s)
    | some (err e) ↦ pure (some project_not_found) s
    | some (ok project) ↦ (call (add_oid_to_project v.oid v.repo) >>= perror >> pure none) s
  ]

  abbrev pub encoded : RequestVars → Result MetaObject
  encoded v = elim (gob.encode_object (object_of v.oid v.size)).1 [
    | some e ↦ err e
    | none ↦ ok (object_of v.oid v.size)
  ]

  -- `Put` of an oid that is not there.
  unfoldable pub put_new : RequestVars → Action S (Result MetaObject)
  unfolding create_oid perror link
  put_new v = do
    call (create_oid v.oid v.size) >>= perror
    stop ← link v
    pure (elim stop [ some e ↦ err e | none ↦ encoded v ])

  unfoldable pub put : RequestVars → Action S (Result MetaObject)
  put v s =
      if not (authenticate v.authorization) then (some (err forbidden), s) else elim (get v s) [
        | ok meta ↦ (some (ok (record meta { existing = true })), s)
        | err e ↦ put_new v s
      ]

  unfoldable pub add_user : Bytes → Bytes → S → Option Error × S
  add_user user pass s = (some not_implemented, s)

  unfoldable pub add_project : Bytes → S → Option Error × S
  unfolding create_project
  add_project name = create_project name

  unfoldable pub delete_user : Bytes → S → Option Error × S
  delete_user user s = (some not_implemented, s)

  unfoldable pub all_users : S → Result (List MetaUser)
  all_users s = err not_implemented

  unfoldable pub all_objects : S → Option (Result (List MetaObject))
  unfolding find_all_oids
  all_objects s = find_all_oids s

  unfoldable pub projects : S → Option (Result (List MetaProject))
  unfolding find_all_projects
  projects s = find_all_projects s
