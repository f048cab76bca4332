-- ===== src/MysqlMetaStore/Database.antt =====
-- The database of mysql_meta_store.go, the package database/sql with the driver, and what the store
-- relies on of them; the tables of mysql_service.go.
use lfs_server_go.Prelude.{◌≤◌, ◌<◌, length, All, Option, none, List, ◌≡◌}
use lfs_server_go.Text.{Bytes}
use lfs_server_go.Errors.{Error, Result}
use lfs_server_go.Types.{ℤ}

-- `rows.Scan`: the error, and what the variables hold then, given what they held.
abbrev pub Row : Type 0 → Type 0
Row A = A → Option Error × A

-- The statements, by the values bound to them. The result of a query is its error or its rows.
pub record SqlClient (S : Type 0) : Type 0 where
  -- select oid, size from oids
  pub all_oids : S → Result (List (Row (Bytes × ℤ)))
  -- select oid from oid_maps where projectID = ?
  pub project_oids : ℤ → S → Result (List (Row Bytes))
  -- select count(*) as count from projects
  pub count_projects : S → Result (List (Row ℤ))
  -- select id, name from projects
  pub all_projects : S → Result (List (Row (ℤ × Bytes)))
  -- `QueryRow` with its Scan of select * from projects where name = ?
  pub scan_project : Bytes → S → Row (ℤ × Bytes)
  -- `QueryRow` with its Scan of select * from oids where oid = ?
  pub scan_oid : Bytes → S → Row (Bytes × ℤ)
  pub insert_project : Bytes → S → Option Error × S
  pub insert_oid : Bytes → ℤ → S → Option Error × S
  pub insert_oid_map : Bytes → ℤ → S → Option Error × S

-- A key that the column of the oids takes as it is: a varchar of 255 characters in UTF-8.
abbrev pub IsKey : Bytes → Type 0
IsKey k = (length k ≤ 255) × All (λ c. c < 128) k

-- A read sees what was written before it, and the table oids is apart from oid_maps.
pub record IsSqlClient {S : Type 0} (db : SqlClient S) : Type 0 where
  pub oid_inserted :
      (k : Bytes) (n : ℤ) (s : S) (vars : Bytes × ℤ)
      → IsKey k
      → (db.insert_oid k n s).0 ≡ none
      → db.scan_oid k (db.insert_oid k n s).1 vars ≡ (none, (k, n))
  pub map_insert_oids :
      (k j : Bytes) (id : ℤ) (s : S) → db.scan_oid j (db.insert_oid_map k id s).1 ≡ db.scan_oid j s
