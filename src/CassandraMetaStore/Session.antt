-- ===== src/CassandraMetaStore/Session.antt =====
-- The session of gocql and the cluster that cassandra_meta_store.go reads and writes, with what the
-- store relies on of them, and the tables of cassandra_service.go.
use lfs_server_go.Prelude.{ℕ, Option, none, some, List, [], ◌++◌, ◌≡◌, ◌≢◌, if◌then◌else◌}
use mathlib.Core.List.{Memᴰ}
use lfs_server_go.Text.{Bytes, lit, ◌==◌}
use lfs_server_go.Text.Laws.{Lacks}
use lfs_server_go.Errors.{Error}
use lfs_server_go.Types.{ℤ, MetaProject, MetaUser}

abbrev pub quote : ℕ
quote = b'\''

-- The statements, by the values that are bound to them; `run_text` runs one that is written out.
-- Reading is by a scan into a struct, which fills it from the row; `none` where it fills nothing, as
-- there is no row or the query failed.
pub record CqlSession (S : Type 0) : Type 0 where
  -- select * from projects where name = ?
  pub scan_project : Bytes → S → Option MetaProject
  -- select count(*) as count from projects where name = ?
  pub count_projects : Bytes → S → Option ℕ
  -- select oid, size from oids where oid = ? limit 1
  pub scan_oid : Bytes → S → Option (Bytes × ℤ)
  -- select * from users where username = ?
  pub scan_user : Bytes → S → Option MetaUser
  -- select username from users; the rows before the end or an error
  pub all_users : S → List Bytes
  -- select oid, size from oids
  pub all_oids : S → List (Bytes × ℤ)
  -- select name, oids from projects
  pub all_projects : S → List MetaProject
  pub insert_project : Bytes → S → Option Error × S
  pub insert_oid : Bytes → ℤ → S → Option Error × S
  pub insert_user : Bytes → Bytes → S → Option Error × S
  pub delete_oid : Bytes → S → Option Error × S
  pub delete_project : Bytes → S → Option Error × S
  pub delete_user : Bytes → S → Option Error × S
  pub run_text : Bytes → S → Option Error × S

-- update projects set oids = oids + {'…'} where name = '…'
unfoldable pub add_oid_text : Bytes → Bytes → Bytes
add_oid_text oid project =
    lit "update projects set oids = oids + {'"
    ++ (oid ++ (lit "'} where name = '" ++ (project ++ lit "'")))

unfoldable pub remove_oid_text : Bytes → Bytes → Bytes
remove_oid_text oid project =
    lit "update projects set oids = oids - {'"
    ++ (oid ++ (lit "'} where name = '" ++ (project ++ lit "'")))

-- Reads and writes go to a quorum: a write that succeeded is seen by the reads after it. One that
-- failed may have been done or not.
pub record IsCqlSession {S : Type 0} (c : CqlSession S) : Type 0 where
  pub oid_inserted :
      (k j : Bytes) (n : ℤ) (s : S)
      → (c.insert_oid k n s).0 ≡ none
      → c.scan_oid j (c.insert_oid k n s).1 ≡ (if k == j then some (k, n) else c.scan_oid j s)
  -- whether or not it succeeds
  pub oid_insert_other :
      (k j : Bytes) (n : ℤ) (s : S) → k ≢ j → c.scan_oid j (c.insert_oid k n s).1 ≡ c.scan_oid j s
  -- a key may not be empty
  pub oid_insert_blank : (n : ℤ) (s : S) → (e : Error) × ((c.insert_oid [] n s).0 ≡ some e)
  pub project_insert_oids :
      (k j : Bytes) (s : S) → c.scan_oid j (c.insert_project k s).1 ≡ c.scan_oid j s
  -- an update makes the row where there is none; a text in quotes is read as it is written, where it
  -- has no quote in it
  pub oid_added :
      (oid project : Bytes) (s : S)
      → Lacks quote oid
      → Lacks quote project
      → (c.run_text (add_oid_text oid project) s).0 ≡ none
      → (p : MetaProject) × (c.scan_project project (c.run_text (add_oid_text oid project) s).1
          ≡ some p)
        × (p.name ≡ project)
        × Memᴰ oid p.oids
  pub oid_add_oids :
      (oid project j : Bytes) (s : S)
      → Lacks quote oid
      → Lacks quote project
      → c.scan_oid j (c.run_text (add_oid_text oid project) s).1 ≡ c.scan_oid j s
