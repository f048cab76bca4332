-- ===== src/Examples/Sql.antt =====
-- The theorems on mysql_meta_store.go at a database of oids without projects.
use lfs_server_go.Prelude.{◌≡◌, refl, true, Option, none, some, [], arith, if◌then◌else◌}
use lfs_server_go.Text.{Bytes, lit, ◌==◌}
use lfs_server_go.Text.Laws.{eq_refl}
use lfs_server_go.Errors.{Error, ok, err, foreign, project_not_found}
use lfs_server_go.Types.{ℤ}
use lfs_server_go.Config.{is_public}
use lfs_server_go.MysqlMetaStore.Database.{SqlClient, IsSqlClient, IsKey}
use lfs_server_go.MysqlMetaStore.{
  MysqlEnv, object_of, authenticate, find_oid, find_project, get, put, scanned,
}
use lfs_server_go.MysqlMetaStore.Put.{mysql_get-put, mysql_put-put}
use lfs_server_go.Examples.Codec.{codec, codec-IsGob}
use lfs_server_go.Examples.Setup.{settings, no_directory, request_vars}

abbrev Sizes : Type 0
Sizes = Bytes → Option ℤ

abbrev no_rows : Error
no_rows = foreign (lit "sql: no rows in result set")

unfoldable sizes : SqlClient Sizes
sizes = record {
  all_oids = λ s. ok [];
  project_oids = λ id s. ok [];
  count_projects = λ s. ok [];
  all_projects = λ s. ok [];
  scan_project = λ name s vars. (some no_rows, vars);
  scan_oid = λ oid s vars. elim (s oid) [ none ↦ (some no_rows, vars) | some n ↦ (none, (oid, n)) ];
  insert_project = λ name s. (some (foreign (lit "read only")), s);
  insert_oid = λ oid n s. (none, λ j. if oid == j then some n else s j);
  insert_oid_map = λ oid id s. (none, s);
}

sizes-IsSqlClient : IsSqlClient sizes
unfolding sizes
sizes-IsSqlClient = record {
  oid_inserted = λ k n s vars key done. rw (eq_refl k, sizes) refl;
  map_insert_oids = λ k j id s. refl;
}

-- A public server.
abbrev open_env : MysqlEnv Sizes Unit
open_env = record {
  cfg = record settings { public = true };
  client = sizes;
  gob = codec;
  ldap = no_directory;
}

abbrev empty : Sizes
empty oid = none

public : authenticate open_env request_vars.authorization ≡ true
unfolding authenticate is_public
public = refl

unknown : find_oid open_env request_vars.oid empty ≡ err no_rows
unfolding find_oid scanned sizes
unknown = refl

no_project :
    find_project open_env request_vars.repo
      (sizes.insert_oid request_vars.oid request_vars.size empty).1
    ≡ some (err no_rows)
unfolding find_project sizes ◌==◌
no_project = refl

oid-IsKey : IsKey request_vars.oid
oid-IsKey = (
  omega arith,
  (omega arith, (omega arith, (omega arith, (omega arith, (omega arith, (omega arith, tt)))))),
)

mysql_get-put_example :
    get open_env request_vars (put open_env request_vars empty).1
    ≡ ok (object_of request_vars.oid request_vars.size)
unfolding sizes
mysql_get-put_example =
    mysql_get-put open_env codec-IsGob sizes-IsSqlClient request_vars empty no_rows public
      (λ e. ground arith) oid-IsKey unknown refl

mysql_put-put_example :
    ((put open_env request_vars empty).0 ≡ some (err project_not_found))
    × (put open_env request_vars (put open_env request_vars empty).1 ≡ (
      some (ok (record (object_of request_vars.oid request_vars.size) { existing = true })),
      (put open_env request_vars empty).1,
    ))
unfolding sizes
mysql_put-put_example =
    mysql_put-put open_env codec-IsGob sizes-IsSqlClient request_vars empty no_rows no_rows public
      (λ e. ground arith) oid-IsKey (λ e. ground arith) unknown refl no_project
