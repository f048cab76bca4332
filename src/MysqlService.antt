-- ===== src/MysqlService.antt =====
-- mysql_service.go, and NewMySQLMetaStore of mysql_meta_store.go. The packages database/sql and gorp
-- are parameters.
use lfs_server_go.Prelude.{
  ℕ, zero, suc, Bool, true, false, ◌&&◌, Option, none, some, List, [], ◌∷◌, ◌++◌, length, drop,
  if◌then◌else◌,
}
use lfs_server_go.Text.{Bytes, lit, ◌==◌, has_prefix}
use lfs_server_go.Errors.{Error, Result, ok, err, missing_params}
use lfs_server_go.Config.{MysqlConfig}
use lfs_server_go.Panics.{Action, pure, panic, ◌>>=◌, ◌>>◌, call, perror}

-- The names and the types of the columns of a table, as gorp reads them from a struct.
pub data ColumnType : Type 0 where
  int64 string : ColumnType

pub record Table : Type 0 where
  pub name : Bytes
  pub columns : List (Bytes × ColumnType)
  -- the column of the key, and whether the database numbers it
  pub key : Option (Bytes × Bool)
  -- the columns that are unique
  pub unique : List Bytes

-- `sql.Open` of a data source, and gorp's making of the tables that are not there.
pub record SqlDriver (S Client : Type 0) : Type 0 where
  pub open_db : Bytes → Result Client
  pub create_tables_if_not_exists : Client → List Table → S → Option Error × S

-- The white space of Unicode, in UTF-8.
abbrev pub white_space : List Bytes
white_space =
    (9 ∷ [])
    ∷ (10 ∷ [])
    ∷ (11 ∷ [])
    ∷ (12 ∷ [])
    ∷ (13 ∷ [])
    ∷ (32 ∷ [])
    ∷ (194 ∷ 133 ∷ [])
    ∷ (194 ∷ 160 ∷ [])
    ∷ (225 ∷ 154 ∷ 128 ∷ [])
    ∷ (226 ∷ 128 ∷ 128 ∷ [])
    ∷ (226 ∷ 128 ∷ 129 ∷ [])
    ∷ (226 ∷ 128 ∷ 130 ∷ [])
    ∷ (226 ∷ 128 ∷ 131 ∷ [])
    ∷ (226 ∷ 128 ∷ 132 ∷ [])
    ∷ (226 ∷ 128 ∷ 133 ∷ [])
    ∷ (226 ∷ 128 ∷ 134 ∷ [])
    ∷ (226 ∷ 128 ∷ 135 ∷ [])
    ∷ (226 ∷ 128 ∷ 136 ∷ [])
    ∷ (226 ∷ 128 ∷ 137 ∷ [])
    ∷ (226 ∷ 128 ∷ 138 ∷ [])
    ∷ (226 ∷ 128 ∷ 168 ∷ [])
    ∷ (226 ∷ 128 ∷ 169 ∷ [])
    ∷ (226 ∷ 128 ∷ 175 ∷ [])
    ∷ (226 ∷ 129 ∷ 159 ∷ [])
    ∷ (227 ∷ 128 ∷ 128 ∷ [])
    ∷ []

-- The first of the texts that the string begins with.
unfoldable pub leading : List Bytes → Bytes → Bytes
leading [] s = []
leading (w ∷ ws) s = let later = leading ws s in if has_prefix s w then w else later

-- `len(strings.TrimSpace(s)) == 0`: the string is white space. Each step takes at least a byte, so the
-- length of the string is steps enough.
unfoldable pub blank_by : ℕ → Bytes → Bool
unfolding leading
blank_by n [] = true
blank_by zero (c ∷ s) = false
blank_by (suc n) (c ∷ s) =
    let space = leading white_space (c ∷ s) in
    let rest = blank_by n (drop (length space) (c ∷ s)) in if space == [] then false else rest

unfoldable pub is_blank : Bytes → Bool
unfolding blank_by
is_blank s = blank_by (length s) s

unfoldable pub validate_config : MysqlConfig → Bool
unfolding is_blank
validate_config c =
    if is_blank c.database && is_blank c.host
    then false
    else if is_blank c.username && is_blank c.password
    then false
    else true

unfoldable pub data_source : MysqlConfig → Bytes
data_source c =
    c.username ++ (lit ":" ++ (c.password ++ (lit "@tcp(" ++ (c.host ++ (lit ")/" ++ c.database)))))

-- `MySQLService`: no client where `Fail` is set.
pub data MysqlService (Client : Type 0) : Type 0 where
  connected : Client → MysqlService Client
  failed : MysqlService Client

-- `Projects`, `Oids` and `OidMaps`, as they are added.
unfoldable pub projects_table : Table
projects_table = record {
  name = lit "projects";
  columns = (lit "id", int64) ∷ (lit "name", string) ∷ [];
  key = some (lit "id", true);
  unique = lit "name" ∷ [];
}

unfoldable pub oids_table : Table
oids_table = record {
  name = lit "oids";
  columns = (lit "oid", string) ∷ (lit "size", int64) ∷ [];
  key = some (lit "oid", false);
  unique = [];
}

unfoldable pub oid_maps_table : Table
oid_maps_table = record {
  name = lit "oid_maps";
  columns = (lit "oid", string) ∷ (lit "projectID", int64) ∷ [];
  key = none;
  unique = [];
}

module _ {S Client : Type 0} (driver : SqlDriver S Client) where
  unfoldable pub create_tables : Client → S → Option Error × S
  unfolding projects_table oids_table oid_maps_table
  create_tables client =
      driver.create_tables_if_not_exists client (projects_table ∷ oids_table ∷ oid_maps_table ∷ [])

  -- Without a client the making of the tables panics.
  unfoldable pub new_mysql_session : MysqlConfig → Action S (MysqlService Client)
  unfolding validate_config data_source create_tables perror
  new_mysql_session c =
      if validate_config c
      then elim (driver.open_db (data_source c)) [
        | err e ↦ panic
        | ok db ↦ call (create_tables db) >>= perror >> pure (connected db)
      ]
      else pure failed

  unfoldable pub new_mysql_meta_store : MysqlConfig → Action S (Result Client)
  unfolding new_mysql_session
  new_mysql_meta_store c = do
    mysql ← new_mysql_session c
    pure (elim mysql [ failed ↦ err missing_params | connected client ↦ ok client ])
