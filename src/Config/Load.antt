-- ===== src/Config/Load.antt =====
-- `init` of config.go: the default settings, and the file that is mapped over them by the library
-- gopkg.in/ini.v1, a parameter.
use lfs_server_go.Prelude.{true, false, ◌||◌, Option, none, some, [], if◌then◌else◌}
use lfs_server_go.Text.{Bytes, lit, ◌==◌}
use lfs_server_go.Errors.{Result, ok, err}
use lfs_server_go.Types.{ℤ, pos}
use lfs_server_go.Config.{Configuration, LdapConfig, AwsConfig, CassandraConfig, MysqlConfig}

-- A file: the key Scheme of the section Main, and `MapTo` for each section (the errors are dropped).
pub record IniFile : Type 0 where
  pub scheme : Bytes
  pub map_main : Configuration → Configuration
  pub map_aws : AwsConfig → AwsConfig
  pub map_ldap : LdapConfig → LdapConfig
  pub map_cassandra : CassandraConfig → CassandraConfig
  pub map_mysql : MysqlConfig → MysqlConfig

abbrev pub default_aws : AwsConfig
default_aws = record {
  access_key_id = [];
  secret_access_key = [];
  region = lit "USWest";
  bucket_name = lit "lfs-server-go-objects";
  bucket_acl = lit "bucket-owner-full-control";
  enabled = false;
}

abbrev pub default_ldap : LdapConfig
default_ldap = record {
  enabled = false;
  server = lit "ldap://localhost:1389";
  base = lit "dc=testers,c=test,o=company";
  user_object_class = lit "person";
  user_cn = lit "uid";
  bind_dn = [];
  bind_pass = [];
}

abbrev pub default_cassandra : CassandraConfig
default_cassandra = record {
  hosts = lit "localhost";
  keyspace = lit "lfs_server_go";
  proto_version = pos 3;
  username = [];
  password = [];
  enabled = false;
}

abbrev pub default_mysql : MysqlConfig
default_mysql = record {
  host = [];
  database = lit "lfs_server_go";
  username = [];
  password = [];
  enabled = false;
}

abbrev pub default_configuration : ℤ → Configuration
default_configuration num_cpu = record {
  listen = lit "tcp://:8080";
  host = lit "localhost:8080";
  url_context = [];
  content_path = lit "lfs-content";
  admin_user = lit "admin";
  admin_pass = lit "admin";
  cert = [];
  key = [];
  scheme = lit "http";
  public = true;
  meta_db = lit "lfs-test.db";
  backing_store = lit "bolt";
  content_store = lit "filesystem";
  log_file = [];
  num_procs = num_cpu;
  aws = default_aws;
  cassandra = default_cassandra;
  ldap = default_ldap;
  mysql = default_mysql;
}

-- The scheme that `init` computes and does not store.
unfoldable pub forced_scheme : Bytes → Bytes
forced_scheme val = if (val == lit "http") || (val == lit "https") then val else lit "http"

-- `MapTo` of the five sections, in order; each maps over what the one before left.
unfoldable pub map_sections : IniFile → Configuration → Configuration
map_sections f c =
    let c1 = f.map_main c in
    record c1 {
      aws = f.map_aws c1.aws;
      ldap = f.map_ldap c1.ldap;
      cassandra = f.map_cassandra c1.cassandra;
      mysql = f.map_mysql c1.mysql;
    }

-- `init`: the variables LFS_SERVER_GO_CONFIG and GO_ENV, the file system, and the number of
-- processors give the environment's name and the settings. A file that does not load is a panic,
-- `none`.
unfoldable pub init : Bytes → Bytes → (Bytes → Result IniFile) → ℤ → Option (Bytes × Configuration)
init env_file go_env load num_cpu =
    let config_file = if env_file == [] then lit "config.ini" else env_file in
    elim (load config_file) [
      | err e ↦ none
      | ok f ↦ some (
        if go_env == [] then lit "production" else go_env,
        map_sections f (default_configuration num_cpu),
      )
    ]
