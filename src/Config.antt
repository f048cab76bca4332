-- ===== src/Config.antt =====
-- config.go: the settings. `Config` is a global variable that `init` sets once; the model passes it
-- as an argument.
pub mod Load
use lfs_server_go.Prelude.{Bool, ◌&&◌, not, []}
use lfs_server_go.Text.{Bytes, lit, ◌==◌, contains}
use lfs_server_go.Types.{ℤ}

pub record LdapConfig : Type 0 where
  pub enabled : Bool
  pub server : Bytes
  pub base : Bytes
  pub user_object_class : Bytes
  pub user_cn : Bytes
  pub bind_dn : Bytes
  pub bind_pass : Bytes

pub record CassandraConfig : Type 0 where
  pub hosts : Bytes
  pub keyspace : Bytes
  pub proto_version : ℤ
  pub username : Bytes
  pub password : Bytes
  pub enabled : Bool

pub record AwsConfig : Type 0 where
  pub access_key_id : Bytes
  pub secret_access_key : Bytes
  pub region : Bytes
  pub bucket_name : Bytes
  pub bucket_acl : Bytes
  pub enabled : Bool

pub record MysqlConfig : Type 0 where
  pub host : Bytes
  pub database : Bytes
  pub username : Bytes
  pub password : Bytes
  pub enabled : Bool

pub record Configuration : Type 0 where
  pub listen : Bytes
  pub host : Bytes
  pub url_context : Bytes
  pub content_path : Bytes
  pub admin_user : Bytes
  pub admin_pass : Bytes
  pub cert : Bytes
  pub key : Bytes
  pub scheme : Bytes
  pub public : Bool
  pub meta_db : Bytes
  pub backing_store : Bytes
  pub content_store : Bytes
  pub log_file : Bytes
  pub num_procs : ℤ
  pub aws : AwsConfig
  pub cassandra : CassandraConfig
  pub ldap : LdapConfig
  pub mysql : MysqlConfig

unfoldable pub is_https : Configuration → Bool
is_https c = contains c.scheme (lit "https")

unfoldable pub use_tls : Configuration → Bool
use_tls c = not (c.cert == []) && not (c.key == [])

unfoldable pub is_public : Configuration → Bool
is_public c = c.public
