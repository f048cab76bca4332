-- ===== src/Handlers/Mysql.antt =====
-- The MySQL store behind the handlers of server.go.
use lfs_server_go.Prelude.{arith}
use lfs_server_go.MysqlMetaStore.{
  MysqlEnv, authenticate, get, put, delete_user, add_user, add_project, all_users, all_objects,
  projects,
}
use lfs_server_go.Server.{GenericMetaStore}
use lfs_server_go.Handlers.Guard.{IsGuarded}

module _ {S Conn : Type 0} (env : MysqlEnv S Conn) where
  -- `FindMetaStore` with the back end mysql.
  abbrev pub mysql_store : GenericMetaStore S
  mysql_store = record {
    put = put env;
    get = get env;
    delete_user = delete_user env;
    add_user = λ salt. add_user env;
    add_project = add_project env;
    users = all_users env;
    objects = all_objects env;
    projects = projects env;
  }

  -- The MySQL store keeps to what the handlers need.
  pub mysql_store-IsGuarded :
      IsGuarded mysql_store (λ authorization s. authenticate env authorization)
  unfolding get put
  mysql_store-IsGuarded = record {
    get_refused = λ rv s h. ground arith;
    put_refused = λ rv s h. ground arith;
  }
