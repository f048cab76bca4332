-- ===== src/Handlers/Cassandra.antt =====
-- The Cassandra store behind the handlers of server.go.
use lfs_server_go.Prelude.{some, arith}
use lfs_server_go.CassandraMetaStore.{
  CassandraEnv, authenticate, get, put, delete_user, add_user, add_project, all_users, all_objects,
  all_projects,
}
use lfs_server_go.Server.{GenericMetaStore}
use lfs_server_go.Handlers.Guard.{IsGuarded}

module _ {S Conn : Type 0} (env : CassandraEnv S Conn) where
  -- `FindMetaStore` with the back end cassandra.
  abbrev pub cassandra_store : GenericMetaStore S
  cassandra_store = record {
    put = put env;
    get = get env;
    delete_user = delete_user env;
    add_user = add_user env;
    add_project = add_project env;
    users = all_users env;
    objects = λ db. some (all_objects env db);
    projects = λ db. some (all_projects env db);
  }

  -- The Cassandra store keeps to what the handlers need.
  pub cassandra_store-IsGuarded : IsGuarded cassandra_store (authenticate env)
  unfolding get put
  cassandra_store-IsGuarded = record {
    get_refused = λ rv s h. ground arith;
    put_refused = λ rv s h. ground arith;
  }
