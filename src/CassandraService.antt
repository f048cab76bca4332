-- ===== src/CassandraService.antt =====
-- cassandra_service.go: the session that the Cassandra store works with, and its tables. The library
-- gocql is a parameter.
use lfs_server_go.Prelude.{Option, none, some, List, [], ◌∷◌, ◌++◌}
use lfs_server_go.Text.{Bytes, lit}
use lfs_server_go.Errors.{Error, Result, ok, err}
use lfs_server_go.Types.{ℤ}
use lfs_server_go.Config.{CassandraConfig}
use lfs_server_go.Panics.{Action, pure, panic, ◌>>=◌, ◌>>◌, call, gets, perror}

-- `NewCluster` of the hosts with the version of the protocol, the keyspace (`none`: not set) and
-- `CreateSession`; `Query(q).Exec()` of a session.
pub record Gocql (S Session : Type 0) : Type 0 where
  pub create_session : Bytes → ℤ → Option Bytes → S → Result Session
  pub exec : Session → Bytes → S → Option Error × S

-- A session that was not made is nil, and its use panics.
abbrev pub session_or_panic : {S Session : Type 0} → Result Session → Action S Session
session_or_panic (ok session) = pure session
session_or_panic (err e) = panic

abbrev pub keyspace_of : CassandraConfig → Bytes → Bytes
keyspace_of config go_env = config.keyspace ++ (lit "_" ++ go_env)

module _ {S Session : Type 0} (lib : Gocql S Session) where
  -- The error of making the table of the oids is not looked at: the test after it is on the error of
  -- the statement before it, which is none.
  unfoldable pub initialize_cassandra : Session → S → Option Error × S
  initialize_cassandra session s =
      let (e1, s1) =
        lib.exec session
          (lit "create table if not exists projects (name text PRIMARY KEY, oids SET<text>);") s in
      let (e2, s2) = lib.exec session (lit "create index if not exists on projects(oids);") s1 in
      let (_, s3) =
        lib.exec session (lit "create table if not exists oids(oid text primary key, size bigint);")
          s2 in
      let last =
        lib.exec session
          (lit "create table if not exists users(username text primary key, password text);") s3 in
      elim e1 [ some e ↦ (some e, s1) | none ↦ elim e2 [ some e ↦ (some e, s2) | none ↦ last ] ]

  unfoldable pub new_cassandra_session : CassandraConfig → Bytes → Action S Session
  unfolding initialize_cassandra perror
  new_cassandra_session config go_env = do
    first ← gets (lib.create_session config.hosts config.proto_version none)
    session ← session_or_panic first
    _ ← call (
        lib.exec session (
          lit "create keyspace if not exists "
          ++ (keyspace_of config go_env
              ++ lit
                  " with replication = { 'class' : 'SimpleStrategy', 'replication_factor' : 1 };")))
    second ←
        gets
          (lib.create_session config.hosts config.proto_version (some (keyspace_of config go_env)))
    session ← session_or_panic second
    call (initialize_cassandra session) >>= perror
    pure session

  -- `NewCassandraMetaStore`: the session that is given, or a new one.
  unfoldable pub new_cassandra_meta_store :
      CassandraConfig → Bytes → List Session → Action S Session
  unfolding new_cassandra_session
  new_cassandra_meta_store config go_env [] = new_cassandra_session config go_env
  new_cassandra_meta_store config go_env (given ∷ _) = pure given

  unfoldable pub drop_cassandra : CassandraConfig → Bytes → Action S (Option Error)
  unfolding new_cassandra_session
  drop_cassandra config go_env = do
    c ← new_cassandra_session config go_env
    call (lib.exec c (lit "drop keyspace " ++ (keyspace_of config go_env ++ lit ";")))
