-- ===== src/MetaStore/History.antt =====
-- Sequences of calls of the methods of meta_store.go that change the database.
use lfs_server_go.Prelude.{
  ◌≡◌, sym, ◌∙◌, ap, inl, inr, Option, some, List, [], ◌∷◌, arith, if_intro,
}
use lfs_server_go.Text.{Bytes}
use lfs_server_go.Text.Laws.{eq_iff}
use lfs_server_go.Errors.{ok, Error}
use lfs_server_go.Types.{RequestVars, MetaObject}
use lfs_server_go.Bolt.{users, objects, IsBolt, IsGob}
use lfs_server_go.MetaStore.{
  Env, put, add_user, add_user_tx, delete_user, delete_user_tx, add_project,
}
use lfs_server_go.MetaStore.Transactions.{update_keeps}
use lfs_server_go.MetaStore.Users.{add_user_tx-ok, delete_user_tx-ok}
use lfs_server_go.MetaStore.Objects.{view, view_of_same}
use lfs_server_go.MetaStore.Objects.Put.{PutSpec, put-PutSpec, refused, existed, created, failed}
use lfs_server_go.MetaStore.Invariant.{IsSound}
use lfs_server_go.MetaStore.Invariant.Methods.{put-IsSound, add_user-IsSound, delete_user-IsSound}

pub data Call : Type 0 where
  put_call : RequestVars → Call
  add_user_call : (salt user pass : Bytes) → Call
  delete_user_call : Bytes → Call
  add_project_call : Bytes → Call

module _ {DB Conn : Type 0} (env : Env DB Conn) where
  open env use {bolt, gob}

  -- The database after one call.
  unfoldable pub step : Call → DB → DB
  step (put_call rv) db = (put env rv db).1
  step (add_user_call salt user pass) db = (add_user env salt user pass db).1
  step (delete_user_call user) db = (delete_user env user db).1
  step (add_project_call name) db = (add_project env name db).1

  unfoldable pub run : List Call → DB → DB
  unfolding step
  run [] db = db
  run (c ∷ cs) db = run cs (step c db)

  module _ (lawful : IsBolt bolt) (codec : IsGob gob) where
    pub step-IsSound : (c : Call) (db : DB) → IsSound env db → IsSound env (step c db)
    unfolding step add_project
    step-IsSound (put_call rv) db s = put-IsSound env lawful codec rv db s
    step-IsSound (add_user_call salt user pass) db s =
        add_user-IsSound env lawful codec salt user pass db s
    step-IsSound (delete_user_call user) db s = delete_user-IsSound env lawful codec user db s
    step-IsSound (add_project_call name) db s = s

    -- After any sequence of Put, AddUser, DeleteUser and AddProject calls a sound database is sound:
    -- its buckets are there, each value decodes to a record of its key, and the repository of an
    -- object has its project.
    run-IsSound : (cs : List Call) (db : DB) → IsSound env db → IsSound env (run cs db)
    unfolding run
    run-IsSound [] db s = s
    run-IsSound (c ∷ cs) db s = run-IsSound cs (step c db) (step-IsSound c db s)

    add_user_tx-view :
        (salt user pass : Bytes) (db db' : DB) (oid : Bytes)
        → add_user_tx env salt user pass db ≡ ok db'
        → view env oid db' ≡ view env oid db
    add_user_tx-view salt user pass db db' oid e =
        elim (add_user_tx-ok env salt user pass db db' e) [
          | inl same_db ↦ ap (view env oid) (sym same_db)
          | inr (h, hashed, new_user, made) ↦
              view_of_same env oid db db' (lawful.has-put db db' users objects user h made)
                (lawful.get-put db db' users objects user h oid made)
        ]

    delete_user_tx-view :
        (user : Bytes) (db db' : DB) (oid : Bytes)
        → delete_user_tx env user db ≡ ok db'
        → view env oid db' ≡ view env oid db
    delete_user_tx-view user db db' oid e =
        let made = delete_user_tx-ok env user db db' e in
        view_of_same env oid db db' (lawful.has-delete db db' users objects user made)
          (lawful.get-delete db db' users objects user oid made)

    pub step-view :
        (c : Call) (db : DB) (oid : Bytes) (m : MetaObject)
        → IsSound env db
        → view env oid db ≡ some m
        → view env oid (step c db) ≡ some m
    unfolding step add_project add_user delete_user
    step-view (put_call rv) db oid m s h = put_view (put-PutSpec env lawful codec rv db s)
      where
        put_view :
            PutSpec env rv db (put env rv db).0 (put env rv db).1
            → view env oid (put env rv db).1 ≡ some m
        put_view (refused out r unchanged) = rw unchanged h
        put_view (existed n admitted there r unchanged) = rw unchanged h
        put_view (created admitted new r after project) =
            ground (arith, after oid, eq_iff rv.oid oid)
        put_view (failed e admitted new r after) = after oid ∙ h
    step-view (add_user_call salt user pass) db oid m s h =
        if_intro (λ (r : Option Error × DB). view env oid r.1 ≡ some m) env.cfg.ldap.enabled _ _
          (λ _. h)
          (λ _.
            update_keeps env (λ db'. view env oid db' ≡ some m) (add_user_tx env salt user pass) db
              h (λ db' e. add_user_tx-view salt user pass db db' oid e ∙ h))
    step-view (delete_user_call user) db oid m s h =
        if_intro (λ (r : Option Error × DB). view env oid r.1 ≡ some m) env.cfg.ldap.enabled _ _
          (λ _. h)
          (λ _.
            update_keeps env (λ db'. view env oid db' ≡ some m) (delete_user_tx env user) db h
              (λ db' e. delete_user_tx-view user db db' oid e ∙ h))
    step-view (add_project_call name) db oid m s h = h

    -- An object that is in a sound database is never lost and never changes,
    -- whatever sequence of Put, AddUser, DeleteUser and AddProject is called.
    run-view :
        (cs : List Call) (db : DB) (oid : Bytes) (m : MetaObject)
        → IsSound env db
        → view env oid db ≡ some m
        → view env oid (run cs db) ≡ some m
    unfolding run
    run-view [] db oid m s h = h
    run-view (c ∷ cs) db oid m s h =
        run-view cs (step c db) oid m (step-IsSound c db s) (step-view c db oid m s h)
