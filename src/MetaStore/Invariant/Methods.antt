-- ===== src/MetaStore/Invariant/Methods.antt =====
-- The methods of meta_store.go keep the invariant, and `NewMetaStore` establishes it.
use lfs_server_go.Prelude.{
  ◌≡◌, refl, ◌≢◌, inl, inr, true, false, Option, none, some, [], arith, Bool-cases, if_intro,
  Option-cases,
}
use lfs_server_go.Text.{Bytes, ◌==◌}
use lfs_server_go.Text.Laws.{eq_iff, eq_refl}
use lfs_server_go.Errors.{ok, Error}
use lfs_server_go.Types.{RequestVars, MetaProject}
use lfs_server_go.Bolt.{Bucket, users, objects, projects, same, IsBolt, IsGob, update}
use lfs_server_go.MetaStore.{
  Env, get, find_project, write, new_project, create_project, new_object, put_object, put_new, put,
  add_user, delete_user, authenticate, add_user_tx, delete_user_tx,
}
use lfs_server_go.MetaStore.Transactions.{
  Result-cases, test_of_ne, ne_of_test, write-ok, update-ok, update_keeps,
}
use lfs_server_go.MetaStore.Users.{add_user_tx-ok, delete_user_tx-ok}
use lfs_server_go.MetaStore.Invariant.{IsSound, IsSound-of_same, project-IsSound, object-IsSound}

module _ {DB Conn : Type 0} (env : Env DB Conn) where
  open env use {bolt, gob}

  -- The project of a name is in the database.
  abbrev pub HasProject : Bytes → DB → Type 0
  HasProject name db = (w : Bytes) × (bolt.get db projects name ≡ some w)

  pub find_project-HasProject :
      (name : Bytes) (db : DB) (p : MetaProject)
      → find_project env name db ≡ ok p
      → HasProject name db
  unfolding find_project
  find_project-HasProject name db p h = elim (Option-cases (bolt.get db projects name)) [
    | inl missing ↦ absurd (ground arith)
    | inr (w, there) ↦ (w, there)
  ]

  module _ (lawful : IsBolt bolt) (codec : IsGob gob) where
    written :
        (c : Bucket) (k v : Bytes) (db : DB)
        → same c c ≡ true
        → (update bolt (write env c k v) db).0 ≡ none
        → (w : Bytes) × (bolt.get (update bolt (write env c k v) db).1 c k ≡ some w)
    written c k v db r h =
        let put_there = write-ok env c k v db _ (update-ok env (write env c k v) db h) in
        (v, ground (arith, lawful.get-put db _ c c k v k put_there, eq_refl k))

    pub create_project-IsSound :
        (rv : RequestVars) (db : DB) → IsSound env db → IsSound env (create_project env rv db).1
    unfolding create_project
    create_project-IsSound rv db s = elim (Result-cases (find_project env rv.repo db)) [
      | inl (p, there) ↦ rw (there, create_project) s
      | inr (e, missing) ↦
          rw (missing, create_project)
            (elim (Bool-cases (rv.repo == [])) [
              | inl blank ↦ rw blank s
              | inr named ↦ rw named (
                  update_keeps env (IsSound env)
                    (write env projects rv.repo (gob.encode_project (new_project rv)).0) db s
                    (λ db' e.
                      project-IsSound env lawful codec rv db db' (ne_of_test rv.repo named) s
                        (write-ok env projects rv.repo _ db db' e)))
            ])
    ]

    pub create_project-HasProject :
        (rv : RequestVars) (db : DB)
        → rv.repo ≢ []
        → (create_project env rv db).0 ≡ none
        → HasProject rv.repo (create_project env rv db).1
    unfolding create_project
    create_project-HasProject rv db named h = elim (Result-cases (find_project env rv.repo db)) [
      | inl (p, there) ↦ rw (there, create_project) (find_project-HasProject rv.repo db p there)
      | inr (e, missing) ↦
          let blank : (rv.repo == []) ≡ false = test_of_ne rv.repo named in
          rw (missing, create_project)
            (rw blank (
              written projects rv.repo (gob.encode_project (new_project rv)).0 db refl
                (rw blank at (rw (missing, create_project) at h))))
    ]

    pub put_object-IsSound :
        (rv : RequestVars) (r : Option Error × DB)
        → IsSound env r.1
        → (r.0 ≡ none → rv.repo ≢ [] → HasProject rv.repo r.1)
        → IsSound env (put_object env rv r).1
    unfolding put_object
    put_object-IsSound rv (some e, db) s h = s
    put_object-IsSound rv (none, db) s h =
        update_keeps env (IsSound env)
          (write env objects rv.oid (gob.encode_object (new_object rv)).0) db s
          (λ db' e.
            object-IsSound env lawful codec rv db db' (h refl) s
              (write-ok env objects rv.oid _ db db' e))

    pub put_new-IsSound :
        (rv : RequestVars) (db : DB) → IsSound env db → IsSound env (put_new env rv db).1
    unfolding put_new
    put_new-IsSound rv db s =
        rw (codec.object_encodes (new_object rv), put_new)
          (elim (Bool-cases (rv.repo == [])) [
            | inl blank ↦ rw blank (
                put_object-IsSound rv (none, db) s
                  (λ _ named. absurd (named ((eq_iff rv.repo []).0 blank))))
            | inr named ↦ rw named (
                put_object-IsSound rv (create_project env rv db) (create_project-IsSound rv db s)
                  (λ made h. create_project-HasProject rv db h made))
          ])

    -- Put keeps the invariant, whatever it returns.
    pub put-IsSound : (rv : RequestVars) (db : DB) → IsSound env db → IsSound env (put env rv db).1
    unfolding put
    put-IsSound rv db s = elim (Bool-cases (authenticate env rv.authorization db)) [
      | inr refused ↦ rw (refused, put) s
      | inl admitted ↦ elim (Result-cases (get env rv db)) [
        | inl (m, there) ↦ rw (admitted, put) (rw (there, put) s)
        | inr (e, missing) ↦ rw (admitted, put) (rw (missing, put) (put_new-IsSound rv db s))
      ]
    ]

    users_put-IsSound :
        (k v : Bytes) (db db' : DB)
        → bolt.put db users k v ≡ ok db'
        → IsSound env db
        → IsSound env db'
    users_put-IsSound k v db db' e =
        IsSound-of_same env lawful codec db db' (λ c. lawful.has-put db db' users c k v e)
          (λ j. lawful.get-put db db' users objects k v j e)
          (λ j. lawful.get-put db db' users projects k v j e)

    users_delete-IsSound :
        (k : Bytes) (db db' : DB)
        → bolt.delete db users k ≡ ok db'
        → IsSound env db
        → IsSound env db'
    users_delete-IsSound k db db' e =
        IsSound-of_same env lawful codec db db' (λ c. lawful.has-delete db db' users c k e)
          (λ j. lawful.get-delete db db' users objects k j e)
          (λ j. lawful.get-delete db db' users projects k j e)

    add_user_tx-IsSound :
        (salt user pass : Bytes) (db db' : DB)
        → add_user_tx env salt user pass db ≡ ok db'
        → IsSound env db
        → IsSound env db'
    add_user_tx-IsSound salt user pass db db' e s =
        elim (add_user_tx-ok env salt user pass db db' e) [
          | inl same_db ↦ rw (← same_db) s
          | inr (h, hashed, new_user, made) ↦ users_put-IsSound user h db db' made s
        ]

    pub add_user-IsSound :
        (salt user pass : Bytes) (db : DB)
        → IsSound env db
        → IsSound env (add_user env salt user pass db).1
    unfolding add_user
    add_user-IsSound salt user pass db s =
        if_intro (λ (r : Option Error × DB). IsSound env r.1) env.cfg.ldap.enabled _ _ (λ _. s)
          (λ _.
            update_keeps env (IsSound env) (add_user_tx env salt user pass) db s
              (λ db' e. add_user_tx-IsSound salt user pass db db' e s))

    pub delete_user-IsSound :
        (user : Bytes) (db : DB) → IsSound env db → IsSound env (delete_user env user db).1
    unfolding delete_user
    delete_user-IsSound user db s =
        if_intro (λ (r : Option Error × DB). IsSound env r.1) env.cfg.ldap.enabled _ _ (λ _. s)
          (λ _.
            update_keeps env (IsSound env) (delete_user_tx env user) db s
              (λ db' e. users_delete-IsSound user db db' (delete_user_tx-ok env user db db' e) s))
