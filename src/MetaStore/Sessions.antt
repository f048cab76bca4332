-- ===== src/MetaStore/Sessions.antt =====
-- Which users are let in depends on the users bucket alone, which Put of meta_store.go leaves as it
-- is: a client that was admitted stays admitted after its own Put.
use lfs_server_go.Prelude.{
  ◌≡◌, refl, ◌∙◌, inl, inr, false, Option, none, some, [], arith, Bool-cases, if_intro,
  Option-cases, if◌then◌else◌, not,
}
use lfs_server_go.Text.{Bytes, ◌==◌}
use lfs_server_go.Text.Laws.{eq_refl}
use lfs_server_go.Errors.{ok, err, Error, forbidden, object_not_found}
use lfs_server_go.Types.{RequestVars, MetaObject}
use lfs_server_go.Bolt.{Bucket, users, objects, projects, same, IsBolt, IsGob}
use lfs_server_go.MetaStore.{
  Env, credentials, stored_hash, check_user, authenticate, get, find_project, create_project,
  new_object, new_project, put_object, put_new, put, write,
}
use lfs_server_go.MetaStore.Transactions.{Result-cases, write-ok, update_keeps}
use lfs_server_go.MetaStore.Objects.{view, get-eq-view, view_fields}
use lfs_server_go.MetaStore.Objects.Put.{PutSpec, put-PutSpec, refused, existed, created, failed}
use lfs_server_go.MetaStore.Invariant.{IsSound}
use lfs_server_go.MetaStore.Invariant.Methods.{put-IsSound}

module _ {DB Conn : Type 0} (env : Env DB Conn) where
  open env use {bolt, gob}

  pub record SameUsers (db db' : DB) : Type 0 where
    pub bucket : bolt.has_bucket db' users ≡ bolt.has_bucket db users
    pub hashes : (k : Bytes) → bolt.get db' users k ≡ bolt.get db users k

  SameUsers-refl : (db : DB) → SameUsers db db
  SameUsers-refl db = record { bucket = refl; hashes = λ k. refl }

  stored_hash_of_same :
      (user : Bytes) (db db' : DB)
      → SameUsers db db'
      → stored_hash env user db' ≡ stored_hash env user db
  unfolding stored_hash
  stored_hash_of_same user db db' h = ground (arith, h.bucket, h.hashes user)

  check_user_of_same :
      (user password : Bytes) (db db' : DB)
      → SameUsers db db'
      → check_user env user password db' ≡ check_user env user password db
  unfolding check_user
  check_user_of_same user password db db' h = rw (stored_hash_of_same user db db' h) refl

  pub authenticate_of_same :
      (a : Bytes) (db db' : DB) → SameUsers db db' → authenticate env a db' ≡ authenticate env a db
  unfolding authenticate
  authenticate_of_same a db db' h = elim (Option-cases (credentials a)) [
    | inl bad ↦ ground arith
    | inr (named, good) ↦ ground (arith, check_user_of_same named.0 named.1 db db' h)
  ]

  module _ (lawful : IsBolt bolt) where
    other_bucket :
        (c : Bucket) (k v : Bytes) (db db0 db' : DB)
        → same c users ≡ false
        → SameUsers db0 db
        → bolt.put db c k v ≡ ok db'
        → SameUsers db0 db'
    other_bucket c k v db db0 db' n h e = record {
      bucket = lawful.has-put db db' c users k v e ∙ h.bucket;
      hashes = λ j. ground (arith, lawful.get-put db db' c users k v j e, h.hashes j);
    }

    create_project-SameUsers :
        (rv : RequestVars) (db : DB) → SameUsers db (create_project env rv db).1
    unfolding create_project
    create_project-SameUsers rv db = elim (Result-cases (find_project env rv.repo db)) [
      | inl (p, there) ↦ rw (there, create_project) (SameUsers-refl db)
      | inr (e, missing) ↦
          rw (missing, create_project)
            (elim (Bool-cases (rv.repo == [])) [
              | inl blank ↦ rw blank (SameUsers-refl db)
              | inr named ↦
                  let f = write env projects rv.repo (gob.encode_project (new_project rv)).0 in
                  rw named (
                    update_keeps env (SameUsers db) f db (SameUsers-refl db) (λ db' e.
                      other_bucket projects rv.repo _ db db db' refl (SameUsers-refl db)
                        (write-ok env projects rv.repo _ db db' e)))
            ])
    ]

    put_object-SameUsers :
        (rv : RequestVars) (db : DB) (r : Option Error × DB)
        → SameUsers db r.1
        → SameUsers db (put_object env rv r).1
    unfolding put_object
    put_object-SameUsers rv db (some e, db1) h = h
    put_object-SameUsers rv db (none, db1) h =
        let f = write env objects rv.oid (gob.encode_object (new_object rv)).0 in
        update_keeps env (SameUsers db) f db1 h (λ db' e.
          other_bucket objects rv.oid _ db1 db db' refl h (write-ok env objects rv.oid _ db1 db' e))

    module _ (codec : IsGob gob) where
      pub put-SameUsers : (rv : RequestVars) (db : DB) → SameUsers db (put env rv db).1
      unfolding put put_new
      put-SameUsers rv db = elim (Bool-cases (authenticate env rv.authorization db)) [
        | inr out ↦ rw (out, put) (SameUsers-refl db)
        | inl admitted ↦ elim (Result-cases (get env rv db)) [
          | inl (m, there) ↦ rw (admitted, put) (rw (there, put) (SameUsers-refl db))
          | inr (e, missing) ↦
              rw (admitted, put)
                (rw (missing, put)
                  (rw (codec.object_encodes (new_object rv), put_new)
                    (put_object-SameUsers rv db _ (
                      if_intro (λ (r : Option Error × DB). SameUsers db r.1) (not (rv.repo == [])) _
                        _ (λ _. create_project-SameUsers rv db) (λ _. SameUsers-refl db)))))
        ]
      ]

      -- In a sound database a Put that succeeds is followed by a Get of the same request that finds
      -- the object that Put returned, not marked as existing.
      pub get-put :
          (rv : RequestVars) (db : DB) (m : MetaObject)
          → IsSound env db
          → (put env rv db).0 ≡ ok m
          → get env rv (put env rv db).1 ≡ ok (record m { existing = false })
      get-put rv db m s h =
          get-eq-view env rv (put env rv db).1 (put-IsSound env lawful codec rv db s)
          ∙ rw (authenticate_of_same rv.authorization db _ (put-SameUsers rv db))
              (seen (put-PutSpec env lawful codec rv db s))
        where
          seen :
              PutSpec env rv db (put env rv db).0 (put env rv db).1
              → (if authenticate env rv.authorization db
                  then elim (view env rv.oid (put env rv db).1) [
                    | some n ↦ ok n
                    | none ↦ err object_not_found
                  ]
                  else err forbidden)
                ≡ ok (record m { existing = false })
          seen (refused out r unchanged) = absurd (ground arith)
          seen (existed n admitted there r unchanged) =
              rw unchanged (ground (arith, view_fields env rv.oid db n s there))
          seen (created admitted new r after project) = ground (arith, after rv.oid, eq_refl rv.oid)
          seen (failed e admitted new r after) = absurd (ground arith)
