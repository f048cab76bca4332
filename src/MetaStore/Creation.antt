-- ===== src/MetaStore/Creation.antt =====
-- NewMetaStore of meta_store.go, and when its Put can be relied on to succeed.
use lfs_server_go.Prelude.{
  ◌≡◌, refl, ◌∙◌, inl, inr, Bool, true, false, Option, none, some, [], ◌∷◌, arith, if_intro,
  if◌then◌else◌, ◌<◌, ◌≤◌, length,
}
use lfs_server_go.Text.{Bytes, ◌==◌}
use lfs_server_go.Errors.{ok, Error}
use lfs_server_go.Types.{RequestVars}
use lfs_server_go.Bolt.{Bucket, users, objects, projects, same, IsBolt, IsGob, update}
use lfs_server_go.MetaStore.{
  Env, authenticate, find_project, create_project, new_project, new_object, put_object, put_new,
  put, write, make_buckets, new_meta_store,
}
use lfs_server_go.MetaStore.Transactions.{Result-cases, update-ok}
use lfs_server_go.MetaStore.Objects.{view, get-eq-view}
use lfs_server_go.MetaStore.Invariant.{IsSound}
use lfs_server_go.MetaStore.Invariant.Methods.{create_project-IsSound}

-- The three buckets are all that there are.
all_there :
    (c : Bucket) (old : Bool)
    → (if same projects c
        then true
        else if same objects c
        then true
        else if same users c
        then true
        else old)
      ≡ true
all_there users old = refl
all_there objects old = refl
all_there projects old = refl

length_pos : (s : Bytes) → (s == []) ≡ false → 0 < length s
unfolding ◌==◌
length_pos [] h = absurd (ground arith)
length_pos (c ∷ s) h = omega arith

module _ {DB Conn : Type 0} (env : Env DB Conn) where
  open env use {bolt, gob}

  module _ (lawful : IsBolt bolt) where
    make_buckets-ok :
        (db db' : DB)
        → make_buckets env db ≡ ok db'
        → ((c : Bucket) → bolt.has_bucket db' c ≡ true)
          × ((c : Bucket) (k : Bytes) → bolt.get db' c k ≡ bolt.get db c k)
    unfolding make_buckets
    make_buckets-ok db db' e = elim (Result-cases (bolt.create_bucket_if_not_exists db users)) [
      | inr (x, bad) ↦ absurd (ground arith)
      | inl (d1, made1) ↦ elim (Result-cases (bolt.create_bucket_if_not_exists d1 objects)) [
        | inr (x, bad) ↦ absurd (ground arith)
        | inl (d2, made2) ↦
            let made3 : bolt.create_bucket_if_not_exists d2 projects ≡ ok db' = ground arith in
            (
              λ c.
                  lawful.has-create d2 db' projects c made3
                  ∙ rw (lawful.has-create d1 d2 objects c made2)
                      (rw (lawful.has-create db d1 users c made1) (all_there c _)),
              λ c k.
                  lawful.get-create d2 db' projects c k made3
                  ∙ lawful.get-create d1 d2 objects c k made2
                  ∙ lawful.get-create db d1 users c k made1,
            )
      ]
    ]

    -- Where bolt opens a file without any pairs, and the transaction that makes the buckets succeeds,
    -- NewMetaStore returns a sound database.
    pub new_meta_store-IsSound :
        (db_file : Bytes) (db : DB)
        → bolt.open_file db_file ≡ ok db
        → ((c : Bucket) (k : Bytes) → bolt.get db c k ≡ none)
        → (update bolt (make_buckets env) db).0 ≡ none
        → (store : DB) × (new_meta_store env db_file ≡ ok store) × IsSound env store
    unfolding new_meta_store
    new_meta_store-IsSound db_file db opened empty made =
        let (has, kept) = make_buckets-ok db _ (update-ok env (make_buckets env) db made) in
        let none_there = λ (c : Bucket) (k : Bytes). kept c k ∙ empty c k in
        (
          (update bolt (make_buckets env) db).1,
          ground arith,
          record {
            buckets = has;
            object_at = λ k v h. absurd (ground (arith, none_there objects k));
            project_at = λ k v h. absurd (ground (arith, none_there projects k));
            has_project = λ k v repo m h d n named. absurd (ground (arith, none_there objects k));
          },
        )

    -- What a request must satisfy for bolt to take the pairs of its Put.
    pub record Fits (rv : RequestVars) : Type 0 where
      pub oid_low : 0 < length rv.oid
      pub oid_high : length rv.oid ≤ 32768
      pub repo_high : length rv.repo ≤ 32768
      pub object_high : length (gob.encode_object (new_object rv)).0 ≤ 2147483646
      pub project_high : length (gob.encode_project (new_project rv)).0 ≤ 2147483646

    module _ (codec : IsGob gob) (disk : (db : DB) → bolt.commit db ≡ none) where
      write-Fits :
          (c : Bucket) (k v : Bytes) (db : DB)
          → IsSound env db
          → 0 < length k
          → length k ≤ 32768
          → length v ≤ 2147483646
          → (update bolt (write env c k v) db).0 ≡ none
      write-Fits c k v db s low high short =
          let (db', made) = lawful.put_fits db c k v (s.buckets c) low high short in
          ground (arith, s.buckets c, disk db')

      create_project-Fits :
          (rv : RequestVars) (db : DB)
          → IsSound env db
          → Fits rv
          → (create_project env rv db).0 ≡ none
      unfolding create_project
      create_project-Fits rv db s fits = elim (Result-cases (find_project env rv.repo db)) [
        | inl (p, there) ↦ rw (there, create_project) refl
        | inr (e, missing) ↦
            rw (missing, create_project)
              (if_intro (λ (r : Option Error × DB). r.0 ≡ none) (rv.repo == []) _ _ (λ _. refl)
                (λ named.
                  write-Fits projects rv.repo _ db s (length_pos rv.repo named) fits.repo_high
                    fits.project_high))
      ]

      put_object-Fits :
          (rv : RequestVars) (r : Option Error × DB)
          → r.0 ≡ none
          → IsSound env r.1
          → Fits rv
          → (put_object env rv r).0 ≡ ok (new_object rv)
      unfolding put_object
      put_object-Fits rv (some e, db) h s fits = absurd (ground arith)
      put_object-Fits rv (none, db) h s fits = ground (
        arith,
        write-Fits objects rv.oid (gob.encode_object (new_object rv)).0 db s fits.oid_low
            fits.oid_high fits.object_high,
      )

      -- In a sound database, on a disk that does not fail, an admitted Put of a new oid that bolt
      -- can take succeeds.
      pub put_succeeds :
          (rv : RequestVars) (db : DB)
          → IsSound env db
          → authenticate env rv.authorization db ≡ true
          → view env rv.oid db ≡ none
          → Fits rv
          → (put env rv db).0 ≡ ok (new_object rv)
      unfolding put put_new
      put_succeeds rv db s admitted new fits = ground (
        arith,
        get-eq-view env rv db s,
        codec.object_encodes (new_object rv),
        put_object-Fits rv (none, db) refl s fits,
        put_object-Fits rv (create_project env rv db) (create_project-Fits rv db s fits)
            (create_project-IsSound env lawful codec rv db s) fits,
      )
