-- ===== src/MetaStore/Invariant.antt =====
-- What holds of every database that the store makes (NewMetaStore and the methods of meta_store.go).
pub mod Methods
use lfs_server_go.Prelude.{
  ◌≡◌, refl, sym, ◌∙◌, ◌≢◌, ◌⊎◌, inl, inr, Bool, true, false, Option, none, some, List, [], ◌∷◌,
  arith, Bool-cases, Option-cases, if◌then◌else◌, ◌&&◌,
}
use mathlib.Core.Path.{subst₂}
use lfs_server_go.Text.{Bytes, ◌==◌}
use lfs_server_go.Text.Laws.{eq_iff, eq_refl}
use lfs_server_go.Errors.{Result, ok, err, Error}
use lfs_server_go.Types.{RequestVars, MetaObject, MetaProject}
use lfs_server_go.Bolt.{
  Bucket, users, objects, projects, same, Bolt, IsBolt, Gob, IsGob, bytes_of, update, conclude,
}
use lfs_server_go.MetaStore.Transactions.{get-put_cases, put_keeps}
use lfs_server_go.MetaStore.{
  Env, find_object, get, find_project, write, new_project, create_project, new_object, put_object,
  put_new, put, add_user, delete_user, new_meta_store,
}

module _ {DB Conn : Type 0} (env : Env DB Conn) where
  open env use {bolt, gob}

  -- What is stored under an oid: an object of that oid, made by the request of one repository.
  pub record IsObject (oid v : Bytes) : Type 0 where
    pub object : MetaObject
    pub repo : Bytes
    pub decodes : gob.decode_object v ≡ ok object
    pub not_blank : v ≢ []
    pub keyed : object.oid ≡ oid
    pub fresh : object.existing ≡ false
    pub one_project : object.project_names ≡ repo ∷ []

  pub record IsProject (name v : Bytes) : Type 0 where
    pub project : MetaProject
    pub decodes : gob.decode_project v ≡ ok project
    pub not_blank : v ≢ []
    pub keyed : project.name ≡ name
    pub named : name ≢ []

  pub record IsSound (db : DB) : Type 0 where
    pub buckets : (c : Bucket) → bolt.has_bucket db c ≡ true
    pub object_at : (k v : Bytes) → bolt.get db objects k ≡ some v → IsObject k v
    pub project_at : (k v : Bytes) → bolt.get db projects k ≡ some v → IsProject k v
    -- the repository of an object has its project
    pub has_project :
        (k v repo : Bytes) (m : MetaObject)
        → bolt.get db objects k ≡ some v
        → gob.decode_object v ≡ ok m
        → m.project_names ≡ repo ∷ []
        → repo ≢ []
        → (w : Bytes) × (bolt.get db projects repo ≡ some w)

  module _ (lawful : IsBolt bolt) (codec : IsGob gob) where
    -- What `createProject` writes.
    written-IsProject :
        (rv : RequestVars)
        → rv.repo ≢ []
        → IsProject rv.repo (gob.encode_project (new_project rv)).0
    written-IsProject rv h = record {
      project = new_project rv;
      decodes = codec.project_decodes (new_project rv);
      not_blank = codec.project_bytes (new_project rv);
      keyed = refl;
      named = h;
    }

    written-IsObject : (rv : RequestVars) → IsObject rv.oid (gob.encode_object (new_object rv)).0
    written-IsObject rv = record {
      object = new_object rv;
      repo = rv.repo;
      decodes = codec.object_decodes (new_object rv);
      not_blank = codec.object_bytes (new_object rv);
      keyed = refl;
      fresh = refl;
      one_project = refl;
    }

    -- Nothing but a write to the two buckets of the invariant can break it.
    pub IsSound-of_same :
        (db db' : DB)
        → ((c : Bucket) → bolt.has_bucket db' c ≡ bolt.has_bucket db c)
        → ((k : Bytes) → bolt.get db' objects k ≡ bolt.get db objects k)
        → ((k : Bytes) → bolt.get db' projects k ≡ bolt.get db projects k)
        → IsSound db
        → IsSound db'
    IsSound-of_same db db' hb ho hp s = record {
      buckets = λ c. rw hb (s.buckets c);
      object_at = λ k v e. s.object_at k v (rw ho at e);
      project_at = λ k v e. s.project_at k v (rw hp at e);
      has_project = λ k v repo m e d n h. rw hp (s.has_project k v repo m (rw ho at e) d n h);
    }

    pub project-IsSound :
        (rv : RequestVars) (db db' : DB)
        → rv.repo ≢ []
        → IsSound db
        → bolt.put db projects rv.repo (gob.encode_project (new_project rv)).0 ≡ ok db'
        → IsSound db'
    project-IsSound rv db db' named s e = record {
      buckets = λ c. rw (lawful.has-put db db' projects c _ _ e) (s.buckets c);
      object_at =
          λ k v q. s.object_at k v (rw (lawful.get-put db db' projects objects _ _ k e) at q);
      project_at = λ k v q. elim (get-put_cases env lawful db db' projects rv.repo _ k v refl e q) [
        | inl (at_k, is_v) ↦ subst₂ IsProject at_k is_v (written-IsProject rv named)
        | inr old ↦ s.project_at k v old
      ];
      has_project = λ k v repo m q d n h.
          put_keeps env lawful db db' projects rv.repo _ repo refl e (
            s.has_project k v repo m (rw (lawful.get-put db db' projects objects _ _ k e) at q) d n
              h);
    }

    pub object-IsSound :
        (rv : RequestVars) (db db' : DB)
        → (rv.repo ≢ [] → (w : Bytes) × (bolt.get db projects rv.repo ≡ some w))
        → IsSound db
        → bolt.put db objects rv.oid (gob.encode_object (new_object rv)).0 ≡ ok db'
        → IsSound db'
    object-IsSound rv db db' project s e = record {
      buckets = λ c. rw (lawful.has-put db db' objects c _ _ e) (s.buckets c);
      object_at = λ k v q. elim (get-put_cases env lawful db db' objects rv.oid _ k v refl e q) [
        | inl (at_k, is_v) ↦ subst₂ IsObject at_k is_v (written-IsObject rv)
        | inr old ↦ s.object_at k v old
      ];
      project_at =
          λ k v q. s.project_at k v (rw (lawful.get-put db db' objects projects _ _ k e) at q);
      has_project = λ k v repo m q d n h.
          rw (lawful.get-put db db' objects projects _ _ repo e)
            (elim (get-put_cases env lawful db db' objects rv.oid _ k v refl e q) [
              | inl (at_k, is_v) ↦
                  let is_m : ok (new_object rv) ≡ ok m =
                    sym (codec.object_decodes (new_object rv)) ∙ (rw (← is_v) at d) in
                  let is_repo : rv.repo ≡ repo = cc in
                  rw (← is_repo) (project (rw (← is_repo) at h))
              | inr old ↦ s.has_project k v repo m old d n h
            ]);
    }
