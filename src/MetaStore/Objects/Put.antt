-- ===== src/MetaStore/Objects/Put.antt =====
-- Put of meta_store.go against a map from oids to objects.
use lfs_server_go.Prelude.{
  ◌≡◌, refl, ◌∙◌, ap, ◌⊎◌, inl, inr, true, false, Option, none, some, [], arith, Bool-cases,
  List-cases, if◌then◌else◌,
}
use lfs_server_go.Text.{Bytes, ◌==◌}
use lfs_server_go.Text.Laws.{eq_iff}
use lfs_server_go.Errors.{Result, ok, err, Error, forbidden}
use lfs_server_go.Types.{RequestVars, MetaObject}
use lfs_server_go.Bolt.{objects, projects, IsBolt, IsGob, update}
use lfs_server_go.MetaStore.{
  Env, authenticate, find_object, get, create_project, find_project, new_object, new_project,
  put_object, put_new, put, write,
}
use lfs_server_go.MetaStore.Transactions.{
  Result-cases, ne_of_test, write-ok, update-ok, update-err, update_keeps,
}
use lfs_server_go.MetaStore.Objects.{view, view_of_same, get-eq-view}
use lfs_server_go.MetaStore.Invariant.{IsSound}
use lfs_server_go.MetaStore.Invariant.Methods.{
  HasProject, create_project-HasProject, create_project-IsSound,
}

module _ {DB Conn : Type 0} (env : Env DB Conn) where
  open env use {bolt, gob}

  -- What Put does to the objects that a client can see.
  pub data PutSpec (rv : RequestVars) (db : DB) (r : Result MetaObject) (db' : DB) : Type 0 where
    refused :
        authenticate env rv.authorization db ≡ false
        → r ≡ err forbidden
        → db' ≡ db
        → PutSpec rv db r db'
    existed :
        (m : MetaObject)
        → authenticate env rv.authorization db ≡ true
        → view env rv.oid db ≡ some m
        → r ≡ ok (record m { existing = true })
        → db' ≡ db
        → PutSpec rv db r db'
    created :
        authenticate env rv.authorization db ≡ true
        → view env rv.oid db ≡ none
        → r ≡ ok (new_object rv)
        → ((oid : Bytes)
            → view env oid db' ≡ (if rv.oid == oid then some (new_object rv) else view env oid db))
        → (rv.repo ≡ []) ⊎ HasProject env rv.repo db'
        → PutSpec rv db r db'
    failed :
        (e : Error)
        → authenticate env rv.authorization db ≡ true
        → view env rv.oid db ≡ none
        → r ≡ err e
        → ((oid : Bytes) → view env oid db' ≡ view env oid db)
        → PutSpec rv db r db'

  -- The same objects are seen.
  abbrev SameView : DB → DB → Type 0
  SameView db db' = (oid : Bytes) → view env oid db' ≡ view env oid db

  module _ (lawful : IsBolt bolt) (codec : IsGob gob) where
    other_bucket :
        (k v : Bytes) (db db' : DB) (oid : Bytes)
        → bolt.put db projects k v ≡ ok db'
        → view env oid db' ≡ view env oid db
    other_bucket k v db db' oid e =
        view_of_same env oid db db' (lawful.has-put db db' projects objects k v e)
          (lawful.get-put db db' projects objects k v oid e)

    create_project-SameView :
        (rv : RequestVars) (db : DB) → SameView db (create_project env rv db).1
    unfolding create_project
    create_project-SameView rv db oid = elim (Result-cases (find_project env rv.repo db)) [
      | inl (p, there) ↦ rw (there, create_project) refl
      | inr (e, missing) ↦
          rw (missing, create_project)
            (elim (Bool-cases (rv.repo == [])) [
              | inl blank ↦ rw blank refl
              | inr named ↦ rw named (
                  update_keeps env (λ db'. view env oid db' ≡ view env oid db)
                    (write env projects rv.repo (gob.encode_project (new_project rv)).0) db refl
                    (λ db' e.
                      other_bucket rv.repo _ db db' oid (write-ok env projects rv.repo _ db db' e)))
            ])
    ]

    -- A transaction that wrote an object shows it, and leaves the others.
    view-put :
        (rv : RequestVars) (db db' : DB) (oid : Bytes)
        → IsSound env db
        → bolt.put db objects rv.oid (gob.encode_object (new_object rv)).0 ≡ ok db'
        → view env oid db' ≡ (if rv.oid == oid then some (new_object rv) else view env oid db)
    unfolding view find_object
    view-put rv db db' oid s e = elim (Bool-cases (rv.oid == oid)) [
      | inr other ↦ rw other (
          view_of_same env oid db db' (lawful.has-put db db' objects objects _ _ e)
            (ground (arith, lawful.get-put db db' objects objects _ _ oid e)))
      | inl here ↦ elim (List-cases (gob.encode_object (new_object rv)).0) [
        | inl blank ↦ absurd (codec.object_bytes (new_object rv) blank)
        | inr (c, rest, bytes) ↦ ground (
          arith,
          s.buckets objects,
          codec.object_decodes (new_object rv),
          lawful.has-put db db' objects objects _ _ e,
          lawful.get-put db db' objects objects _ _ oid e,
        )
      ]
    ]

    -- The result of the last transaction, once its database is known.
    finish :
        (rv : RequestVars) (db db1 : DB) (u : Option Error × DB)
        → authenticate env rv.authorization db ≡ true
        → IsSound env db1
        → view env rv.oid db ≡ none
        → SameView db db1
        → (rv.repo ≡ []) ⊎ HasProject env rv.repo db1
        → (u.0 ≡ none → bolt.put db1 objects rv.oid (gob.encode_object (new_object rv)).0 ≡ ok u.1)
        → ((e : Error) → u.0 ≡ some e → u.1 ≡ db1)
        → PutSpec rv db (elim u.0 [ none ↦ ok (new_object rv) | some e ↦ err e ]) u.1
    finish rv db db1 (some e, db2) admitted s new kept project made unmade =
        failed e admitted new refl (λ oid. rw (unmade e refl) (kept oid))
    finish rv db db1 (none, db2) admitted s new kept project made unmade =
        created admitted new refl
          (λ oid.
            view-put rv db1 db2 oid s (made refl)
            ∙ ap (λ o. if rv.oid == oid then some (new_object rv) else o) (kept oid))
          (elim project [
            | inl blank ↦ inl blank
            | inr (w, there) ↦
                inr (w, rw (lawful.get-put db1 db2 objects projects _ _ rv.repo (made refl)) there)
          ])

    put_object-PutSpec :
        (rv : RequestVars) (db db1 : DB) (outcome : Option Error)
        → authenticate env rv.authorization db ≡ true
        → IsSound env db1
        → view env rv.oid db ≡ none
        → SameView db db1
        → (outcome ≡ none → (rv.repo ≡ []) ⊎ HasProject env rv.repo db1)
        → PutSpec rv db (put_object env rv (outcome, db1)).0 (put_object env rv (outcome, db1)).1
    unfolding put_object
    put_object-PutSpec rv db db1 (some e) admitted s new kept project =
        failed e admitted new refl kept
    put_object-PutSpec rv db db1 none admitted s new kept project =
        let f = write env objects rv.oid (gob.encode_object (new_object rv)).0 in
        finish rv db db1 (update bolt f db1) admitted s new kept (project refl)
          (λ h. write-ok env objects rv.oid _ db1 _ (update-ok env f db1 h))
          (λ e h. update-err env f db1 e h)

    put_new-PutSpec :
        (rv : RequestVars) (db : DB)
        → authenticate env rv.authorization db ≡ true
        → IsSound env db
        → view env rv.oid db ≡ none
        → PutSpec rv db (put_new env rv db).0 (put_new env rv db).1
    unfolding put_new
    put_new-PutSpec rv db admitted s new =
        rw (codec.object_encodes (new_object rv), put_new)
          (elim (Bool-cases (rv.repo == [])) [
            | inl blank ↦ rw blank (
                put_object-PutSpec rv db db none admitted s new (λ _. refl)
                  (λ _. inl ((eq_iff rv.repo []).0 blank)))
            | inr named ↦ rw named (
                put_object-PutSpec rv db (create_project env rv db).1 (create_project env rv db).0
                  admitted (create_project-IsSound env lawful codec rv db s) new
                  (create_project-SameView rv db)
                  (λ h. inr (
                    create_project-HasProject env lawful codec rv db (ne_of_test rv.repo named) h)))
          ])

    -- Put, in a sound database: refused without a valid authorization; the object that is there,
    -- marked as existing, with nothing changed; or, where there is none, a new object of the
    -- request, which from then on is the one of that oid, beside the others as they were, with a
    -- project for its repository; or an error, with every object as it was.
    pub put-PutSpec :
        (rv : RequestVars) (db : DB)
        → IsSound env db
        → PutSpec rv db (put env rv db).0 (put env rv db).1
    unfolding put
    put-PutSpec rv db s = elim (Bool-cases (authenticate env rv.authorization db)) [
      | inr out ↦ refused out (ground arith) (ground arith)
      | inl admitted ↦ elim (Result-cases (get env rv db)) [
        | inl (m, there) ↦
            existed m admitted (ground (arith, get-eq-view env rv db s)) (ground arith)
              (ground arith)
        | inr (e, missing) ↦
            let new : view env rv.oid db ≡ none = ground (arith, get-eq-view env rv db s) in
            rw (admitted, put) (rw (missing, put) (put_new-PutSpec rv db admitted s new))
      ]
    ]
