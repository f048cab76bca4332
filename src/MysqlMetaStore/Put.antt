-- ===== src/MysqlMetaStore/Put.antt =====
-- What Put of mysql_meta_store.go leaves in the database.
use lfs_server_go.Prelude.{
  ◌≡◌, refl, ap, ◌∙◌, ◌≢◌, inl, inr, true, false, none, some, [], arith, Bool-cases, Option-cases,
}
use lfs_server_go.Text.{Bytes, ◌==◌}
use lfs_server_go.Text.Laws.{eq_iff}
use lfs_server_go.Errors.{Error, ok, err, project_not_found}
use lfs_server_go.Types.{ℤ, pos, RequestVars, MetaObject}
use lfs_server_go.Bolt.{IsGob}
use lfs_server_go.MetaStore.Transactions.{Result-cases}
use lfs_server_go.Panics.{◌>>=◌, call, pure, perror}
use lfs_server_go.Panics.Laws.{bind_leaves, perror_keeps}
use lfs_server_go.MysqlMetaStore.Database.{IsSqlClient, IsKey}
use lfs_server_go.MysqlMetaStore.{
  MysqlEnv, object_of, scanned, authenticate, find_project, find_oid, add_oid_to_project,
  create_oid, encoded, get, link, put_new, put,
}

module _ {S Conn : Type 0} (env : MysqlEnv S Conn) (gobs : IsGob env.gob) where
  open env use {client, gob}

  get_found :
      (v : RequestVars) (s : S) (r : MetaObject)
      → authenticate env v.authorization ≡ true
      → find_oid env v.oid s ≡ ok r
      → get env v s ≡ ok (object_of r.oid r.size)
  unfolding get
  get_found v s r known found =
      rw (known, get)
        (rw (found, get) (rw (gobs.object_encodes (object_of r.oid r.size), get) refl))

  put_known :
      (v : RequestVars) (s : S) (r : MetaObject)
      → authenticate env v.authorization ≡ true
      → get env v s ≡ ok r
      → put env v s ≡ (some (ok (record r { existing = true })), s)
  unfolding put
  put_known v s r known found = rw (known, put) (rw (found, put) refl)

  put_missing :
      (v : RequestVars) (s : S) (e : Error)
      → authenticate env v.authorization ≡ true
      → find_oid env v.oid s ≡ err e
      → put env v s ≡ put_new env v s
  unfolding put get
  put_missing v s e known missing = rw (known, put) (rw (missing, get) refl)

  encoded_value : (v : RequestVars) → encoded env v ≡ ok (object_of v.oid v.size)
  encoded_value v = rw (gobs.object_encodes (object_of v.oid v.size), encoded) refl

  -- A request without a project for an oid that is not found: Put returns the object of the request
  -- without an error and leaves what the insert of the oid left, whether or not that failed.
  pub mysql_put-insert :
      (v : RequestVars) (s : S) (e : Error)
      → authenticate env v.authorization ≡ true
      → find_oid env v.oid s ≡ err e
      → v.repo ≡ []
      → put env v s ≡ (some (ok (object_of v.oid v.size)), (client.insert_oid v.oid v.size s).1)
  unfolding put_new link create_oid perror ◌==◌
  mysql_put-insert v s e known missing blank =
      put_missing v s e known missing ∙ rw (blank, link) (rw (encoded_value v) refl)

  module _ (lawful : IsSqlClient env.client) where
    found_inserted :
        (oid : Bytes) (size : ℤ) (s : S)
        → oid ≢ []
        → IsKey oid
        → (client.insert_oid oid size s).0 ≡ none
        → find_oid env oid (client.insert_oid oid size s).1 ≡ ok (object_of oid size)
    unfolding find_oid scanned
    found_inserted oid size s named key done =
        let blank : (oid == []) ≡ false = ground (arith, eq_iff oid []) in
        let seen = lawful.oid_inserted oid size s ([], pos 0) key done in
        ap scanned seen ∙ rw (blank, scanned) refl

    added_keeps :
        (v : RequestVars) (s : S) (j : Bytes)
        → client.scan_oid j ((call (add_oid_to_project env v.oid v.repo) >>= perror) s).1
          ≡ client.scan_oid j s
    unfolding add_oid_to_project
    added_keeps v s j =
        let id = (client.scan_project v.repo s (pos 0, [])).1.0 in
        rw perror_keeps (lawful.map_insert_oids v.oid j id s)

    -- The part about the project does not touch the oids.
    link_keeps :
        (v : RequestVars) (s : S) (j : Bytes)
        → client.scan_oid j (link env v s).1 ≡ client.scan_oid j s
    unfolding link add_oid_to_project
    link_keeps v s j = elim (Bool-cases (v.repo == [])) [
      | inl blank ↦ rw (blank, link) refl
      | inr named ↦ elim (Option-cases (find_project env v.repo s)) [
        | inl panics ↦ rw (named, link) (rw (panics, link) refl)
        | inr (looked, got) ↦ elim (Result-cases looked) [
          | inr (e, unknown) ↦ rw (named, link) (rw (got, link) (rw (unknown, link) refl))
          | inl (p, there) ↦
              rw (named, link)
                (rw (got, link)
                  (rw (there, link)
                    (bind_leaves (λ s'. client.scan_oid j s' ≡ client.scan_oid j s)
                      (call (add_oid_to_project env v.oid v.repo) >>= perror) (λ _. pure none) s
                      (added_keeps v s j) (λ _ _. added_keeps v s j))))
        ]
      ]
    ]

    same_found :
        (oid : Bytes) (s s' : S)
        → client.scan_oid oid s' ≡ client.scan_oid oid s
        → find_oid env oid s' ≡ find_oid env oid s
    unfolding find_oid
    same_found oid s s' same = ap (λ row. scanned (row ([], pos 0))) same

    put_new_keeps :
        (v : RequestVars) (s : S) (j : Bytes)
        → client.scan_oid j (put_new env v s).1
          ≡ client.scan_oid j (client.insert_oid v.oid v.size s).1
    unfolding put_new create_oid perror
    put_new_keeps v s j =
        let s1 = (client.insert_oid v.oid v.size s).1 in
        bind_leaves (λ s'. client.scan_oid j s' ≡ client.scan_oid j s1) (link env v)
          (λ stop. pure (elim stop [ some e ↦ err e | none ↦ encoded env v ])) s1
          (link_keeps v s1 j) (λ _ _. link_keeps v s1 j)

    -- An authenticated Put of an oid, of 1 to 255 ASCII characters, that is not found and whose
    -- insert succeeds: Get finds it afterwards with the size of the request, whether Put returned the
    -- object or an error or panicked.
    pub mysql_get-put :
        (v : RequestVars) (s : S) (e : Error)
        → authenticate env v.authorization ≡ true
        → v.oid ≢ []
        → IsKey v.oid
        → find_oid env v.oid s ≡ err e
        → (client.insert_oid v.oid v.size s).0 ≡ none
        → get env v (put env v s).1 ≡ ok (object_of v.oid v.size)
    mysql_get-put v s e known named key missing done = rw (put_missing v s e known missing) (
        get_found v (put_new env v s).1 (object_of v.oid v.size) known (
          same_found v.oid (client.insert_oid v.oid v.size s).1 (put_new env v s).1
            (put_new_keeps v s v.oid)
          ∙ found_inserted v.oid v.size s named key done))

    -- An authenticated Put of such an oid, for a project that has a name and is not found after the
    -- insert: it returns the error that there is no such project, and the same Put again returns the
    -- object as one that exists and changes nothing.
    pub mysql_put-put :
        (v : RequestVars) (s : S) (e unknown : Error)
        → authenticate env v.authorization ≡ true
        → v.oid ≢ []
        → IsKey v.oid
        → v.repo ≢ []
        → find_oid env v.oid s ≡ err e
        → (client.insert_oid v.oid v.size s).0 ≡ none
        → find_project env v.repo (client.insert_oid v.oid v.size s).1 ≡ some (err unknown)
        → ((put env v s).0 ≡ some (err project_not_found))
          × (put env v (put env v s).1
              ≡ (some (ok (record (object_of v.oid v.size) { existing = true })), (put env v s).1))
    unfolding put_new link create_oid perror
    mysql_put-put v s e unknown known named key for_project missing done no_project =
        let test : (v.repo == []) ≡ false = ground (arith, eq_iff v.repo []) in
        (
          ap (λ x. x.0) (put_missing v s e known missing)
              ∙ rw (test, link) (rw (no_project, link) refl),
          put_known v (put env v s).1 (object_of v.oid v.size) known
              (mysql_get-put v s e known named key missing done),
        )
