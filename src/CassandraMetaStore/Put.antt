-- ===== src/CassandraMetaStore/Put.antt =====
-- What Put of cassandra_meta_store.go leaves in the cluster.
use lfs_server_go.Prelude.{
  ◌≡◌, refl, sym, ap, ◌∙◌, ◌≢◌, inl, inr, true, false, Option, none, some, [], arith, Bool-cases,
  Option-cases, if◌then◌else◌,
}
use lfs_server_go.Text.{Bytes, ◌==◌}
use lfs_server_go.Text.Laws.{eq_iff, eq_refl, Lacks}
use lfs_server_go.Errors.{Error, Result, ok, err, forbidden}
use lfs_server_go.Types.{ℤ, RequestVars, MetaObject}
use lfs_server_go.Bolt.{IsGob}
use lfs_server_go.MetaStore.Transactions.{Result-cases}
use lfs_server_go.Panics.{Action, ◌>>=◌, call, pure, perror}
use lfs_server_go.Panics.Laws.{bind_leaves, bind_done, perror_keeps, perror_done}
use lfs_server_go.CassandraMetaStore.Session.{IsCqlSession, quote}
use lfs_server_go.CassandraMetaStore.{
  CassandraEnv, object_of, authenticate, find_oid, create_oid, get, encoded, link_named, put_new,
  put,
}
use lfs_server_go.CassandraMetaStore.Links.{HasOid, link_named-SameOids, link_named-HasOid}

module _ {S Conn : Type 0} (env : CassandraEnv S Conn) (lawful : IsCqlSession env.session)
    (gobs : IsGob env.gob) where
  open env use {session, gob}

  -- What `Put` of a new oid that returns has done.
  pub record IsCreated (v : RequestVars) (s s' : S) : Type 0 where
    pub oids :
        (j : Bytes)
        → session.scan_oid j s'
          ≡ (if v.oid == j then some (v.oid, v.size) else session.scan_oid j s)
    pub found : find_oid env v.oid s' ≡ ok (object_of v.oid v.size)
    pub project : v.repo ≢ [] → HasOid env v.oid v.repo s'

  oid_found :
      (oid : Bytes) (size : ℤ) (s : S)
      → oid ≢ []
      → session.scan_oid oid s ≡ some (oid, size)
      → find_oid env oid s ≡ ok (object_of oid size)
  unfolding find_oid
  oid_found oid size s named seen =
      let blank : (oid == []) ≡ false = ground (arith, eq_iff oid []) in
      rw (seen, find_oid) (rw (blank, find_oid) refl)

  -- The key of an insert that succeeds is not blank.
  inserted_named :
      (oid : Bytes) (size : ℤ) (s : S) → (session.insert_oid oid size s).0 ≡ none → oid ≢ []
  inserted_named oid size s done blank =
      let (e, fails) = lawful.oid_insert_blank size s in
      let same : (session.insert_oid oid size s).0 ≡ (session.insert_oid [] size s).0 =
        rw blank refl in
      absurd (ground arith)

  abbrev inserted : RequestVars → Action S (Unit {0})
  inserted v = call (create_oid env v.oid v.size) >>= perror

  abbrev finished : RequestVars → Action S (Result MetaObject)
  finished v = link_named env v >>= λ _. pure (encoded env v)

  -- Whatever becomes of it, the other oids stay.
  put_new_keeps :
      (v : RequestVars) (s : S) (j : Bytes)
      → Lacks quote v.oid
      → Lacks quote v.repo
      → v.oid ≢ j
      → session.scan_oid j (put_new env v s).1 ≡ session.scan_oid j s
  unfolding put_new create_oid
  put_new_keeps v s j plain_oid plain_repo other =
      let Kept : S → Type 0 = λ s'. session.scan_oid j s' ≡ session.scan_oid j s in
      let r = session.insert_oid v.oid v.size s in
      let first : Kept (inserted v s).1 =
        rw (perror_keeps r.0 r.1) (lawful.oid_insert_other v.oid j v.size s other) in
      bind_leaves Kept (inserted v) (λ _. finished v) s first
        (λ _ _.
          bind_leaves Kept (link_named env v) (λ _. pure (encoded env v)) (inserted v s).1
            (link_named-SameOids env lawful v (inserted v s).1 plain_oid plain_repo j ∙ first)
            (λ _ _.
              link_named-SameOids env lawful v (inserted v s).1 plain_oid plain_repo j ∙ first))

  -- Where it returns, it has created the oid.
  put_new-IsCreated :
      (v : RequestVars) (s : S) (r : Result MetaObject)
      → Lacks quote v.oid
      → Lacks quote v.repo
      → (put_new env v s).0 ≡ some r
      → (r ≡ ok (object_of v.oid v.size)) × IsCreated v s (put_new env v s).1
  unfolding put_new create_oid
  put_new-IsCreated v s r plain_oid plain_repo h =
      let q = session.insert_oid v.oid v.size s in
      let (u, inserts, same) = bind_done (inserted v) (λ _. finished v) s r h in
      let s1 = (inserted v s).1 in
      let (u', links, same') =
        bind_done (link_named env v) (λ _. pure (encoded env v)) s1 r
          (ap (λ x. x.0) (sym same) ∙ h) in
      let whole : put_new env v s ≡ (some (encoded env v), (link_named env v s1).1) =
        same ∙ same' in
      let stored = perror_done q.0 q.1 inserts in
      let here : s1 ≡ q.1 = perror_keeps q.0 q.1 in
      let result : some r ≡ some (encoded env v) = sym h ∙ ap (λ x. x.0) whole in
      let value : encoded env v ≡ ok (object_of v.oid v.size) =
        rw (gobs.object_encodes (object_of v.oid v.size), encoded) refl in
      let oids : (j : Bytes)
          → session.scan_oid j (link_named env v s1).1
            ≡ (if v.oid == j then some (v.oid, v.size) else session.scan_oid j s) =
        λ j.
          link_named-SameOids env lawful v s1 plain_oid plain_repo j
          ∙ rw here (lawful.oid_inserted v.oid j v.size s stored) in
      (
        ground (arith, result, value),
        rw whole (record {
          oids = oids;
          found =
              oid_found v.oid v.size _ (inserted_named v.oid v.size s stored)
                (oids v.oid ∙ rw eq_refl refl);
          project = λ named. link_named-HasOid env lawful v s1 plain_oid plain_repo named links;
        }),
      )

  -- What `Put` returns (`none` where it panics) and leaves.
  pub data PutOutcome (v : RequestVars) (s : S) : Option (Result MetaObject) → S → Type 0 where
    refused : authenticate env v.authorization s ≡ false → PutOutcome v s (some (err forbidden)) s
    existed :
        {r : MetaObject}
        → authenticate env v.authorization s ≡ true
        → find_oid env v.oid s ≡ ok r
        → PutOutcome v s (some (ok (record (object_of r.oid r.size) { existing = true }))) s
    created :
        {e : Error} {s' : S}
        → authenticate env v.authorization s ≡ true
        → find_oid env v.oid s ≡ err e
        → IsCreated v s s'
        → PutOutcome v s (some (ok (object_of v.oid v.size))) s'
    panicked :
        {e : Error} {s' : S}
        → authenticate env v.authorization s ≡ true
        → find_oid env v.oid s ≡ err e
        → ((j : Bytes) → v.oid ≢ j → session.scan_oid j s' ≡ session.scan_oid j s)
        → PutOutcome v s none s'

  put_new_cases :
      (v : RequestVars) (s : S) (e : Error)
      → Lacks quote v.oid
      → Lacks quote v.repo
      → authenticate env v.authorization s ≡ true
      → find_oid env v.oid s ≡ err e
      → PutOutcome v s (put_new env v s).0 (put_new env v s).1
  put_new_cases v s e plain_oid plain_repo known missing = elim (Option-cases (put_new env v s).0) [
    | inl fails ↦ rw fails (panicked known missing (λ j. put_new_keeps v s j plain_oid plain_repo))
    | inr (r, returns) ↦
        let (value, done) = put_new-IsCreated v s r plain_oid plain_repo returns in
        rw returns (rw value (created known missing done))
  ]

  -- Put of an oid and for a project without quotes, over a cluster whose writes are seen once they
  -- succeed: a request that is not authenticated is refused, one for an oid that is there gets it,
  -- marked as existing, and neither changes anything. Another one either returns, and then the oid is
  -- found with the size of the request, the other oids are as they were and the project of the request, if it has
  -- one, is there and has the oid; or it panics, and the other oids are as they were.
  pub cassandra_put-PutOutcome :
      (v : RequestVars) (s : S)
      → Lacks quote v.oid
      → Lacks quote v.repo
      → PutOutcome v s (put env v s).0 (put env v s).1
  unfolding put get
  cassandra_put-PutOutcome v s plain_oid plain_repo =
      elim (Bool-cases (authenticate env v.authorization s)) [
        | inr unknown ↦ rw (unknown, put) (refused unknown)
        | inl known ↦ elim (Result-cases (find_oid env v.oid s)) [
          | inl (r, found) ↦
              rw (known, put)
                (rw (found, get)
                  (rw (gobs.object_encodes (object_of r.oid r.size), get) (existed known found)))
          | inr (e, missing) ↦
              rw (known, put)
                (rw (missing, get) (put_new_cases v s e plain_oid plain_repo known missing))
        ]
      ]
