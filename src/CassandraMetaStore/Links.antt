-- ===== src/CassandraMetaStore/Links.antt =====
-- The part of Put of cassandra_meta_store.go that is about the project of the request.
use lfs_server_go.Prelude.{
  ◌≡◌, refl, sym, ap, ◌∙◌, ◌≢◌, inl, inr, false, Option, none, some, [], arith, Bool-cases,
  Option-cases, ltb,
}
use mathlib.Core.List.{Memᴰ}
use lfs_server_go.Text.{Bytes, ◌==◌}
use lfs_server_go.Text.Laws.{eq_iff, Lacks}
use lfs_server_go.Errors.{Error, ok}
use lfs_server_go.Types.{RequestVars, MetaProject}
use lfs_server_go.MetaStore.Transactions.{Result-cases}
use lfs_server_go.Panics.{Action, ◌>>=◌, call, perror}
use lfs_server_go.Panics.Laws.{bind_leaves, bind_done, perror_keeps, perror_done}
use lfs_server_go.CassandraMetaStore.Session.{IsCqlSession, quote, add_oid_text}
use lfs_server_go.CassandraMetaStore.{
  CassandraEnv, find_project, create_project, add_oid_to_project, ensure_project, link, link_named,
}

module _ {S Conn : Type 0} (env : CassandraEnv S Conn) where
  -- A project that has the oid.
  abbrev pub HasOid : Bytes → Bytes → S → Type 0
  HasOid oid repo s = (p : MetaProject) × (find_project env repo s ≡ ok p) × Memᴰ oid p.oids

module _ {S Conn : Type 0} (env : CassandraEnv S Conn) (lawful : IsCqlSession env.session) where
  open env use {session}

  -- The oids are as they were.
  abbrev SameOids : S → S → Type 0
  SameOids s s' = (j : Bytes) → session.scan_oid j s' ≡ session.scan_oid j s

  perror-SameOids : (s s' : S) (r : Option Error) → SameOids s s' → SameOids s (perror r s').1
  perror-SameOids s s' r same = rw (perror_keeps r s') same

  create_project-SameOids : (repo : Bytes) (s : S) → SameOids s (create_project env repo s).1
  unfolding create_project
  create_project-SameOids repo s j = elim (Option-cases (session.count_projects repo s)) [
    | inl missing ↦ rw (missing, create_project) refl
    | inr (n, counted) ↦ elim (Bool-cases (ltb 0 n)) [
      | inl there ↦ rw (counted, there, create_project) refl
      | inr first ↦ rw (counted, first, create_project) (lawful.project_insert_oids repo j s)
    ]
  ]

  ensure_project-SameOids : (repo : Bytes) (s : S) → SameOids s (ensure_project env repo s).1
  unfolding ensure_project
  ensure_project-SameOids repo s = elim (Result-cases (find_project env repo s)) [
    | inl (p, found) ↦ rw (found, ensure_project) (λ j. refl)
    | inr (e, missing) ↦
        rw (missing, ensure_project)
          (bind_leaves (SameOids s) (create_project env repo) perror s
            (create_project-SameOids repo s)
            (λ r _.
              perror-SameOids s (create_project env repo s).1 r (create_project-SameOids repo s)))
  ]

  abbrev add : RequestVars → Action S (Unit {0})
  add v = call (add_oid_to_project env v.oid v.repo) >>= perror

  -- The oid is added to the project that was found or made, whatever that left.
  link-SameOids :
      (v : RequestVars) (s : S)
      → Lacks quote v.oid
      → Lacks quote v.repo
      → SameOids s (link env v s).1
  unfolding link add_oid_to_project
  link-SameOids v s plain_oid plain_repo =
      let s1 = (ensure_project env v.repo s).1 in
      bind_leaves (SameOids s) (ensure_project env v.repo) (λ _. add v) s
        (ensure_project-SameOids v.repo s)
        (λ _ _. perror-SameOids s _ (session.run_text (add_oid_text v.oid v.repo) s1).0 (λ j.
          lawful.oid_add_oids v.oid v.repo j s1 plain_oid plain_repo
          ∙ ensure_project-SameOids v.repo s j))

  added-HasOid :
      (oid repo : Bytes) (s : S)
      → Lacks quote oid
      → Lacks quote repo
      → repo ≢ []
      → (add_oid_to_project env oid repo s).0 ≡ none
      → HasOid env oid repo (add_oid_to_project env oid repo s).1
  unfolding add_oid_to_project find_project
  added-HasOid oid repo s plain_oid plain_repo named done =
      let (p, found, name, has) = lawful.oid_added oid repo s plain_oid plain_repo done in
      let blank : (repo == []) ≡ false = ground (arith, eq_iff repo []) in
      (
        p,
        rw (blank, find_project)
            (rw (found, find_project) (rw (name, find_project) (rw (blank, find_project) refl))),
        has,
      )

  link-HasOid :
      (v : RequestVars) (s : S)
      → Lacks quote v.oid
      → Lacks quote v.repo
      → v.repo ≢ []
      → (link env v s).0 ≡ some tt
      → HasOid env v.oid v.repo (link env v s).1
  unfolding link add_oid_to_project
  link-HasOid v s plain_oid plain_repo named h =
      let (u, made, same) = bind_done (ensure_project env v.repo) (λ _. add v) s tt h in
      let s1 = (ensure_project env v.repo s).1 in
      let done = perror_done _ _ (ap (λ x. x.0) (sym same) ∙ h) in
      rw same (rw perror_keeps (added-HasOid v.oid v.repo s1 plain_oid plain_repo named done))

  pub link_named-SameOids :
      (v : RequestVars) (s : S)
      → Lacks quote v.oid
      → Lacks quote v.repo
      → SameOids s (link_named env v s).1
  unfolding link_named
  link_named-SameOids v s plain_oid plain_repo = elim (Bool-cases (v.repo == [])) [
    | inl blank ↦ rw (blank, link_named) (λ j. refl)
    | inr named ↦ rw (named, link_named) (link-SameOids v s plain_oid plain_repo)
  ]

  pub link_named-HasOid :
      (v : RequestVars) (s : S)
      → Lacks quote v.oid
      → Lacks quote v.repo
      → v.repo ≢ []
      → (link_named env v s).0 ≡ some tt
      → HasOid env v.oid v.repo (link_named env v s).1
  unfolding link_named
  link_named-HasOid v s plain_oid plain_repo named h =
      let test : (v.repo == []) ≡ false = ground (arith, eq_iff v.repo []) in
      let done = rw (test, link_named) at h in
      rw (test, link_named) (link-HasOid v s plain_oid plain_repo named done)
