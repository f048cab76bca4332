-- ===== src/MetaStore/Transactions.antt =====
-- Transactions of bolt as meta_store.go uses them: what they leave when they succeed or fail.
use lfs_server_go.Prelude.{
  ◌≡◌, refl, ◌≢◌, ◌⊎◌, inl, inr, true, false, none, some, [], arith, Bool-cases, Option-cases,
}
use lfs_server_go.Text.{Bytes, ◌==◌}
use lfs_server_go.Text.Laws.{eq_iff}
use lfs_server_go.Errors.{Result, ok, err, Error}
use lfs_server_go.Bolt.{Bucket, same, IsBolt, update, conclude}
use lfs_server_go.MetaStore.{Env, write}

pub Result-cases {ℓ} :
    {A : Type ℓ} (r : Result A) → ((a : A) × (r ≡ ok a)) ⊎ ((e : Error) × (r ≡ err e))
Result-cases (ok a) = inl (a, refl)
Result-cases (err e) = inr (e, refl)

pub test_of_ne : (s : Bytes) → s ≢ [] → (s == []) ≡ false
test_of_ne s h = ground (arith, eq_iff s [])

pub ne_of_test : (s : Bytes) → (s == []) ≡ false → s ≢ []
ne_of_test s h = ground (arith, eq_iff s [])

module _ {DB Conn : Type 0} (env : Env DB Conn) where
  open env use {bolt}

  pub write-ok :
      (c : Bucket) (k v : Bytes) (db db' : DB)
      → write env c k v db ≡ ok db'
      → bolt.put db c k v ≡ ok db'
  write-ok c k v db db' h = elim (Bool-cases (bolt.has_bucket db c)) [
    | inl there ↦ rw there at h
    | inr missing ↦ absurd (ground arith)
  ]

  -- A transaction that returns no error has made its changes.
  pub update-ok :
      (f : DB → Result DB) (db : DB) → (update bolt f db).0 ≡ none → f db ≡ ok (update bolt f db).1
  update-ok f db h = elim (Result-cases (f db)) [
    | inr (e, failed) ↦ absurd (ground arith)
    | inl (db', made) ↦ elim (Option-cases (bolt.commit db')) [
      | inl done ↦ ground arith
      | inr (e, failed) ↦ absurd (ground arith)
    ]
  ]

  -- One that returns an error has changed nothing.
  pub update-err :
      (f : DB → Result DB) (db : DB) (e : Error)
      → (update bolt f db).0 ≡ some e
      → (update bolt f db).1 ≡ db
  update-err f db e h = elim (Result-cases (f db)) [
    | inr (x, failed) ↦ ground arith
    | inl (db', made) ↦ elim (Option-cases (bolt.commit db')) [
      | inl done ↦ absurd (ground arith)
      | inr (x, failed) ↦ ground arith
    ]
  ]

  -- A property that the function of a transaction keeps is kept by the transaction.
  pub update_keeps :
      (P : DB → Type 0) (f : DB → Result DB) (db : DB)
      → P db
      → ((db' : DB) → f db ≡ ok db' → P db')
      → P (update bolt f db).1
  update_keeps P f db h step = go (f db) refl
    where
      go : (r : Result DB) → f db ≡ r → P (conclude bolt db r).1
      go (err e) q = h
      go (ok db') q = elim (Option-cases (bolt.commit db')) [
        | inl done ↦ rw (done, conclude) (step db' q)
        | inr (e, failed) ↦ rw (failed, conclude) h
      ]

  module _ (lawful : IsBolt bolt) where
    -- A read of the bucket that was written gives the new pair or an old one.
    pub get-put_cases :
        (db db' : DB) (c : Bucket) (k v j w : Bytes)
        → same c c ≡ true
        → bolt.put db c k v ≡ ok db'
        → bolt.get db' c j ≡ some w
        → ((k ≡ j) × (v ≡ w)) ⊎ (bolt.get db c j ≡ some w)
    get-put_cases db db' c k v j w r e q =
        let after = lawful.get-put db db' c c k v j e in
        elim (Bool-cases (k == j)) [
          | inl here ↦ inl ((eq_iff k j).0 here, ground arith)
          | inr other ↦ inr (ground arith)
        ]

    -- What is there stays there.
    pub put_keeps :
        (db db' : DB) (c : Bucket) (k v j : Bytes)
        → same c c ≡ true
        → bolt.put db c k v ≡ ok db'
        → (w : Bytes) × (bolt.get db c j ≡ some w)
        → (w : Bytes) × (bolt.get db' c j ≡ some w)
    put_keeps db db' c k v j r e (w, old) =
        let after = lawful.get-put db db' c c k v j e in
        elim (Bool-cases (k == j)) [ inl here ↦ (v, ground arith) | inr other ↦ (w, ground arith) ]
