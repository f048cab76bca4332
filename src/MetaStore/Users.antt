-- ===== src/MetaStore/Users.antt =====
-- AddUser, DeleteUser and Users of meta_store.go.
use lfs_server_go.Prelude.{
  ◌≡◌, refl, ap, sym, ◌≢◌, ◌⊎◌, inl, inr, true, false, Option, none, [], arith, Bool-cases,
  if_intro, length, ◌<◌, ◌≤◌, List-cases,
}
use lfs_server_go.Text.{Bytes}
use lfs_server_go.Text.Laws.{eq_iff, eq_refl}
use lfs_server_go.Errors.{ok, Error}
use lfs_server_go.Bcrypt.{encrypt_pass, check_pass, IsHashing}
use lfs_server_go.Bolt.{users, IsBolt, bytes_of}
use lfs_server_go.MetaStore.{
  Env, stored_hash, check_user, add_user, add_user_tx, delete_user, delete_user_tx,
}
use lfs_server_go.MetaStore.Transactions.{Result-cases, update-ok, update_keeps}

module _ {DB Conn : Type 0} (env : Env DB Conn) where
  open env use {bolt, hashing}

  -- A transaction of AddUser that succeeds has left the user alone, or written a new hash.
  pub add_user_tx-ok :
      (salt user pass : Bytes) (db db' : DB)
      → add_user_tx env salt user pass db ≡ ok db'
      → (db ≡ db')
        ⊎ ((h : Bytes) × (encrypt_pass hashing salt pass ≡ ok h)
            × (bytes_of (bolt.get db users user) ≡ [])
            × (bolt.put db users user h ≡ ok db'))
  unfolding add_user_tx
  add_user_tx-ok salt user pass db db' e = elim (Bool-cases (bolt.has_bucket db users)) [
    | inr missing ↦ absurd (ground arith)
    | inl there ↦ elim (Result-cases (encrypt_pass hashing salt pass)) [
      | inr (x, failed) ↦ absurd (ground arith)
      | inl (h, hashed) ↦ elim (List-cases (bytes_of (bolt.get db users user))) [
        | inl new_user ↦ inr (h, hashed, new_user, ground arith)
        | inr (c, rest, old) ↦ inl (ground arith)
      ]
    ]
  ]

  pub delete_user_tx-ok :
      (user : Bytes) (db db' : DB)
      → delete_user_tx env user db ≡ ok db'
      → bolt.delete db users user ≡ ok db'
  unfolding delete_user_tx
  delete_user_tx-ok user db db' e = elim (Bool-cases (bolt.has_bucket db users)) [
    | inr missing ↦ absurd (ground arith)
    | inl there ↦ rw there at e
  ]

  -- A user who has a hash keeps it: AddUser changes nothing.
  add_user-known :
      (salt user pass : Bytes) (db : DB)
      → bytes_of (bolt.get db users user) ≢ []
      → (add_user env salt user pass db).1 ≡ db
  unfolding add_user
  add_user-known salt user pass db known =
      if_intro (λ (r : Option Error × DB). r.1 ≡ db) env.cfg.ldap.enabled _ _ (λ _. refl)
        (λ _.
          update_keeps env (λ db'. db' ≡ db) (add_user_tx env salt user pass) db refl
            (λ db' e. elim (add_user_tx-ok salt user pass db db' e) [
              | inl unchanged ↦ sym unchanged
              | inr (h, hashed, unknown, made) ↦ absurd (known unknown)
            ]))

  module _ (lawful : IsBolt bolt) (bcrypt : IsHashing hashing) where
    -- With the LDAP directory off, a user who has no hash yet, a hash that bcrypt makes within the
    -- sizes that bolt takes, and a disk that takes it: AddUser succeeds, and from then on the user's
    -- password is accepted.
    pub add_user-check_user :
        (salt user pass h : Bytes) (db : DB)
        → env.cfg.ldap.enabled ≡ false
        → bolt.has_bucket db users ≡ true
        → bytes_of (bolt.get db users user) ≡ []
        → encrypt_pass hashing salt pass ≡ ok h
        → 0 < length user
        → length user ≤ 32768
        → length h ≤ 2147483646
        → ((db' : DB) → bolt.commit db' ≡ none)
        → ((add_user env salt user pass db).0 ≡ none)
          × (check_user env user pass (add_user env salt user pass db).1 ≡ true)
    unfolding add_user add_user_tx check_user stored_hash check_pass encrypt_pass
    add_user-check_user salt user pass h db off there unknown hashed low high short disk =
        let (db', made) = lawful.put_fits db users user h there low high short in
        ground (
          arith,
          disk db',
          made,
          lawful.has-put db db' users users user h made,
          lawful.get-put db db' users users user h user made,
          eq_refl user,
          bcrypt.match_generated salt pass 10 h,
        )

    gone :
        (user pass : Bytes) (db db' : DB)
        → env.cfg.ldap.enabled ≡ false
        → bolt.delete db users user ≡ ok db'
        → check_user env user pass db' ≡ false
    unfolding check_user stored_hash check_pass
    gone user pass db db' off made =
        let (e, refused) = bcrypt.empty_refused pass in
        ground (
          arith,
          refused,
          lawful.has-delete db db' users users user made,
          lawful.get-delete db db' users users user user made,
          eq_refl user,
        )

    -- With the LDAP directory off, after a DeleteUser without an error the user is not let in,
    -- whatever the password.
    pub delete_user-check_user :
        (user pass : Bytes) (db : DB)
        → env.cfg.ldap.enabled ≡ false
        → (delete_user env user db).0 ≡ none
        → check_user env user pass (delete_user env user db).1 ≡ false
    unfolding delete_user
    delete_user-check_user user pass db off =
        if_intro (λ (r : Option Error × DB). r.0 ≡ none → check_user env user pass r.1 ≡ false)
          env.cfg.ldap.enabled _ _ (λ _ h. absurd (ground arith))
          (λ _ h.
            gone user pass db _ off
              (delete_user_tx-ok user db _ (update-ok env (delete_user_tx env user) db h)))

  module _ (lawful : IsBolt bolt) where
    -- AddUser of one user leaves the stored hash of every other as it was, whatever it returns.
    add_user-stored_hash_ne :
        (salt user pass other : Bytes) (db : DB)
        → user ≢ other
        → stored_hash env other (add_user env salt user pass db).1 ≡ stored_hash env other db
    unfolding add_user stored_hash
    add_user-stored_hash_ne salt user pass other db ne =
        if_intro (λ (r : Option Error × DB). stored_hash env other r.1 ≡ stored_hash env other db)
          env.cfg.ldap.enabled _ _ (λ _. refl)
          (λ _.
            update_keeps env (λ db'. stored_hash env other db' ≡ stored_hash env other db)
              (add_user_tx env salt user pass) db refl
              (λ db' e. elim (add_user_tx-ok salt user pass db db' e) [
                | inl unchanged ↦ ap (stored_hash env other) (sym unchanged)
                | inr (h, hashed, unknown, made) ↦ ground (
                  arith,
                  lawful.has-put db db' users users user h made,
                  lawful.get-put db db' users users user h other made,
                  eq_iff user other,
                )
              ]))

    -- DeleteUser of one user leaves the stored hash of every other as it was, whatever it returns.
    delete_user-stored_hash_ne :
        (user other : Bytes) (db : DB)
        → user ≢ other
        → stored_hash env other (delete_user env user db).1 ≡ stored_hash env other db
    unfolding delete_user stored_hash
    delete_user-stored_hash_ne user other db ne =
        if_intro (λ (r : Option Error × DB). stored_hash env other r.1 ≡ stored_hash env other db)
          env.cfg.ldap.enabled _ _ (λ _. refl)
          (λ _.
            update_keeps env (λ db'. stored_hash env other db' ≡ stored_hash env other db)
              (delete_user_tx env user) db refl
              (λ db' e.
                let made = delete_user_tx-ok user db db' e in
                ground (
                  arith,
                  lawful.has-delete db db' users users user made,
                  lawful.get-delete db db' users users user other made,
                  eq_iff user other,
                )))

    -- Neither AddUser nor DeleteUser of one user changes the stored hash of another, whatever they
    -- return.
    pub account_changes-stored_hash :
        (salt user pass other : Bytes) (db : DB)
        → user ≢ other
        → (stored_hash env other (add_user env salt user pass db).1 ≡ stored_hash env other db)
          × (stored_hash env other (delete_user env user db).1 ≡ stored_hash env other db)
    account_changes-stored_hash salt user pass other db ne = (
      add_user-stored_hash_ne salt user pass other db ne,
      delete_user-stored_hash_ne user other db ne,
    )
