-- ===== src/CassandraMetaStore/Users.antt =====
-- What Users of cassandra_meta_store.go lists.
use lfs_server_go.Prelude.{◌≡◌, refl, ℕ, suc, ◌+◌, false, List, [], ◌∷◌, ◌++◌, length, arith}
use lfs_server_go.Text.{Bytes}
use lfs_server_go.Errors.{ok}
use lfs_server_go.Types.{MetaUser}
use lfs_server_go.CassandraMetaStore.{CassandraEnv, blank_user, scan_users, replicate, all_users}

scan_users-append :
    (front : List Bytes) (last : Bytes) (mu : MetaUser) (n : ℕ)
    → scan_users (front ++ last ∷ []) mu n ≡ (record mu { name = last }, n + suc (length front))
unfolding scan_users
scan_users-append [] last mu n = ground arith
scan_users-append (x ∷ front) last mu n =
    ground (arith, scan_users-append front last (record mu { name = x }) (suc n))

module _ {S Conn : Type 0} (env : CassandraEnv S Conn) where
  open env use {cfg, session}

  -- Without LDAP, where the table has at least one row, Users returns one entry for each row, and each
  -- of them has the name of the last row and no password.
  all_users-aliased :
      (front : List Bytes) (last : Bytes) (s : S)
      → cfg.ldap.enabled ≡ false
      → session.all_users s ≡ front ++ last ∷ []
      → all_users env s ≡ ok (replicate (suc (length front)) (record blank_user { name = last }))
  unfolding all_users
  all_users-aliased front last s off rows =
      let count : 0 + suc (length front) ≡ suc (length front) = ground arith in
      rw (off, all_users)
        (rw (rows, all_users)
          (rw (scan_users-append front last blank_user 0, all_users) (rw (count, all_users) refl)))
