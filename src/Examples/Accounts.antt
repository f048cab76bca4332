-- ===== src/Examples/Accounts.antt =====
-- The theorems on users and credentials at a database of one user.
use lfs_server_go.Prelude.{◌++◌, ◌≡◌, refl, ◌↔◌, true, false, none, some, [], arith}
use lfs_server_go.Text.{lit, ◌==◌}
use lfs_server_go.Base64.{encode}
use lfs_server_go.Errors.{ok}
use lfs_server_go.Ldap.{authenticate_ldap}
use lfs_server_go.Ldap.Laws.{Accepts, authenticate_ldap_iff}
use lfs_server_go.Bcrypt.{encrypt_pass}
use lfs_server_go.Bolt.{users, bytes_of}
use lfs_server_go.MetaStore.{
  credentials, basic, authenticate, check_user, stored_hash, add_user, delete_user, delete_user_tx,
}
use lfs_server_go.MetaStore.Auth.{credentials-encode, IsAdmitted, authenticate_iff}
use lfs_server_go.MetaStore.Users.{delete_user-check_user, account_changes-stored_hash}
use lfs_server_go.Examples.Pairs.{lookup}
use lfs_server_go.Examples.Memory.{memory, memory-IsBolt}
use lfs_server_go.Examples.Setup.{
  town, settings, server_env, plain_hashing, plain_hashing-IsHashing, one_user, pairs_of_u, u_and_p,
}

authenticate_iff_example :
    (authenticate server_env u_and_p one_user ≡ true) ↔ IsAdmitted server_env u_and_p one_user
authenticate_iff_example = authenticate_iff server_env u_and_p one_user

pub unknown : bytes_of (memory.get one_user users (lit "v")) ≡ []
unfolding memory lookup one_user pairs_of_u ◌==◌
unknown = refl

pub hash_of_q : encrypt_pass plain_hashing [] (lit "q") ≡ ok (lit "$q")
unfolding encrypt_pass plain_hashing
hash_of_q = refl

pub has_users : memory.has_bucket one_user users ≡ true
unfolding memory one_user
has_users = refl

deleted : (delete_user server_env (lit "u") one_user).0 ≡ none
unfolding delete_user delete_user_tx memory one_user
deleted = refl

delete_user-check_user_example :
    check_user server_env (lit "u") (lit "p") (delete_user server_env (lit "u") one_user).1 ≡ false
delete_user-check_user_example =
    delete_user-check_user server_env memory-IsBolt plain_hashing-IsHashing (lit "u") (lit "p")
      one_user refl deleted

account_changes-stored_hash_example :
    (stored_hash server_env (lit "u") (add_user server_env [] (lit "v") (lit "q") one_user).1
      ≡ stored_hash server_env (lit "u") one_user)
    × (stored_hash server_env (lit "u") (delete_user server_env (lit "v") one_user).1
        ≡ stored_hash server_env (lit "u") one_user)
account_changes-stored_hash_example =
    account_changes-stored_hash server_env memory-IsBolt [] (lit "v") (lit "q") (lit "u") one_user
      (λ e. ground arith)

credentials-encode_example : credentials (basic ++ encode (lit "u:p")) ≡ some (lit "u", lit "p")
credentials-encode_example =
    credentials-encode (lit "u") (lit "p") (omega arith, (omega arith, (omega arith, tt)))
      (λ e. ground arith, tt)

authenticate_ldap_iff_example :
    (authenticate_ldap town settings.ldap (lit "u") (lit "p") ≡ true)
    ↔ Accepts town settings.ldap (lit "u") (lit "p")
authenticate_ldap_iff_example = authenticate_ldap_iff town settings.ldap (lit "u") (lit "p")
