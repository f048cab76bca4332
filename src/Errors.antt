-- ===== src/Errors.antt =====
-- errors.go, and the errors that the program passes on from the libraries below it.
use lfs_server_go.Prelude.{Bool, true, false}
use lfs_server_go.Text.{Bytes, lit}

pub data Error : Type 0 where
  -- the value of `newAuthError`
  forbidden : Error
  project_not_found object_not_found ldap_user_not_found user_not_found : Error
  no_ldap_search_results ldap_search_failed hash_mismatch size_mismatch write_s3 : Error
  not_implemented mysql_not_implemented missing_params : Error
  -- meta_store.go
  no_bucket : Error
  -- an error of a library or of the operating system, by its text
  foreign : Bytes → Error

-- `isAuthError`: only `authError` has the method that it asks for.
unfoldable pub is_auth_error : Error → Bool
is_auth_error forbidden = true
is_auth_error _ = false

-- `err.Error()`
unfoldable pub message : Error → Bytes
message forbidden = lit "Forbidden"
message project_not_found = lit "Project not found"
message object_not_found = lit "Object not found"
message ldap_user_not_found = lit "Unable to find user in LDAP"
message user_not_found = lit "Unable to find user"
message no_ldap_search_results = lit "No results from LDAP"
message ldap_search_failed = lit "Failed searching LDAP"
message hash_mismatch = lit "Content has does not match OID"
message size_mismatch = lit "Content size does not match"
message write_s3 = lit "Erred writing to S3"
message not_implemented = lit "Not Implemented when using LDAP"
message mysql_not_implemented =
    lit "Not Implemented when using 'bolt' or 'cassandra' meta store backend"
message missing_params = lit "Missing params"
message no_bucket = lit "Bucket not found"
message (foreign text) = text

-- What a Go function with the results `(value, error)` returns.
pub data Result {ℓ} (A : Type ℓ) : Type ℓ where
  ok : A → Result A
  err : Error → Result A

infixl 5 ◌>>=◌
abbrev pub ◌>>=◌ {ℓ κ} : {A : Type ℓ} {B : Type κ} → Result A → (A → Result B) → Result B
ok a >>= k = k a
err e >>= k = err e
