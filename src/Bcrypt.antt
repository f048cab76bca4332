-- ===== src/Bcrypt.antt =====
-- common.go: `encryptPass` and `checkPass`, over golang.org/x/crypto/bcrypt.
use lfs_server_go.Prelude.{ℕ, Bool, true, false, ◌≡◌, Option, none, some, []}
use lfs_server_go.Text.{Bytes}
use lfs_server_go.Errors.{Error, Result, ok}

-- The library. A hash depends on the salt that is drawn for it.
pub record Hashing : Type 0 where
  pub generate_from_password : (salt password : Bytes) → (cost : ℕ) → Result Bytes
  -- `CompareHashAndPassword`; `none` is a match
  pub compare_hash_and_password : (hashed password : Bytes) → Option Error

-- What its documentation promises.
pub record IsHashing (b : Hashing) : Type 0 where
  pub match_generated :
      (salt password : Bytes) (cost : ℕ) (h : Bytes)
      → b.generate_from_password salt password cost ≡ ok h
      → b.compare_hash_and_password h password ≡ none
  -- a hash shorter than the least length is refused (`ErrHashTooShort`)
  pub empty_refused :
      (password : Bytes) → (e : Error) × (b.compare_hash_and_password [] password ≡ some e)

unfoldable pub encrypt_pass : Hashing → Bytes → Bytes → Result Bytes
encrypt_pass b salt password = b.generate_from_password salt password 10

-- The error that `checkPass` returns is always nil.
unfoldable pub check_pass : Hashing → Bytes → Bytes → Bool
check_pass b hashed password = elim (b.compare_hash_and_password hashed password) [
  | none ↦ true
  | some e ↦ false
]
