-- ===== src/Types.antt =====
-- The records that the handlers and the stores exchange (server.go).
use lfs_server_go.Prelude.{ℕ, Bool, true, false, List, eqb, ◌≡◌, ◌↔◌, arith}
use lfs_server_go.Text.{Bytes}

-- `int64`: `negsuc n` is -(n + 1).
pub data ℤ : Type 0 where
  pos : ℕ → ℤ
  negsuc : ℕ → ℤ

-- `a == b` on integers.
abbrev pub eq_int : ℤ → ℤ → Bool
eq_int (pos m) (pos n) = eqb m n
eq_int (negsuc m) (negsuc n) = eqb m n
eq_int _ _ = false

pub eq_int_iff : (a b : ℤ) → (eq_int a b ≡ true) ↔ (a ≡ b)
eq_int_iff (pos m) (pos n) = ground arith
eq_int_iff (negsuc m) (negsuc n) = ground arith
eq_int_iff (pos m) (negsuc n) = (λ h. absurd (ground arith), λ h. absurd (ground arith))
eq_int_iff (negsuc m) (pos n) = (λ h. absurd (ground arith), λ h. absurd (ground arith))

pub record RequestVars : Type 0 where
  pub oid : Bytes
  pub size : ℤ
  pub user : Bytes
  pub password : Bytes
  pub namespace : Bytes
  pub repo : Bytes
  pub authorization : Bytes

pub record MetaObject : Type 0 where
  pub oid : Bytes
  pub size : ℤ
  pub project_names : List Bytes
  pub existing : Bool

pub record MetaProject : Type 0 where
  pub name : Bytes
  pub oids : List Bytes

pub record MetaUser : Type 0 where
  pub name : Bytes
  pub password : Bytes

-- `link`; the header map holds the accepted type and, in private mode, the authorization.
pub record Link : Type 0 where
  pub href : Bytes
  pub header : List (Bytes × Bytes)

-- The links by their names.
pub record Representation : Type 0 where
  pub oid : Bytes
  pub size : ℤ
  pub links : List (Bytes × Link)
