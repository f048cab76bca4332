-- ===== src/Panics.antt =====
-- Code that changes a store and may panic (`none`); what was written before a panic stays written.
-- `perror` of common.go.
pub mod Laws
use lfs_server_go.Prelude.{Option, none, some}
use lfs_server_go.Errors.{Error}

abbrev pub Action : Type 0 → Type 0 → Type 0
Action S A = S → Option A × S

module _ {S : Type 0} where
  abbrev pub pure : {A : Type 0} → A → Action S A
  pure a s = (some a, s)

  abbrev pub panic : {A : Type 0} → Action S A
  panic s = (none, s)

  -- What follows an action, given what it returned and left.
  abbrev pub next : {A B : Type 0} → (A → Action S B) → Option A × S → Option B × S
  next f x = elim x.0 [ none ↦ (none, x.1) | some a ↦ f a x.1 ]

  infixl 5 ◌>>=◌ ◌>>◌
  abbrev pub ◌>>=◌ : {A B : Type 0} → Action S A → (A → Action S B) → Action S B
  ◌>>=◌ m f s = next f (m s)

  abbrev pub ◌>>◌ : {A B : Type 0} → Action S A → Action S B → Action S B
  m >> k = m >>= λ _. k

  -- A call of a library, which does not panic.
  abbrev pub call : {A : Type 0} → (S → A × S) → Action S A
  call f s = let (a, s') = f s in (some a, s')

  abbrev pub gets : {A : Type 0} → (S → A) → Action S A
  gets f s = (some (f s), s)

  unfoldable pub perror : Option Error → Action S (Unit {0})
  perror none = pure tt
  perror (some e) = panic
