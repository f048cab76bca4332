-- ===== src/Panics/Laws.antt =====
-- What a chain of actions that may panic leaves.
use lfs_server_go.Prelude.{◌≡◌, refl, Option, none, some}
use lfs_server_go.Errors.{Error}
use lfs_server_go.Panics.{Action, next, ◌>>=◌, perror}

module _ {S : Type 0} where
  -- What the first action leaves with a property, and the second keeps so, the chain leaves so.
  pub bind_leaves :
      {A B : Type 0} (P : S → Type 0) (m : Action S A) (f : A → Action S B) (s : S)
      → P (m s).1
      → ((a : A) → (m s).0 ≡ some a → P (f a (m s).1).1)
      → P ((m >>= f) s).1
  bind_leaves P m f s h step = go (m s) h step
    where
      go : (x : Option _ × S) → P x.1 → ((a : _) → x.0 ≡ some a → P (f a x.1).1) → P (next f x).1
      go (none, s') p keep = p
      go (some a, s') p keep = keep a refl

  -- A chain that does not panic is made of actions that do not.
  pub bind_done :
      {A B : Type 0} (m : Action S A) (f : A → Action S B) (s : S) (b : B)
      → ((m >>= f) s).0 ≡ some b
      → (a : A) × ((m s).0 ≡ some a) × ((m >>= f) s ≡ f a (m s).1)
  bind_done m f s b h = go (m s) h
    where
      go :
          (x : Option _ × S)
          → (next f x).0 ≡ some b
          → (a : _) × (x.0 ≡ some a) × (next f x ≡ f a x.1)
      go (none, s') e = cc
      go (some a, s') e = (a, refl, refl)

  pub perror_keeps : (r : Option Error) (s : S) → (perror r s).1 ≡ s
  unfolding perror
  perror_keeps none s = refl
  perror_keeps (some e) s = refl

  pub perror_done : (r : Option Error) (s : S) → (perror r s).0 ≡ some tt → r ≡ none
  unfolding perror
  perror_done none s h = refl
  perror_done (some e) s h = cc
