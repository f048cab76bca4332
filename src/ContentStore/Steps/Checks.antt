-- ===== src/ContentStore/Steps/Checks.antt =====
-- The checks of a `Put` of content_store.go between its copy and its rename.
use lfs_server_go.Prelude.{ℕ, ◌≡◌, inl, inr, Option, none, some, arith, Option-cases}
use lfs_server_go.Text.{Bytes}
use lfs_server_go.Errors.{Error}
use lfs_server_go.Types.{MetaObject}
use lfs_server_go.ContentStore.{Storage, Files, path_of, tmp_path_of, rename, accept, check}
use lfs_server_go.ContentStore.Steps.{Disk, files, verdict}

-- The name under which a file with a content stands.
pub name_of :
    (d : Disk) (p w : Bytes)
    → files d p ≡ some w
    → (k : ℕ) × (d.names p ≡ some k) × (d.contents k ≡ w)
name_of d p w h = elim (Option-cases (d.names p)) [
  | inl absent ↦ absurd (ground arith)
  | inr (k, there) ↦ (k, there, ground arith)
]

module _ (st : Storage) where
  -- The checks pass or fail as in `check`.
  pub check-passed :
      (meta : MetaObject) (c : Option Error × Bytes) (fs' : Files)
      → verdict st meta c ≡ none
      → check st meta c fs' ≡ rename st (tmp_path_of st meta.oid) (path_of st meta.oid) fs'
  unfolding verdict check accept
  check-passed meta (some e, w) fs' h = cc
  check-passed meta (none, w) fs' h = ground arith

  pub check-failed :
      (meta : MetaObject) (c : Option Error × Bytes) (fs' : Files) (e : Error)
      → verdict st meta c ≡ some e
      → check st meta c fs' ≡ (some e, fs')
  unfolding verdict check accept
  check-failed meta (some x, w) fs' e h = ground arith
  check-failed meta (none, w) fs' e h = ground arith
