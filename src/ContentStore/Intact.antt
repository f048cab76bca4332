-- ===== src/ContentStore/Intact.antt =====
-- The objects on the disk of content_store.go are what their oids say, whatever is uploaded.
use lfs_server_go.Prelude.{
  ◌≡◌, sym, ap, ◌∙◌, ◌≢◌, inl, inr, false, some, [], ◌++◌, arith, Bool-cases, Option-cases,
}
use mathlib.Core.List.{append_assoc, append_cancel_left}
use lfs_server_go.Text.{Bytes, lit, ◌==◌}
use lfs_server_go.Text.Laws.{eq_iff}
use lfs_server_go.Types.{MetaObject}
use lfs_server_go.FilePath.Laws.{root}
use lfs_server_go.TransformKey.{transform_key}
use lfs_server_go.TransformKey.Laws.{
  IsPlain, transform_key_injective, join-transform_key, tmp-ne-transform_key,
}
use lfs_server_go.ContentStore.{Storage, Files, Reader, path_of, tmp_path_of, sha_str, put}
use lfs_server_go.ContentStore.Integrity.{IsStored}
use lfs_server_go.ContentStore.Uploads.{put-IsStored, put-err}

-- An oid of ASCII letters, digits and the like: not empty, without slashes and periods.
abbrev pub IsOid : Bytes → Type 0
IsOid oid = (oid ≢ []) × IsPlain oid

module _ (st : Storage) where
  open st use {store, faults}

  path_of-oid : (k : Bytes) → IsOid k → path_of st k ≡ root store.base_path ++ transform_key k
  unfolding path_of
  path_of-oid k (n, h) = join-transform_key store.base_path k n h

  -- Two oids whose objects are in one file are one.
  pub path_of_injective : (j k : Bytes) → IsOid j → IsOid k → path_of st j ≡ path_of st k → j ≡ k
  path_of_injective j k hj hk e = transform_key_injective j k hj.1 hk.1 (
      append_cancel_left (root store.base_path) (transform_key j) (transform_key k)
        (sym (path_of-oid j hj) ∙ e ∙ path_of-oid k hk))

  -- No object is in the temporary file of another.
  pub tmp_path_of-ne-path_of : (j k : Bytes) → IsOid j → IsOid k → tmp_path_of st j ≢ path_of st k
  tmp_path_of-ne-path_of j k hj hk e = tmp-ne-transform_key j k hk.1 (
      append_cancel_left (root store.base_path) (transform_key j ++ lit ".tmp") (transform_key k) (
        sym (append_assoc (root store.base_path) (transform_key j) (lit ".tmp"))
        ∙ ap (λ s. s ++ lit ".tmp") (sym (path_of-oid j hj))
        ∙ e
        ∙ path_of-oid k hk))

  -- The file of every oid has the content whose SHA-256 it is.
  abbrev pub IsIntact : Files → Type 0
  IsIntact fs =
      (oid : Bytes) (content : Bytes)
      → IsOid oid
      → fs (path_of st oid) ≡ some content
      → sha_str st content ≡ oid

  stored-IsIntact :
      (meta : MetaObject) (r : Reader) (fs fs' : Files)
      → IsOid meta.oid
      → IsIntact fs
      → IsStored st meta r fs fs'
      → IsIntact fs'
  stored-IsIntact meta r fs fs' plain intact s oid content h there =
      elim (Bool-cases (path_of st meta.oid == path_of st oid)) [
        | inl here ↦
            let same : meta.oid ≡ oid =
              path_of_injective meta.oid oid plain h
                ((eq_iff (path_of st meta.oid) (path_of st oid)).0 here) in
            let got : r.content ≡ content = ground (arith, IsStored.files s (path_of st oid)) in
            rw (← got) (s.hash ∙ same)
        | inr other ↦ intact oid content h (ground (arith, IsStored.files s (path_of st oid)))
      ]

  -- Where every file of an oid (without slashes and periods) has the content that the oid is the
  -- SHA-256 of, a Put for such an oid leaves this so, whatever the upload is and whether it is
  -- accepted, refused or fails half-way on the disk.
  pub put-IsIntact :
      (meta : MetaObject) (r : Reader) (fs : Files)
      → IsOid meta.oid
      → IsIntact fs
      → IsIntact (put st meta r fs).1
  put-IsIntact meta r fs plain intact = elim (Option-cases (put st meta r fs).0) [
    | inl accepted ↦ stored-IsIntact meta r fs _ plain intact (put-IsStored st meta r fs accepted)
    | inr (e, refused) ↦ λ oid content h there.
        let other : (tmp_path_of st meta.oid == path_of st oid) ≡ false = tmp_test oid h in
        intact oid content h
          (sym (put-err st meta r fs e (path_of st oid) refused (inl other)) ∙ there)
  ]
    where
      tmp_test : (oid : Bytes) → IsOid oid → (tmp_path_of st meta.oid == path_of st oid) ≡ false
      tmp_test oid h = elim (Bool-cases (tmp_path_of st meta.oid == path_of st oid)) [
        | inl same ↦ absurd (tmp_path_of-ne-path_of meta.oid oid plain h ((eq_iff _ _).0 same))
        | inr other ↦ other
      ]
