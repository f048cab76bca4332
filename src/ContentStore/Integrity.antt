-- ===== src/ContentStore/Integrity.antt =====
-- What Put of content_store.go leaves on the disk.
use lfs_server_go.Prelude.{
  ◌≡◌, refl, sym, ap, ◌∙◌, ◌⊎◌, inl, inr, false, Option, none, some, [], ◌∷◌, ◌++◌, length, arith,
  Bool-cases, Option-cases,
}
use lfs_server_go.Text.{Bytes, lit, ◌==◌}
use lfs_server_go.Text.Laws.{eq_iff, eq_refl}
use lfs_server_go.Errors.{Error}
use lfs_server_go.Types.{pos, MetaObject, eq_int_iff}
use lfs_server_go.ContentStore.{
  Storage, Files, Reader, update_file, path_of, tmp_path_of, sha_str, remove, rename, copy, accept,
  check, fill,
}

module _ (st : Storage) where
  open st use {faults}

  -- The files after an accepted upload.
  abbrev pub with_object : MetaObject → Bytes → Files → Files
  with_object meta content fs = update_file fs (path_of st meta.oid) (some content)

  pub tmp-ne : (s : Bytes) → (s ++ lit ".tmp" == s) ≡ false
  unfolding ◌==◌
  tmp-ne [] = refl
  tmp-ne (c ∷ s) = ground (arith, tmp-ne s)

  accept-ok :
      (meta : MetaObject) (written : Bytes) (fs : Files)
      → (accept st meta written fs).0 ≡ none
      → (pos (length written) ≡ meta.size)
        × (sha_str st written ≡ meta.oid)
        × (rename st (tmp_path_of st meta.oid) (path_of st meta.oid) fs ≡ accept st meta written fs)
  unfolding accept
  accept-ok meta written fs h =
      ground
        (arith, eq_int_iff (pos (length written)) meta.size, eq_iff (sha_str st written) meta.oid)

  rename-ok :
      (p q content : Bytes) (fs : Files)
      → fs p ≡ some content
      → (rename st p q fs).0 ≡ none
      → (rename st p q fs).1 ≡ update_file (update_file fs p none) q (some content)
  unfolding rename
  rename-ok p q content fs there h = ground arith

  rename-err :
      (p q : Bytes) (fs : Files) (e : Error)
      → (rename st p q fs).0 ≡ some e
      → (rename st p q fs).1 ≡ fs
  unfolding rename
  rename-err p q fs e h = ground arith

  accept-err :
      (meta : MetaObject) (written : Bytes) (fs : Files) (e : Error)
      → (accept st meta written fs).0 ≡ some e
      → (accept st meta written fs).1 ≡ fs
  unfolding accept
  accept-err meta written fs e h =
      ground (arith, rename-err (tmp_path_of st meta.oid) (path_of st meta.oid) fs e)

  copy-ok :
      (p : Bytes) (r : Reader)
      → (copy st p r).0 ≡ none
      → (r.failure ≡ none) × (copy st p r ≡ (none, r.content))
  unfolding copy
  copy-ok p r h = ground arith

  -- The upload was read whole, has the size and the hash of its object, and is the only change.
  pub record IsStored (meta : MetaObject) (r : Reader) (fs fs' : Files) : Type 0 where
    pub whole : r.failure ≡ none
    pub size : pos (length r.content) ≡ meta.size
    pub hash : sha_str st r.content ≡ meta.oid
    pub files : (p : Bytes) → fs' p ≡ with_object meta r.content fs p

  -- The temporary file is gone after it was renamed, and removing it again changes nothing.
  settled :
      (meta : MetaObject) (content : Bytes) (fs fs' : Files) (p : Bytes)
      → fs (tmp_path_of st meta.oid) ≡ none
      → fs'
        ≡ update_file
            (update_file
              (update_file fs (tmp_path_of st meta.oid) (some content))
              (tmp_path_of st meta.oid)
              none)
            (path_of st meta.oid)
            (some content)
      → remove st (tmp_path_of st meta.oid) fs' p ≡ with_object meta content fs p
  unfolding remove
  settled meta content fs fs' p absent e = rw e (
      ground (
        arith,
        tmp-ne (path_of st meta.oid),
        eq_iff (tmp_path_of st meta.oid) p,
        eq_iff (path_of st meta.oid) p,
        eq_iff (tmp_path_of st meta.oid) (path_of st meta.oid),
      ))

  check-ok :
      (meta : MetaObject) (c : Option Error × Bytes) (fs : Files)
      → (check st meta c fs).0 ≡ none
      → (c.0 ≡ none) × (check st meta c fs ≡ accept st meta c.1 fs)
  unfolding check
  check-ok meta (none, written) fs h = (refl, refl)
  check-ok meta (some e, written) fs h = absurd (ground arith)

  check-err :
      (meta : MetaObject) (c : Option Error × Bytes) (fs : Files) (e : Error)
      → (check st meta c fs).0 ≡ some e
      → (check st meta c fs).1 ≡ fs
  unfolding check
  check-err meta (none, written) fs e h = accept-err meta written fs e h
  check-err meta (some e', written) fs e h = refl

  -- The temporary file as it is written.
  abbrev with_tmp : MetaObject → Bytes → Files → Files
  with_tmp meta content fs = update_file fs (tmp_path_of st meta.oid) (some content)

  with_tmp-there :
      (meta : MetaObject) (content : Bytes) (fs : Files)
      → with_tmp meta content fs (tmp_path_of st meta.oid) ≡ some content
  with_tmp-there meta content fs = rw (eq_refl (tmp_path_of st meta.oid)) refl

  pub fill-ok :
      (meta : MetaObject) (r : Reader) (fs : Files)
      → fs (tmp_path_of st meta.oid) ≡ none
      → (fill st meta r fs).0 ≡ none
      → IsStored meta r fs (fill st meta r fs).1
  unfolding fill
  fill-ok meta r fs absent h =
      let tmp = tmp_path_of st meta.oid in
      let copied = copy st tmp r in
      let fs1 = with_tmp meta copied.1 fs in
      let checked = check-ok meta copied fs1 h in
      let got = copy-ok tmp r checked.0 in
      let all : copied.1 ≡ r.content = ap (λ c. c.1) got.1 in
      let accepted : (accept st meta copied.1 fs1).0 ≡ none = sym (ap (λ c. c.0) checked.1) ∙ h in
      let facts = accept-ok meta copied.1 fs1 accepted in
      let renamed : (rename st tmp (path_of st meta.oid) fs1).0 ≡ none =
        ap (λ c. c.0) facts.2 ∙ accepted in
      let after =
        rename-ok tmp (path_of st meta.oid) copied.1 fs1 (with_tmp-there meta copied.1 fs)
          renamed in
      let result = ap (λ c. c.1) checked.1 ∙ sym (ap (λ c. c.1) facts.2) ∙ after in
      record {
        whole = got.0;
        size = ap (λ c. pos (length c)) (sym all) ∙ facts.0;
        hash = ap (λ c. sha_str st c) (sym all) ∙ facts.1;
        files =
            λ p. settled meta copied.1 fs _ p absent result ∙ ap (λ c. with_object meta c fs p) all;
      }

  -- Files that were there before, other than the temporary one, are unchanged when filling fails.
  pub fill-err :
      (meta : MetaObject) (r : Reader) (fs : Files) (e : Error) (p : Bytes)
      → (fill st meta r fs).0 ≡ some e
      → fs (tmp_path_of st meta.oid) ≡ none
      → (tmp_path_of st meta.oid == p) ≡ false ⊎ faults.remove (tmp_path_of st meta.oid) ≡ none
      → (fill st meta r fs).1 p ≡ fs p
  unfolding fill remove
  fill-err meta r fs e p h absent clean =
      let tmp = tmp_path_of st meta.oid in
      let copied = copy st tmp r in
      let fs1 = with_tmp meta copied.1 fs in
      let left : (check st meta copied fs1).1 ≡ fs1 = check-err meta copied fs1 e h in
      rw left (elim clean [
        | inl other ↦ elim (Option-cases (faults.remove tmp)) [
          | inl fine ↦ ground arith
          | inr (x, stuck) ↦ ground arith
        ]
        | inr fine ↦ elim (Bool-cases (tmp == p)) [
          | inl here ↦ ground (arith, eq_iff tmp p)
          | inr other ↦ ground arith
        ]
      ])
