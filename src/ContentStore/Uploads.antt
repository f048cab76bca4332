-- ===== src/ContentStore/Uploads.antt =====
-- Put, Get and Exists of content_store.go together.
use lfs_server_go.Prelude.{
  ◌≡◌, sym, ap, ◌∙◌, ◌⊎◌, inl, inr, false, not, none, some, length, if◌then◌else◌, arith,
  Option-cases,
}
use lfs_server_go.Text.{Bytes, ◌==◌}
use lfs_server_go.Text.Laws.{eq_refl}
use lfs_server_go.Errors.{Error, ok, size_mismatch, hash_mismatch}
use lfs_server_go.Types.{pos, MetaObject, eq_int}
use lfs_server_go.FilePath.{dir}
use lfs_server_go.ContentStore.{
  Storage, Files, Reader, path_of, tmp_path_of, sha_str, rename, copy, accept, check, fill, put,
  opened_file, get,
}
use lfs_server_go.ContentStore.Integrity.{IsStored, fill-ok, fill-err}

module _ (st : Storage) where
  open st use {faults, is_directory}

  -- A Put of which the file system refuses nothing fills the temporary file.
  put-fill :
      (meta : MetaObject) (r : Reader) (fs : Files)
      → (put st meta r fs).0 ≡ none
      → (fs (tmp_path_of st meta.oid) ≡ none) × (put st meta r fs ≡ fill st meta r fs)
  unfolding put
  put-fill meta r fs h = ground arith

  put-not_fill :
      (meta : MetaObject) (r : Reader) (fs : Files)
      → (put st meta r fs).1 ≡ fs
        ⊎ ((fs (tmp_path_of st meta.oid) ≡ none) × (put st meta r fs ≡ fill st meta r fs))
  unfolding put
  put-not_fill meta r fs = elim (Option-cases (faults.mkdir_all (dir (path_of st meta.oid)))) [
    | inr (e, no_dir) ↦ inl (ground arith)
    | inl made ↦ elim (Option-cases (faults.open_write (tmp_path_of st meta.oid))) [
      | inr (e, no_file) ↦ inl (ground arith)
      | inl opened ↦ elim (Option-cases (fs (tmp_path_of st meta.oid))) [
        | inr (c, stale) ↦ inl (ground arith)
        | inl absent ↦ inr (ground arith)
      ]
    ]
  ]

  -- A Put that returns no error has read the upload to its end without an error, the content has
  -- the size of its object and the SHA-256 that is its oid, and the disk differs in one file: the
  -- object's, which holds the content.
  pub put-IsStored :
      (meta : MetaObject) (r : Reader) (fs : Files)
      → (put st meta r fs).0 ≡ none
      → IsStored st meta r fs (put st meta r fs).1
  put-IsStored meta r fs h =
      let same = put-fill meta r fs h in
      rw same.1 (fill-ok st meta r fs same.0 (sym (ap (λ c. c.0) same.1) ∙ h))

  -- A Put that returns an error leaves every file as it was, save the temporary file of the object
  -- where removing that fails too.
  pub put-err :
      (meta : MetaObject) (r : Reader) (fs : Files) (e : Error) (p : Bytes)
      → (put st meta r fs).0 ≡ some e
      → (tmp_path_of st meta.oid == p) ≡ false ⊎ faults.remove (tmp_path_of st meta.oid) ≡ none
      → (put st meta r fs).1 p ≡ fs p
  put-err meta r fs e p h clean = elim (put-not_fill meta r fs) [
    | inl kept ↦ ap (λ f. f p) kept
    | inr (absent, same) ↦
        rw same (fill-err st meta r fs e p (sym (ap (λ c. c.0) same) ∙ h) absent clean)
  ]

  -- The file of an oid can be opened, is not a directory, and this content can be read from it.
  pub record IsReadable (oid content : Bytes) (fs : Files) : Type 0 where
    pub opens : faults.open_read (path_of st oid) ≡ none
    pub file : is_directory fs (path_of st oid) ≡ false
    pub reads : faults.read (path_of st oid) content ≡ none

  -- What a Get returns after a successful Put, where the file can be read: the upload.
  pub get-put_file :
      (meta : MetaObject) (r : Reader) (fs : Files)
      → (put st meta r fs).0 ≡ none
      → IsReadable meta.oid r.content (put st meta r fs).1
      → get st meta (put st meta r fs).1 ≡ ok (record { content = r.content; failure = none })
  unfolding get opened_file
  get-put_file meta r fs h readable = ground (
    arith,
    readable.opens,
    readable.file,
    readable.reads,
    IsStored.files (put-IsStored meta r fs h) (path_of st meta.oid),
    eq_refl (path_of st meta.oid),
  )

  -- Nothing goes wrong on the disk for the file of this object.
  pub record IsWorking (meta : MetaObject) (content : Bytes) (fs : Files) : Type 0 where
    pub directory : faults.mkdir_all (dir (path_of st meta.oid)) ≡ none
    pub opens : faults.open_write (tmp_path_of st meta.oid) ≡ none
    pub writes : faults.write (tmp_path_of st meta.oid) content ≡ none
    pub renames : faults.rename (tmp_path_of st meta.oid) (path_of st meta.oid) ≡ none
    pub unused : fs (tmp_path_of st meta.oid) ≡ none

  -- On a disk that refuses nothing and has no temporary file of this object, a Put of an upload that
  -- is read without an error returns the size error, the hash error or no error as the size and the
  -- hash of the content differ from the object's.
  pub put-verdict :
      (meta : MetaObject) (r : Reader) (fs : Files)
      → IsWorking meta r.content fs
      → r.failure ≡ none
      → (put st meta r fs).0 ≡ (
          if not (eq_int (pos (length r.content)) meta.size)
          then some size_mismatch
          else if not (sha_str st r.content == meta.oid)
          then some hash_mismatch
          else none)
  unfolding put fill copy check accept rename
  put-verdict meta r fs w whole = ground (
    arith,
    w.directory,
    w.opens,
    w.writes,
    w.renames,
    w.unused,
    eq_refl (tmp_path_of st meta.oid),
  )
