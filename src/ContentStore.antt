-- ===== src/ContentStore.antt =====
-- content_store.go: objects as files, by the hash of their content.
pub mod Integrity
pub mod Uploads
pub mod Intact
pub mod Steps
use lfs_server_go.Prelude.{
  ℕ, Bool, true, false, not, Option, none, some, [], ◌∷◌, ◌++◌, length, take, if◌then◌else◌,
}
use lfs_server_go.Text.{Bytes, lit, ◌==◌}
use lfs_server_go.Errors.{Error, Result, ok, err, foreign, hash_mismatch, size_mismatch}
use lfs_server_go.Types.{ℤ, pos, MetaObject, eq_int}
use lfs_server_go.FilePath.{join, dir}
use lfs_server_go.TransformKey.{transform_key}
use lfs_server_go.Hex.{encode_to_string}

-- The files of the disk that are there, by their paths.
abbrev pub Files : Type 0
Files = Bytes → Option Bytes

abbrev pub update_file : Files → Bytes → Option Bytes → Files
update_file fs p content q = if p == q then content else fs q

-- An `io.Reader`: what it yields before its end, or before its error.
pub record Reader : Type 0 where
  pub content : Bytes
  pub failure : Option Error

-- What the operating system refuses for reasons of its own (permissions, room, I/O errors); `none`
-- where it does not.
pub record Faults : Type 0 where
  pub mkdir_all : Bytes → Option Error
  pub open_read : Bytes → Option Error
  pub open_write : Bytes → Option Error
  -- writing this content to the file of a path, with the number of bytes that were written
  pub write : Bytes → Bytes → Option (Error × ℕ)
  -- reading this content from the file of a path, with the number of bytes that were read
  pub read : Bytes → Bytes → Option (Error × ℕ)
  pub rename : Bytes → Bytes → Option Error
  pub remove : Bytes → Option Error
  pub stat : Bytes → Option Error

pub record ContentStore : Type 0 where
  pub base_path : Bytes

-- The store with what it is used with: the disk's faults, whether a path is a directory while these
-- files are there, and crypto/sha256.
pub record Storage : Type 0 where
  pub store : ContentStore
  pub faults : Faults
  pub is_directory : Files → Bytes → Bool
  pub sum256 : Bytes → Bytes

abbrev pub no_such_file : Error
no_such_file = foreign (lit "no such file or directory")

-- What reading a directory fails with.
abbrev pub reads_directory : Error
reads_directory = foreign (lit "is a directory")

abbrev pub file_exists : Error
file_exists = foreign (lit "file exists")

-- `NewContentStore`
unfoldable pub new_content_store : Faults → Bytes → Result ContentStore
new_content_store faults base = elim (faults.mkdir_all base) [
  | some e ↦ err e
  | none ↦ ok (record { base_path = base })
]

module _ (st : Storage) where
  open st use {store, faults, is_directory, sum256}

  -- The file of an object.
  unfoldable pub path_of : Bytes → Bytes
  path_of oid = join (store.base_path ∷ transform_key oid ∷ [])

  -- The file that a Put writes first.
  abbrev pub tmp_path_of : Bytes → Bytes
  tmp_path_of oid = path_of oid ++ lit ".tmp"

  -- The SHA-256 of a content, in hexadecimal.
  unfoldable pub sha_str : Bytes → Bytes
  sha_str content = encode_to_string (sum256 content)

  -- What an open file yields to its reader.
  unfoldable pub opened_file : Bytes → Bytes → Reader
  opened_file p content = elim (faults.read p content) [
    | none ↦ record { content = content; failure = none }
    | some (e, n) ↦ record { content = take n content; failure = some e }
  ]

  -- `Get`: `os.Open`, which opens a directory, too. The caller reads.
  unfoldable pub get : MetaObject → Files → Result Reader
  unfolding opened_file
  get meta fs = elim (faults.open_read (path_of meta.oid)) [
    | some e ↦ err e
    | none ↦
        if is_directory fs (path_of meta.oid)
        then ok (record { content = []; failure = some reads_directory })
        else elim (fs (path_of meta.oid)) [
          | none ↦ err no_such_file
          | some content ↦ ok (opened_file (path_of meta.oid) content)
        ]
  ]

  -- The deferred `os.Remove` of the temporary file, whose error is dropped.
  unfoldable pub remove : Bytes → Files → Files
  remove p fs = elim (faults.remove p) [ some e ↦ fs | none ↦ update_file fs p none ]

  -- `os.Rename`: the file goes from the one path to the other, over what is there.
  unfoldable pub rename : Bytes → Bytes → Files → Option Error × Files
  rename p q fs = elim (faults.rename p q) [
    | some e ↦ (some e, fs)
    | none ↦ elim (fs p) [
      | none ↦ (some no_such_file, fs)
      | some content ↦ (none, update_file (update_file fs p none) q (some content))
    ]
  ]

  -- `io.Copy` into the hash and the file: the error and the bytes that were written.
  unfoldable pub copy : Bytes → Reader → Option Error × Bytes
  copy p r = elim (faults.write p r.content) [
    | some (e, n) ↦ (some e, take n r.content)
    | none ↦ (r.failure, r.content)
  ]

  -- The checks of `Put` once the temporary file is written.
  unfoldable pub accept : MetaObject → Bytes → Files → Option Error × Files
  accept meta written fs =
      if not (eq_int (pos (length written)) meta.size)
      then (some size_mismatch, fs)
      else if not (sha_str written == meta.oid)
      then (some hash_mismatch, fs)
      else rename (tmp_path_of meta.oid) (path_of meta.oid) fs

  -- `Put` once `io.Copy` has returned.
  unfoldable pub check : MetaObject → Option Error × Bytes → Files → Option Error × Files
  check meta (some e, written) fs = (some e, fs)
  check meta (none, written) fs = accept meta written fs

  -- `Put` after `os.OpenFile` made the temporary file.
  unfoldable pub fill : MetaObject → Reader → Files → Option Error × Files
  fill meta r fs =
      let tmp = tmp_path_of meta.oid in
      let copied = copy tmp r in
      let (result, fs2) = check meta copied (update_file fs tmp (some copied.1)) in
      (result, remove tmp fs2)

  unfoldable pub put : MetaObject → Reader → Files → Option Error × Files
  put meta r fs = elim (faults.mkdir_all (dir (path_of meta.oid))) [
    | some e ↦ (some e, fs)
    | none ↦ elim (faults.open_write (tmp_path_of meta.oid)) [
      | some e ↦ (some e, fs)
      | none ↦ elim (fs (tmp_path_of meta.oid)) [
        | some there ↦ (some file_exists, fs)
        | none ↦ fill meta r fs
      ]
    ]
  ]

  -- `Exists`: an error of `os.Stat` other than that the file is missing counts as a file, and so
  -- does a directory.
  unfoldable pub exists : MetaObject → Files → Bool
  exists meta fs = elim (faults.stat (path_of meta.oid)) [
    | some e ↦ true
    | none ↦
        if is_directory fs (path_of meta.oid)
        then true
        else elim (fs (path_of meta.oid)) [ none ↦ false | some content ↦ true ]
  ]
