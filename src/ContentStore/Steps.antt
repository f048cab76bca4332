-- ===== src/ContentStore/Steps.antt =====
-- Uploads that run at the same time: `Put` of content_store.go a system call at a time, over a disk
pub mod Frame
pub mod Checks
pub mod Turns
pub mod Apart
pub mod Interleaving
pub mod Concurrent
-- on which an open file outlives its name.
use lfs_server_go.Prelude.{
  ℕ, suc, ◌+◌, Bool, not, Option, none, some, List, [], ◌∷◌, ◌++◌, length, get_elem?, eqb,
  if◌then◌else◌,
}
use lfs_server_go.Text.{Bytes, ◌==◌}
use lfs_server_go.Errors.{Error, hash_mismatch, size_mismatch}
use lfs_server_go.Types.{pos, MetaObject, eq_int}
use lfs_server_go.FilePath.{dir}
use lfs_server_go.ContentStore.{
  Storage, Files, Reader, path_of, tmp_path_of, sha_str, copy, no_such_file, file_exists,
}

-- A file system as POSIX has it: the directory entries, the contents of the files they name, and the
-- next file to be made.
pub record Disk : Type 0 where
  pub names : Bytes → Option ℕ
  pub contents : ℕ → Bytes
  pub next : ℕ

abbrev read_file : (ℕ → Bytes) → Option ℕ → Option Bytes
read_file contents none = none
read_file contents (some k) = some (contents k)

-- The files by their paths.
abbrev pub files : Disk → Files
files d p = read_file d.contents (d.names p)

-- `os.OpenFile` of a file that is not there.
abbrev pub create : Bytes → Disk → Disk
create p d = record {
  names = λ q. if p == q then some d.next else d.names q;
  contents = λ k. if eqb d.next k then [] else d.contents k;
  next = suc d.next;
}

-- `Write` of a byte to an open file, whatever it is called by now.
abbrev pub append_to : ℕ → ℕ → Disk → Disk
append_to file c d = record d {
  contents = λ k. if eqb file k then d.contents k ++ c ∷ [] else d.contents k;
}

abbrev pub unlink : Bytes → Disk → Disk
unlink p d = record d { names = λ q. if p == q then none else d.names q }

abbrev pub link : Bytes → ℕ → Disk → Disk
link p k d = record d { names = λ q. if p == q then some k else d.names q }

-- The arguments of a `Put`.
pub record Upload : Type 0 where
  pub meta : MetaObject
  pub reader : Reader

-- Where a `Put` stands: before its next access to the disk, with what is live there.
pub data Pc : Type 0 where
  start : Pc  -- before `os.MkdirAll`
  made : Pc  -- before `os.OpenFile`
  writing : (file : ℕ) (left : Bytes) → Pc  -- in `io.Copy`
  renaming : Pc  -- before `os.Rename`
  removing : (result : Option Error) → Pc  -- before the deferred `os.Remove`
  done : (result : Option Error) → Pc

-- Where `Put` goes when the checks after `io.Copy` are made.
abbrev pub after_copy : Option Error → Pc
after_copy none = renaming
after_copy (some e) = removing (some e)

module _ (st : Storage) where
  open st use {faults}

  -- What `io.Copy` writes and how it ends.
  abbrev pub copied : Upload → Option Error × Bytes
  copied u = copy st (tmp_path_of st u.meta.oid) u.reader

  -- The checks between `io.Copy` and `os.Rename`.
  unfoldable pub verdict : MetaObject → Option Error × Bytes → Option Error
  verdict meta (some e, written) = some e
  verdict meta (none, written) =
      if not (eq_int (pos (length written)) meta.size)
      then some size_mismatch
      else if not (sha_str st written == meta.oid)
      then some hash_mismatch
      else none

  unfoldable pub rename_step : Bytes → Bytes → Disk → Disk × Pc
  rename_step p q d = elim (faults.rename p q) [
    | some e ↦ (d, removing (some e))
    | none ↦ elim (d.names p) [
      | none ↦ (d, removing (some no_such_file))
      | some k ↦ (link q k (unlink p d), removing none)
    ]
  ]

  unfoldable pub open_step : Upload → Disk → Disk × Pc
  open_step u d = elim (faults.open_write (tmp_path_of st u.meta.oid)) [
    | some e ↦ (d, done (some e))
    | none ↦ elim (d.names (tmp_path_of st u.meta.oid)) [
      | some there ↦ (d, done (some file_exists))
      | none ↦ (create (tmp_path_of st u.meta.oid) d, writing d.next (copied u).1)
    ]
  ]

  unfoldable pub remove_step : Bytes → Option Error → Disk → Disk × Pc
  remove_step p result d = elim (faults.remove p) [
    | some e ↦ (d, done result)
    | none ↦ (unlink p d, done result)
  ]

  unfoldable pub mkdir_step : Upload → Disk → Disk × Pc
  mkdir_step u d = elim (faults.mkdir_all (dir (path_of st u.meta.oid))) [
    | some e ↦ (d, done (some e))
    | none ↦ (d, made)
  ]

  -- The next system call of a `Put`.
  unfoldable pub advance : Upload → Pc → Disk → Disk × Pc
  advance u start d = mkdir_step u d
  advance u made d = open_step u d
  advance u (writing file (c ∷ left)) d = (append_to file c d, writing file left)
  advance u (writing file []) d = (d, after_copy (verdict u.meta (copied u)))
  advance u renaming d = rename_step (tmp_path_of st u.meta.oid) (path_of st u.meta.oid) d
  advance u (removing result) d = remove_step (tmp_path_of st u.meta.oid) result d
  advance u (done result) d = (d, done result)

-- The disk and where each upload stands.
pub record System : Type 0 where
  pub disk : Disk
  pub pcs : ℕ → Pc

module _ (st : Storage) (uploads : List Upload) where
  -- The next system call of an upload.
  unfoldable pub step : ℕ → System → System
  step i s = elim (get_elem? uploads i) [
    | none ↦ s
    | some u ↦
        let (d, p) = advance st u (s.pcs i) s.disk in
        record { disk = d; pcs = λ j. if eqb i j then p else s.pcs j }
  ]

  -- The uploads take turns in this order.
  unfoldable pub run_schedule : List ℕ → System → System
  run_schedule [] s = s
  run_schedule (i ∷ is) s = run_schedule is (step i s)

-- All uploads are about to begin.
abbrev pub begin : Disk → System
begin d = record { disk = d; pcs = λ j. start }
