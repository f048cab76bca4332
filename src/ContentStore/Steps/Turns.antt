-- ===== src/ContentStore/Steps/Turns.antt =====
-- Where a `Put` of content_store.go stands against the `put` that runs alone on the same files.
use lfs_server_go.Prelude.{
  ℕ, ◌≡◌, refl, sym, ap, ◌∙◌, inl, inr, Option, none, some, [], ◌∷◌, ◌++◌, arith, eqb_iff,
  Option-cases,
}
use mathlib.Core.List.{append_assoc, append-nil}
use lfs_server_go.Text.{Bytes}
use lfs_server_go.Text.Laws.{eq_iff, eq_refl}
use lfs_server_go.Errors.{Error}
use lfs_server_go.FilePath.{dir}
use lfs_server_go.ContentStore.{
  Storage, Files, update_file, path_of, tmp_path_of, remove, rename, check, fill, put, file_exists,
}
use lfs_server_go.ContentStore.Integrity.{tmp-ne}
use lfs_server_go.ContentStore.Steps.Checks.{name_of, check-passed, check-failed}
use lfs_server_go.ContentStore.Steps.Frame.{IsSound, IsKept, create_keeps, append_to_keeps}
use lfs_server_go.ContentStore.Steps.{
  Disk, files, append_to, Upload, Pc, start, made, writing, renaming, removing, done, copied,
  verdict, advance, after_copy, rename_step, open_step, remove_step, mkdir_step,
}

module _ (st : Storage) (u : Upload) (fs : Files) where
  open st use {faults}

  abbrev tmp : Bytes
  tmp = tmp_path_of st u.meta.oid

  abbrev path : Bytes
  path = path_of st u.meta.oid

  -- The temporary file could be made.
  pub record IsOpened : Type 0 where
    pub directory : faults.mkdir_all (dir path) ≡ none
    pub opens : faults.open_write tmp ≡ none
    pub absent : fs tmp ≡ none

  -- The result and the two files of the object are these.
  pub record IsOutcome (o : Option Error × Files) (result : Option Error) (d : Disk) : Type 0 where
    pub result_same : result ≡ o.0
    pub tmp_same : files d tmp ≡ o.1 tmp
    pub path_same : files d path ≡ o.1 path

  pub record IsFilling (file : ℕ) (left : Bytes) (d : Disk) : Type 0 where
    pub opened : IsOpened
    pub owned : d.names tmp ≡ some file
    pub filled : d.contents file ++ left ≡ (copied st u).1
    pub path_same : files d path ≡ fs path

  pub record IsFilled (d : Disk) : Type 0 where
    pub opened : IsOpened
    pub filled : files d tmp ≡ some (copied st u).1
    pub passed : verdict st u.meta (copied st u) ≡ none
    pub path_same : files d path ≡ fs path

  -- The files when the temporary one is written.
  abbrev written : Files
  written = update_file fs tmp (some (copied st u).1)

  -- What the disk has of a `Put` that stands there and began on the files `fs`.
  abbrev pub Holds : Pc → Disk → Type 0
  Holds start d = IsOutcome (none, fs) none d
  Holds made d = (faults.mkdir_all (dir path) ≡ none) × IsOutcome (none, fs) none d
  Holds (writing file left) d = IsFilling file left d
  Holds renaming d = IsFilled d
  Holds (removing result) d = IsOpened × IsOutcome (check st u.meta (copied st u) written) result d
  Holds (done result) d = IsOutcome (put st u.meta u.reader fs) result d

  IsOutcome-at :
      {o o' : Option Error × Files} {result : Option Error} {d : Disk}
      → o' ≡ o
      → IsOutcome o result d
      → IsOutcome o' result d
  IsOutcome-at e h = rw e h

  untouched :
      {d : Disk} (e : Error) → IsOutcome (none, fs) none d → IsOutcome (some e, fs) (some e) d
  untouched e h = record { result_same = refl; tmp_same = h.tmp_same; path_same = h.path_same }

  pub put-opened : IsOpened → put st u.meta u.reader fs ≡ fill st u.meta u.reader fs
  unfolding put
  put-opened h = ground (arith, h.directory, h.opens, h.absent)

  mkdir_step-Holds : (d : Disk) → Holds start d → Holds (mkdir_step st u d).1 (mkdir_step st u d).0
  unfolding mkdir_step put
  mkdir_step-Holds d h = elim (Option-cases (faults.mkdir_all (dir path))) [
    | inl fine ↦ rw (fine, mkdir_step) (fine, h)
    | inr (e, no_dir) ↦ rw (no_dir, mkdir_step) (IsOutcome-at (ground arith) (untouched e h))
  ]

  open_step-Holds :
      (d : Disk) → IsSound d → Holds made d → Holds (open_step st u d).1 (open_step st u d).0
  unfolding open_step put
  open_step-Holds d sound (fine, h) = elim (Option-cases (faults.open_write tmp)) [
    | inr (e, no_file) ↦ rw (no_file, open_step) (IsOutcome-at (ground arith) (untouched e h))
    | inl opens ↦ elim (Option-cases (d.names tmp)) [
      | inr (k, there) ↦
          let stale : fs tmp ≡ some (d.contents k) = sym h.tmp_same ∙ ground arith in
          rw (opens, open_step)
            (rw (there, open_step) (IsOutcome-at (ground arith) (untouched file_exists h)))
      | inl absent ↦
          rw (opens, open_step)
            (rw (absent, open_step)
              (record {
                opened = record {
                  directory = fine;
                  opens = opens;
                  absent = sym h.tmp_same ∙ ground arith;
                };
                owned = ground (arith, eq_refl tmp);
                filled = ground (arith, eqb_iff d.next d.next);
                path_same =
                    IsKept.content (create_keeps d sound tmp path (tmp-ne st path)) ∙ h.path_same;
              }))
    ]
  ]

  -- A byte goes to the file that the temporary name is of.
  write_step-Holds :
      (d : Disk) (file c : ℕ) (left : Bytes)
      → IsSound d
      → Holds (writing file (c ∷ left)) d
      → Holds (writing file left) (append_to file c d)
  write_step-Holds d file c left sound h = record {
    opened = h.opened;
    owned = h.owned;
    filled =
        ground (arith, eqb_iff file file) ∙ append_assoc (d.contents file) (c ∷ []) left ∙ h.filled;
    path_same =
        IsKept.content (append_to_keeps d sound tmp path file c (tmp-ne st path) h.owned)
        ∙ h.path_same;
  }

  copied-Holds :
      (d : Disk) (file : ℕ)
      → Holds (writing file []) d
      → Holds (after_copy (verdict st u.meta (copied st u))) d
  copied-Holds d file h = elim (Option-cases (verdict st u.meta (copied st u))) [
    | inl passed ↦
        rw (passed, after_copy)
          (record { opened = h.opened; filled = full; passed = passed; path_same = h.path_same })
    | inr (e, failed) ↦
        rw (failed, after_copy)
          (
            h.opened,
            IsOutcome-at (check-failed st u.meta (copied st u) written e failed) (record {
              result_same = refl;
              tmp_same = full ∙ ground (arith, eq_refl tmp);
              path_same = h.path_same ∙ ground (arith, tmp-ne st path);
            }),
          )
  ]
    where
      full : files d tmp ≡ some (copied st u).1
      full = ground (arith, h.owned, append-nil (d.contents file)) ∙ ap some h.filled

  -- The files when the temporary one has become the object's.
  abbrev settled : Files
  settled = update_file (update_file written tmp none) path (some (copied st u).1)

  rename_step-Holds :
      (d : Disk)
      → Holds renaming d
      → Holds (rename_step st tmp path d).1 (rename_step st tmp path d).0
  unfolding rename_step rename
  rename_step-Holds d h = elim (Option-cases (faults.rename tmp path)) [
    | inr (e, refused) ↦
        rw (refused, rename_step)
          (
            h.opened,
            IsOutcome-at {o = (some e, written)}
                (check-passed st u.meta (copied st u) written h.passed ∙ ground arith)
                (record {
                  result_same = refl;
                  tmp_same = h.filled ∙ ground (arith, eq_refl tmp);
                  path_same = h.path_same ∙ ground (arith, tmp-ne st path);
                }),
          )
    | inl fine ↦
        let (k, there, full) = name_of d tmp (copied st u).1 h.filled in
        rw (fine, rename_step)
          (rw (there, rename_step)
            (
              h.opened,
              IsOutcome-at {o = (none, settled)}
                  (check-passed st u.meta (copied st u) written h.passed
                    ∙ ground (arith, eq_refl tmp))
                  (record {
                    result_same = refl;
                    tmp_same =
                        ground
                          (arith, eq_refl tmp, tmp-ne st path, eq_iff path tmp, eq_iff tmp path);
                    path_same = ground (arith, eq_refl path);
                  }),
            ))
  ]

  remove_step-Holds :
      (d : Disk) (result : Option Error)
      → Holds (removing result) d
      → Holds (remove_step st tmp result d).1 (remove_step st tmp result d).0
  unfolding remove_step fill remove
  remove_step-Holds d result (opened, h) = elim (Option-cases (faults.remove tmp)) [
    | inr (e, refused) ↦
        rw (refused, remove_step)
          (IsOutcome-at (put-opened opened) (record {
            result_same = h.result_same;
            tmp_same = h.tmp_same ∙ ground arith;
            path_same = h.path_same ∙ ground arith;
          }))
    | inl fine ↦
        rw (fine, remove_step)
          (IsOutcome-at (put-opened opened) (record {
            result_same = h.result_same;
            tmp_same = ground (arith, eq_refl tmp);
            path_same = ground (arith, tmp-ne st path, h.path_same);
          }))
  ]

  -- Each system call takes the `Put` to where it holds of the disk.
  pub advance-Holds :
      (pc : Pc) (d : Disk)
      → IsSound d
      → Holds pc d
      → Holds (advance st u pc d).1 (advance st u pc d).0
  unfolding advance
  advance-Holds start d sound h = mkdir_step-Holds d h
  advance-Holds made d sound h = open_step-Holds d sound h
  advance-Holds (writing file (c ∷ left)) d sound h = write_step-Holds d file c left sound h
  advance-Holds (writing file []) d sound h = copied-Holds d file h
  advance-Holds renaming d sound h = rename_step-Holds d h
  advance-Holds (removing result) d sound h = remove_step-Holds d result h
  advance-Holds (done result) d sound h = h
