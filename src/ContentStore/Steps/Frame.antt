-- ===== src/ContentStore/Steps/Frame.antt =====
-- What a system call of a `Put` of content_store.go leaves of the files of the others.
use lfs_server_go.Prelude.{
  ℕ, ◌<◌, ◌≡◌, refl, inl, inr, false, Option, some, [], ◌∷◌, arith, Option-cases,
}
use lfs_server_go.Text.{Bytes, ◌==◌}
use lfs_server_go.Text.Laws.{eq_iff}
use lfs_server_go.Errors.{Error}
use lfs_server_go.FilePath.{dir}
use lfs_server_go.ContentStore.{Storage, path_of, tmp_path_of}
use lfs_server_go.ContentStore.Steps.{
  Disk, files, create, append_to, unlink, link, Upload, Pc, start, made, writing, renaming,
  removing, done, advance, rename_step, open_step, remove_step, mkdir_step,
}

-- Every name is of a file that was made, and no file has two names.
pub record IsSound (d : Disk) : Type 0 where
  pub fresh : (p : Bytes) (k : ℕ) → d.names p ≡ some k → k < d.next
  pub single : (p q : Bytes) (k : ℕ) → d.names p ≡ some k → d.names q ≡ some k → p ≡ q

-- The name and the content of a path are the same on both disks.
pub record IsKept (d d' : Disk) (q : Bytes) : Type 0 where
  pub name : d'.names q ≡ d.names q
  pub content : files d' q ≡ files d q

kept : (d : Disk) (q : Bytes) → IsKept d d q
kept d q = record { name = refl; content = refl }

module _ (d : Disk) (sound : IsSound d) where
  open sound use {fresh, single}

  create-IsSound : (p : Bytes) → IsSound (create p d)
  create-IsSound p = record {
    fresh = λ q k h. ground (arith, fresh q k);
    single =
        λ q r k hq hr. ground (arith, single q r k, fresh q k, fresh r k, eq_iff p q, eq_iff p r);
  }

  unlink-IsSound : (p : Bytes) → IsSound (unlink p d)
  unlink-IsSound p = record {
    fresh = λ q k h. ground (arith, fresh q k);
    single = λ q r k hq hr. ground (arith, single q r k);
  }

  move-IsSound : (p q : Bytes) (k : ℕ) → d.names p ≡ some k → IsSound (link q k (unlink p d))
  move-IsSound p q k h = record {
    fresh = λ r j e. ground (arith, fresh r j, fresh p k);
    single = λ r s j hr hs. ground (
      arith,
      single r s j,
      single r p k,
      single s p k,
      eq_iff q r,
      eq_iff q s,
      eq_iff p r,
      eq_iff p s,
    );
  }

  pub create_keeps : (p q : Bytes) → (p == q) ≡ false → IsKept d (create p d) q
  create_keeps p q other = record {
    name = ground arith;
    content = elim (Option-cases (d.names q)) [
      | inl absent ↦ ground arith
      | inr (k, there) ↦ ground (arith, fresh q k)
    ];
  }

  pub append_to_keeps :
      (p q : Bytes) (file c : ℕ)
      → (p == q) ≡ false
      → d.names p ≡ some file
      → IsKept d (append_to file c d) q
  append_to_keeps p q file c other own = record {
    name = refl;
    content = elim (Option-cases (d.names q)) [
      | inl absent ↦ ground arith
      | inr (k, there) ↦ ground (arith, single p q k, eq_iff p q)
    ];
  }

  unlink_keeps : (p q : Bytes) → (p == q) ≡ false → IsKept d (unlink p d) q
  unlink_keeps p q other = record { name = ground arith; content = ground arith }

  move_keeps :
      (p q r : Bytes) (k : ℕ)
      → (p == r) ≡ false
      → (q == r) ≡ false
      → IsKept d (link q k (unlink p d)) r
  move_keeps p q r k np nq = record { name = ground arith; content = ground arith }

-- A `Put` that writes does so to the file of its temporary name.
module _ (st : Storage) where
  open st use {faults}

  abbrev pub Owns : Upload → Pc → Disk → Type 0
  Owns u (writing file left) d = d.names (tmp_path_of st u.meta.oid) ≡ some file
  Owns u _ d = Unit {0}

  module _ (u : Upload) (d : Disk) (sound : IsSound d) where
    abbrev tmp : Bytes
    tmp = tmp_path_of st u.meta.oid

    abbrev path : Bytes
    path = path_of st u.meta.oid

    -- What a system call does to the disk: it stays sound, and other files are kept.
    pub record IsLocal (d' : Disk) : Type 0 where
      pub IsSound_after : IsSound d'
      pub keeps : (q : Bytes) → (tmp == q) ≡ false → (path == q) ≡ false → IsKept d d' q

    unmoved : IsLocal d
    unmoved = record { IsSound_after = sound; keeps = λ q _ _. kept d q }

    mkdir_step-IsLocal : IsLocal (mkdir_step st u d).0
    unfolding mkdir_step
    mkdir_step-IsLocal = elim (Option-cases (faults.mkdir_all (dir path))) [
      | inl fine ↦ rw (fine, mkdir_step) unmoved
      | inr (e, no_dir) ↦ rw (no_dir, mkdir_step) unmoved
    ]

    open_step-IsLocal : IsLocal (open_step st u d).0
    unfolding open_step
    open_step-IsLocal = elim (Option-cases (faults.open_write tmp)) [
      | inr (e, no_file) ↦ rw (no_file, open_step) unmoved
      | inl opens ↦ elim (Option-cases (d.names tmp)) [
        | inr (k, there) ↦ rw (opens, open_step) (rw (there, open_step) unmoved)
        | inl absent ↦
            rw (opens, open_step)
              (rw (absent, open_step)
                (record {
                  IsSound_after = create-IsSound d sound tmp;
                  keeps = λ q other _. create_keeps d sound tmp q other;
                }))
      ]
    ]

    rename_step-IsLocal : IsLocal (rename_step st tmp path d).0
    unfolding rename_step
    rename_step-IsLocal = elim (Option-cases (faults.rename tmp path)) [
      | inr (e, refused) ↦ rw (refused, rename_step) unmoved
      | inl fine ↦ elim (Option-cases (d.names tmp)) [
        | inl absent ↦ rw (fine, rename_step) (rw (absent, rename_step) unmoved)
        | inr (k, there) ↦
            rw (fine, rename_step)
              (rw (there, rename_step)
                (record {
                  IsSound_after = move-IsSound d sound tmp path k there;
                  keeps = λ q other here. move_keeps d sound tmp path q k other here;
                }))
      ]
    ]

    remove_step-IsLocal : (result : Option Error) → IsLocal (remove_step st tmp result d).0
    unfolding remove_step
    remove_step-IsLocal result = elim (Option-cases (faults.remove tmp)) [
      | inr (e, refused) ↦ rw (refused, remove_step) unmoved
      | inl fine ↦
          rw (fine, remove_step)
            (record {
              IsSound_after = unlink-IsSound d sound tmp;
              keeps = λ q other _. unlink_keeps d sound tmp q other;
            })
    ]

    pub advance-IsLocal : (pc : Pc) → Owns u pc d → IsLocal (advance st u pc d).0
    unfolding advance
    advance-IsLocal start own = mkdir_step-IsLocal
    advance-IsLocal made own = open_step-IsLocal
    advance-IsLocal (writing file (c ∷ left)) own = record {
      IsSound_after = record { fresh = sound.fresh; single = sound.single };
      keeps = λ q other _. append_to_keeps d sound tmp q file c other own;
    }
    advance-IsLocal (writing file []) own = unmoved
    advance-IsLocal renaming own = rename_step-IsLocal
    advance-IsLocal (removing result) own = remove_step-IsLocal result
    advance-IsLocal (done result) own = unmoved
