-- ===== src/ContentStore/Steps/Apart.antt =====
-- A `Put` of content_store.go among others that leave its two files alone.
use lfs_server_go.Prelude.{◌≡◌, refl, ap, ◌∙◌, ◌⊎◌, inl, inr, ◌++◌, arith}
use mathlib.Core.Option.{some-injective}
use mathlib.Core.List.{append_cancel_right}
use lfs_server_go.Text.{Bytes, lit}
use lfs_server_go.ContentStore.{Storage, Files, path_of, tmp_path_of, remove, fill, put}
use lfs_server_go.ContentStore.Integrity.{tmp-ne}
use lfs_server_go.ContentStore.Steps.{
  Disk, files, Upload, Pc, start, made, writing, renaming, removing, done,
}
use lfs_server_go.ContentStore.Steps.Frame.{IsKept, Owns}
use lfs_server_go.ContentStore.Steps.Turns.{Holds, put-opened}

module _ (st : Storage) where
  -- A `Put` still holds when its two files are kept.
  pub Holds-kept :
      (u : Upload) (fs : Files) (pc : Pc) (d d' : Disk)
      → IsKept d d' (tmp_path_of st u.meta.oid)
      → IsKept d d' (path_of st u.meta.oid)
      → Holds st u fs pc d
      → Holds st u fs pc d'
  Holds-kept u fs start d d' t p h = record {
    result_same = refl;
    tmp_same = t.content ∙ h.tmp_same;
    path_same = p.content ∙ h.path_same;
  }
  Holds-kept u fs made d d' t p (fine, h) = (
    fine,
    record {
      result_same = refl;
      tmp_same = t.content ∙ h.tmp_same;
      path_same = p.content ∙ h.path_same;
    },
  )
  Holds-kept u fs (writing file left) d d' t p h = record {
    opened = h.opened;
    owned = t.name ∙ h.owned;
    filled =
        ap (λ w. w ++ left) (some-injective _ _ (ground (arith, t.content, t.name, h.owned)))
        ∙ h.filled;
    path_same = p.content ∙ h.path_same;
  }
  Holds-kept u fs renaming d d' t p h = record {
    opened = h.opened;
    filled = t.content ∙ h.filled;
    passed = h.passed;
    path_same = p.content ∙ h.path_same;
  }
  Holds-kept u fs (removing result) d d' t p (opened, h) = (
    opened,
    record {
      result_same = h.result_same;
      tmp_same = t.content ∙ h.tmp_same;
      path_same = p.content ∙ h.path_same;
    },
  )
  Holds-kept u fs (done result) d d' t p h = record {
    result_same = h.result_same;
    tmp_same = t.content ∙ h.tmp_same;
    path_same = p.content ∙ h.path_same;
  }

  pub Holds-Owns :
      (u : Upload) (fs : Files) (pc : Pc) (d : Disk) → Holds st u fs pc d → Owns st u pc d
  Holds-Owns u fs start d h = tt
  Holds-Owns u fs made d h = tt
  Holds-Owns u fs (writing file left) d h = h.owned
  Holds-Owns u fs renaming d h = tt
  Holds-Owns u fs (removing result) d h = tt
  Holds-Owns u fs (done result) d h = tt

  -- The file of the object is the one from before or the one that the whole `put` leaves.
  pub Holds-old_or_new :
      (u : Upload) (fs : Files) (pc : Pc) (d : Disk)
      → Holds st u fs pc d
      → (files d (path_of st u.meta.oid) ≡ fs (path_of st u.meta.oid))
        ⊎ (files d (path_of st u.meta.oid) ≡ (put st u.meta u.reader fs).1 (path_of st u.meta.oid))
  unfolding fill remove
  Holds-old_or_new u fs start d h = inl h.path_same
  Holds-old_or_new u fs made d (_, h) = inl h.path_same
  Holds-old_or_new u fs (writing file left) d h = inl h.path_same
  Holds-old_or_new u fs renaming d h = inl h.path_same
  Holds-old_or_new u fs (removing result) d (opened, h) = inr (
      h.path_same
      ∙ rw (put-opened st u fs opened) (ground (arith, tmp-ne st (path_of st u.meta.oid))))
  Holds-old_or_new u fs (done result) d h = inr h.path_same

  pub tmp_path_of_injective :
      (j k : Bytes) → tmp_path_of st j ≡ tmp_path_of st k → path_of st j ≡ path_of st k
  tmp_path_of_injective j k e = append_cancel_right (path_of st j) (path_of st k) (lit ".tmp") e
