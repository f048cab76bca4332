-- ===== src/Examples/Turns.antt =====
-- Uploads of content_store.go that take turns, on the disk that is empty and refuses nothing.
use lfs_server_go.Prelude.{
  ℕ, false, zero, suc, ◌+◌, ◌≤◌, ◌≡◌, refl, sym, ap, ◌∙◌, ◌⊎◌, none, some, List, [], ◌∷◌, length,
  get_elem?, arith,
}
use mathlib.Core.Path.{subst}
use mathlib.Core.Option.{some-injective}
use lfs_server_go.Text.{lit, ◌==◌}
use lfs_server_go.FilePath.{join}
use lfs_server_go.Text.Laws.{eq_iff}
use lfs_server_go.Hex.{encode_to_string}
use lfs_server_go.TransformKey.{transform_key}
use lfs_server_go.Types.{pos, MetaObject}
use lfs_server_go.ContentStore.{path_of, put, sha_str, copy}
use lfs_server_go.ContentStore.Intact.{IsOid, IsIntact}
use lfs_server_go.ContentStore.Steps.{
  Disk, files, Upload, done, copied, System, run_schedule, begin, step, advance, mkdir_step,
  open_step, rename_step, remove_step, verdict,
}
use lfs_server_go.ContentStore.Steps.Frame.{IsSound}
use lfs_server_go.ContentStore.Steps.Turns.{IsOutcome}
use lfs_server_go.ContentStore.Steps.Interleaving.{AreApart}
use lfs_server_go.ContentStore.Steps.Concurrent.{
  turns_of, interleaved-put, interleaved_atomic, interleaved-IsIntact,
}
use lfs_server_go.Examples.Disk.{
  disk, differ, Kept, six-Kept, one-Kept, two-Kept, abc-IsOid, abc, upload, other_upload,
}

abbrev empty_disk : Disk
empty_disk = record { names = λ p. none; contents = λ k. []; next = 0 }

empty_disk-IsSound : IsSound empty_disk
empty_disk-IsSound = record { fresh = λ p k h. cc; single = λ p q k h h'. cc }

-- The object "abd", under the oid that is its hash.
abbrev abd : MetaObject
abd = record { oid = lit "616264"; size = pos 3; project_names = []; existing = false }

four-Kept : Kept b'4'
four-Kept = (λ e. ground arith, λ e. ground arith)

abd-IsOid : IsOid abd.oid
abd-IsOid =
    (λ e. ground arith, (six-Kept, (one-Kept, (six-Kept, (two-Kept, (six-Kept, (four-Kept, tt)))))))

abc-ne-abd : abc.oid ≡ abd.oid → ⊥
abc-ne-abd e = ground (arith, differ, (eq_iff abd.oid abc.oid).1 (sym e))

-- An upload that is accepted, and one of another content than its oid says.
abbrev two : List Upload
two = record { meta = abc; reader = upload } ∷ record { meta = abd; reader = upload } ∷ []

abbrev alternating : List ℕ
alternating = 0 ∷ 1 ∷ 0 ∷ 1 ∷ 0 ∷ 1 ∷ 0 ∷ 1 ∷ 0 ∷ 1 ∷ 0 ∷ 1 ∷ 0 ∷ 1 ∷ 0 ∷ 1 ∷ []

two-AreApart : AreApart two
two-AreApart = record { plain = plain; apart = apart }
  where
    plain : (i : ℕ) (u : Upload) → get_elem? two i ≡ some u → IsOid u.meta.oid
    plain zero u h = subst (λ v. IsOid v.meta.oid) (some-injective _ _ h) abc-IsOid
    plain (suc zero) u h = subst (λ v. IsOid v.meta.oid) (some-injective _ _ h) abd-IsOid
    plain (suc (suc i)) u h = cc

    distinct :
        {u v : Upload}
        → some (record { meta = abc; reader = upload }) ≡ some u
        → some (record { meta = abd; reader = upload }) ≡ some v
        → u.meta.oid ≡ v.meta.oid
        → ⊥
    distinct hu hv e = abc-ne-abd (
        ap (λ (w : Upload). w.meta.oid) (some-injective _ _ hu)
        ∙ e
        ∙ sym (ap (λ (w : Upload). w.meta.oid) (some-injective _ _ hv)))

    apart :
        (i j : ℕ) (u v : Upload)
        → get_elem? two i ≡ some u
        → get_elem? two j ≡ some v
        → u.meta.oid ≡ v.meta.oid
        → i ≡ j
    apart zero zero u v hu hv e = refl
    apart zero (suc zero) u v hu hv e = absurd (distinct hu hv e)
    apart (suc zero) zero u v hu hv e = absurd (distinct hv hu (sym e))
    apart (suc zero) (suc zero) u v hu hv e = refl
    apart (suc (suc i)) j u v hu hv e = cc
    apart zero (suc (suc j)) u v hu hv e = cc
    apart (suc zero) (suc (suc j)) u v hu hv e = cc

abbrev two_done : System
two_done = run_schedule disk two alternating (begin empty_disk)

enough :
    5 + length (copied disk (record { meta = abd; reader = upload })).1 ≤ turns_of 1 alternating
unfolding copy
enough = ground arith

-- The second upload fails while the first is stored.
interleaved-put_example :
    (two_done.pcs 1 ≡ done (put disk abd upload (files empty_disk)).0)
    × IsOutcome disk
        (record { meta = abd; reader = upload })
        (files empty_disk)
        (put disk abd upload (files empty_disk))
        (put disk abd upload (files empty_disk)).0
        two_done.disk
interleaved-put_example =
    interleaved-put disk two two-AreApart empty_disk empty_disk-IsSound alternating 1
      (record { meta = abd; reader = upload }) refl enough

interleaved_atomic_example :
    (files two_done.disk (path_of disk abc.oid) ≡ none)
    ⊎ (files two_done.disk (path_of disk abc.oid)
        ≡ (put disk abc upload (files empty_disk)).1 (path_of disk abc.oid))
interleaved_atomic_example =
    interleaved_atomic disk two two-AreApart empty_disk empty_disk-IsSound alternating 0
      (record { meta = abc; reader = upload }) refl

abbrev race : List Upload
race =
    record { meta = abc; reader = upload }
    ∷ record { meta = abc; reader = upload }
    ∷ record { meta = abc; reader = other_upload }
    ∷ []

-- The first has renamed its file but not yet run its deferred `os.Remove`, which takes the file of
-- the second away; the second then renames the file of the third.
abbrev race_turns : List ℕ
race_turns =
    0 ∷ 0 ∷ 0 ∷ 0 ∷ 0 ∷ 0 ∷ 0 ∷ 1 ∷ 1 ∷ 0 ∷ 2 ∷ 2 ∷ 1 ∷ 1 ∷ 1 ∷ 1 ∷ 1 ∷ 1 ∷ 2 ∷ 2 ∷ 2 ∷ 2 ∷ 2 ∷ []

abbrev raced : System
raced = run_schedule disk race race_turns (begin empty_disk)

race_is_lost : files raced.disk (path_of disk (lit "616263")) ≡ some (lit "abd")
unfolding run_schedule step advance mkdir_step open_step rename_step remove_step verdict copy
    path_of ◌==◌ sha_str encode_to_string join transform_key
race_is_lost = refl

interleaved-IsIntact_example : IsIntact disk (files two_done.disk)
interleaved-IsIntact_example =
    interleaved-IsIntact disk two two-AreApart empty_disk empty_disk-IsSound alternating
      (λ oid content h there. absurd (ground arith))
