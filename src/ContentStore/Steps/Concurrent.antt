-- ===== src/ContentStore/Steps/Concurrent.antt =====
-- What uploads of different objects come to when they run at the same time.
use lfs_server_go.Prelude.{
  ℕ, suc, ◌+◌, ◌-◌, ◌≤◌, ◌≡◌, refl, sym, ap, ◌∙◌, ◌⊎◌, inl, inr, Option, some, List, [], ◌∷◌,
  length, get_elem?, arith, eqb, eqb_iff, if◌then◌else◌, Bool-cases, Option-cases,
}
use mathlib.Core.Path.{subst}
use lfs_server_go.Text.{Bytes, ◌==◌}
use lfs_server_go.Text.Laws.{eq_iff}
use lfs_server_go.Errors.{Error}
use lfs_server_go.ContentStore.{Storage, Files, path_of, sha_str, put}
use lfs_server_go.ContentStore.Intact.{
  IsIntact, path_of_injective, tmp_path_of-ne-path_of, put-IsIntact,
}
use lfs_server_go.ContentStore.Steps.{
  Disk, files, Upload, Pc, start, made, writing, renaming, removing, done, copied, advance,
  rename_step, open_step, remove_step, mkdir_step, System, step, run_schedule, begin,
}
use lfs_server_go.ContentStore.Steps.Frame.{IsSound, IsKept, advance-IsLocal}
use lfs_server_go.ContentStore.Steps.Turns.{IsOutcome, Holds}
use lfs_server_go.ContentStore.Steps.Apart.{Holds-Owns, Holds-old_or_new}
use lfs_server_go.ContentStore.Steps.Interleaving.{
  AreApart, ne_test, Inv, step-Inv, run_schedule-Inv,
}

-- The turns of an upload in a schedule.
abbrev pub turns_of : ℕ → List ℕ → ℕ
turns_of i [] = 0
turns_of i (j ∷ js) = if eqb j i then suc (turns_of i js) else turns_of i js

module _ (st : Storage) where
  open st use {faults}

  -- The system calls that a `Put` still makes, at most.
  abbrev pub remaining : Upload → Pc → ℕ
  remaining u start = 5 + length (copied st u).1
  remaining u made = 4 + length (copied st u).1
  remaining u (writing file left) = 3 + length left
  remaining u renaming = 2
  remaining u (removing result) = 1
  remaining u (done result) = 0

  remaining-advance :
      (u : Upload) (pc : Pc) (d : Disk) → remaining u (advance st u pc d).1 ≤ remaining u pc - 1
  unfolding advance mkdir_step open_step rename_step remove_step
  remaining-advance u start d = ground arith
  remaining-advance u made d = ground arith
  remaining-advance u (writing file (c ∷ left)) d = ground arith
  remaining-advance u (writing file []) d = ground arith
  remaining-advance u renaming d = ground arith
  remaining-advance u (removing result) d = ground arith
  remaining-advance u (done result) d = ground arith

  module _ (uploads : List Upload) where
    remaining-step :
        (i j : ℕ) (u : Upload) (s : System)
        → get_elem? uploads i ≡ some u
        → remaining u ((step st uploads j s).pcs i)
          ≤ (if eqb j i then remaining u (s.pcs i) - 1 else remaining u (s.pcs i))
    unfolding step
    remaining-step i j u s hu = elim (Bool-cases (eqb j i)) [
      | inl here ↦
          let same : get_elem? uploads j ≡ some u =
            ap (get_elem? uploads) ((eqb_iff j i).0 here) ∙ hu in
          let one : remaining u (advance st u (s.pcs j) s.disk).1 ≤ remaining u (s.pcs j) - 1 =
            remaining-advance u (s.pcs j) s.disk in
          rw (same, step)
            (rw (here) (
              subst (λ k. remaining u (advance st u (s.pcs j) s.disk).1 ≤ remaining u (s.pcs k) - 1)
                ((eqb_iff j i).0 here) one))
      | inr there ↦ elim (Option-cases (get_elem? uploads j)) [
        | inl outside ↦ rw (outside, step) (rw there (ground arith))
        | inr (v, hv) ↦ rw (hv, step) (rw there (ground arith))
      ]
    ]

    remaining-run_schedule :
        (i : ℕ) (u : Upload) (turns : List ℕ) (s : System)
        → get_elem? uploads i ≡ some u
        → remaining u ((run_schedule st uploads turns s).pcs i)
          ≤ remaining u (s.pcs i) - turns_of i turns
    unfolding run_schedule
    remaining-run_schedule i u [] s hu = ground arith
    remaining-run_schedule i u (j ∷ turns) s hu = ground (
      arith,
      remaining-run_schedule i u turns (step st uploads j s) hu,
      remaining-step i j u s hu,
    )

  finished :
      (u : Upload) (pc : Pc) → remaining u pc ≤ 0 → (result : Option Error) × (pc ≡ done result)
  finished u start h = absurd (ground arith)
  finished u made h = absurd (ground arith)
  finished u (writing file left) h = absurd (ground arith)
  finished u renaming h = absurd (ground arith)
  finished u (removing result) h = absurd (ground arith)
  finished u (done result) h = (result, refl)

  module _ (uploads : List Upload) (a : AreApart uploads) (fs : Files)
      (before : IsIntact st fs) where
    -- The file of an upload's own object has the content from before or the accepted one.
    own-IsIntact :
        (s : System) (i : ℕ) (u : Upload) (content : Bytes)
        → Inv st uploads fs s
        → get_elem? uploads i ≡ some u
        → files s.disk (path_of st u.meta.oid) ≡ some content
        → sha_str st content ≡ u.meta.oid
    own-IsIntact s i u content inv hu there =
        let plain = a.plain i u hu in
        elim (Holds-old_or_new st u fs (s.pcs i) s.disk (inv.each i u hu)) [
          | inl old ↦ before u.meta.oid content plain (sym old ∙ there)
          | inr new ↦
              put-IsIntact st u.meta u.reader fs plain before u.meta.oid content plain
                (sym new ∙ there)
        ]

    step-disk :
        (s : System) (i : ℕ) (u : Upload)
        → get_elem? uploads i ≡ some u
        → (step st uploads i s).disk ≡ (advance st u (s.pcs i) s.disk).0
    unfolding step
    step-disk s i u hu = rw (hu, step) refl

    step-IsIntact :
        (i : ℕ) (s : System)
        → Inv st uploads fs s
        → IsIntact st (files s.disk)
        → IsIntact st (files (step st uploads i s).disk)
    unfolding step
    step-IsIntact i s inv intact = elim (Option-cases (get_elem? uploads i)) [
      | inl outside ↦ rw (outside, step) intact
      | inr (u, hu) ↦ λ oid content h there.
          let local =
            advance-IsLocal st u s.disk inv.sound (s.pcs i)
              (Holds-Owns st u fs (s.pcs i) s.disk (inv.each i u hu)) in
          elim (Bool-cases (path_of st u.meta.oid == path_of st oid)) [
            | inl here ↦
                let same : u.meta.oid ≡ oid =
                  path_of_injective st u.meta.oid oid (a.plain i u hu) h ((eq_iff _ _).0 here) in
                own-IsIntact (step st uploads i s) i u content (step-Inv st uploads fs a i s inv) hu
                  (ap (λ o. files (step st uploads i s).disk (path_of st o)) same ∙ there)
                ∙ same
            | inr other ↦ intact oid content h (
                sym (
                  IsKept.content (
                    local.keeps (path_of st oid)
                      (ne_test _ _ (tmp_path_of-ne-path_of st u.meta.oid oid (a.plain i u hu) h))
                      other))
                ∙ sym (ap (λ x. files x (path_of st oid)) (step-disk s i u hu))
                ∙ there)
          ]
    ]

    run_schedule-IsIntact :
        (turns : List ℕ) (s : System)
        → Inv st uploads fs s
        → IsIntact st (files s.disk)
        → IsIntact st (files (run_schedule st uploads turns s).disk)
    unfolding run_schedule
    run_schedule-IsIntact [] s inv intact = intact
    run_schedule-IsIntact (i ∷ turns) s inv intact =
        run_schedule-IsIntact turns (step st uploads i s) (step-Inv st uploads fs a i s inv)
          (step-IsIntact i s inv intact)

  module _ (uploads : List Upload) (a : AreApart uploads) (d : Disk) (sound : IsSound d)
      (turns : List ℕ) where
    abbrev last : System
    last = run_schedule st uploads turns (begin d)

    begin-Inv : Inv st uploads (files d) (begin d)
    begin-Inv = record {
      sound = sound;
      each = λ j v hv. record { result_same = refl; tmp_same = refl; path_same = refl };
    }

    reached-Inv : Inv st uploads (files d) last
    reached-Inv = run_schedule-Inv st uploads (files d) a turns (begin d) begin-Inv

    -- Uploads of different objects, of oids without slashes and periods, on a disk on which no file
    -- has two names; their system calls take turns in any order. At every moment the file of each
    -- object is, whole, the one from before or the one that its `Put` alone leaves.
    pub interleaved_atomic :
        (i : ℕ) (u : Upload)
        → get_elem? uploads i ≡ some u
        → (files last.disk (path_of st u.meta.oid) ≡ files d (path_of st u.meta.oid))
          ⊎ (files last.disk (path_of st u.meta.oid)
              ≡ (put st u.meta u.reader (files d)).1 (path_of st u.meta.oid))
    interleaved_atomic i u hu =
        Holds-old_or_new st u (files d) (last.pcs i) last.disk (reached-Inv.each i u hu)

    -- Uploads of different objects, of oids without slashes and periods, on a disk on which no file
    -- has two names; their system calls take turns in any order. One that has had as many turns as it
    -- writes bytes and five more has returned what its `Put` returns when it runs alone, and left the
    -- temporary file and the file of its object as that does.
    pub interleaved-put :
        (i : ℕ) (u : Upload)
        → get_elem? uploads i ≡ some u
        → 5 + length (copied st u).1 ≤ turns_of i turns
        → (last.pcs i ≡ done (put st u.meta u.reader (files d)).0)
          × IsOutcome st u
              (files d)
              (put st u.meta u.reader (files d))
              (put st u.meta u.reader (files d)).0
              last.disk
    interleaved-put i u hu enough =
        let (result, ended) =
          finished u (last.pcs i)
            (ground (arith, remaining-run_schedule uploads i u turns (begin d) hu)) in
        let held : Holds st u (files d) (done result) last.disk =
          subst (λ p. Holds st u (files d) p last.disk) ended (reached-Inv.each i u hu) in
        (
          ended ∙ ap done held.result_same,
          record { result_same = refl; tmp_same = held.tmp_same; path_same = held.path_same },
        )

    -- Uploads of different objects, of oids without slashes and periods, on a disk on which no file
    -- has two names and the file of every such oid has the content that the oid is the SHA-256 of;
    -- their system calls take turns in any order. The files are so at every moment.
    pub interleaved-IsIntact : IsIntact st (files d) → IsIntact st (files last.disk)
    interleaved-IsIntact before =
        run_schedule-IsIntact uploads a (files d) before turns (begin d) begin-Inv before
