-- ===== src/ContentStore/Steps/Interleaving.antt =====
-- Uploads of different objects that run at the same time, in any order of their system calls.
use lfs_server_go.Prelude.{
  ℕ, ◌≡◌, sym, ap, ◌∙◌, inl, inr, false, some, List, [], ◌∷◌, get_elem?, arith, eqb, eqb_iff,
  Bool-cases, Option-cases,
}
use mathlib.Core.Option.{some-injective}
use lfs_server_go.Text.{Bytes, ◌==◌}
use lfs_server_go.Text.Laws.{eq_iff}
use lfs_server_go.ContentStore.{Storage, Files, path_of, tmp_path_of}
use lfs_server_go.ContentStore.Intact.{IsOid, path_of_injective, tmp_path_of-ne-path_of}
use lfs_server_go.ContentStore.Steps.{Disk, Upload, System, step, run_schedule}
use lfs_server_go.ContentStore.Steps.Frame.{IsSound, IsKept, IsLocal, advance-IsLocal}
use lfs_server_go.ContentStore.Steps.Turns.{Holds, advance-Holds}
use lfs_server_go.ContentStore.Steps.Apart.{Holds-kept, Holds-Owns, tmp_path_of_injective}

-- Uploads of oids without slashes and periods, no two of the same object.
pub record AreApart (uploads : List Upload) : Type 0 where
  pub plain : (i : ℕ) (u : Upload) → get_elem? uploads i ≡ some u → IsOid u.meta.oid
  pub apart :
      (i j : ℕ) (u v : Upload)
      → get_elem? uploads i ≡ some u
      → get_elem? uploads j ≡ some v
      → u.meta.oid ≡ v.meta.oid
      → i ≡ j

pub ne_test : (p q : Bytes) → (p ≡ q → ⊥) → (p == q) ≡ false
ne_test p q other = elim (Bool-cases (p == q)) [
  | inl same ↦ absurd (other ((eq_iff p q).0 same))
  | inr differ ↦ differ
]

module _ (st : Storage) (uploads : List Upload) (fs : Files) where
  -- The disk is sound, and each `Put` stands where it can stand alone.
  pub record Inv (s : System) : Type 0 where
    pub sound : IsSound s.disk
    pub each : (j : ℕ) (v : Upload) → get_elem? uploads j ≡ some v → Holds st v fs (s.pcs j) s.disk

  module _ (a : AreApart uploads) where
    open a use {plain, apart}

    -- What a `Put` does to the disk keeps the files of the others.
    others-IsKept :
        (i j : ℕ) (u v : Upload) (d d' : Disk) (sound : IsSound d)
        → get_elem? uploads i ≡ some u
        → get_elem? uploads j ≡ some v
        → (i ≡ j → ⊥)
        → IsLocal st u d sound d'
        → IsKept d d' (tmp_path_of st v.meta.oid) × IsKept d d' (path_of st v.meta.oid)
    others-IsKept i j u v d d' sound hu hv other l =
        let pu = plain i u hu in
        let pv = plain j v hv in
        let differ : path_of st u.meta.oid ≡ path_of st v.meta.oid → ⊥ =
          λ e. other (apart i j u v hu hv (path_of_injective st u.meta.oid v.meta.oid pu pv e)) in
        (
          l.keeps (tmp_path_of st v.meta.oid)
              (ne_test _ _ (λ e. differ (tmp_path_of_injective st u.meta.oid v.meta.oid e)))
              (ne_test _ _ (λ e. tmp_path_of-ne-path_of st v.meta.oid u.meta.oid pv pu (sym e))),
          l.keeps (path_of st v.meta.oid)
              (ne_test _ _ (tmp_path_of-ne-path_of st u.meta.oid v.meta.oid pu pv))
              (ne_test _ _ differ),
        )

    pub step-Inv : (i : ℕ) (s : System) → Inv s → Inv (step st uploads i s)
    unfolding step
    step-Inv i s inv = elim (Option-cases (get_elem? uploads i)) [
      | inl outside ↦ rw (outside, step) inv
      | inr (u, hu) ↦
          let local =
            advance-IsLocal st u s.disk inv.sound (s.pcs i)
              (Holds-Owns st u fs (s.pcs i) s.disk (inv.each i u hu)) in
          rw (hu, step)
            (record {
              sound = local.IsSound_after;
              each = λ j v hv. elim (Bool-cases (eqb i j)) [
                | inl here ↦
                    let same : i ≡ j = (eqb_iff i j).0 here in
                    let one : u ≡ v =
                      some-injective _ _ (sym hu ∙ ap (get_elem? uploads) same ∙ hv) in
                    rw here (
                      rw (← one)
                        (advance-Holds st u fs (s.pcs i) s.disk inv.sound (inv.each i u hu)))
                | inr there ↦
                    let (t, p) =
                      others-IsKept i j u v s.disk _ inv.sound hu hv
                        (λ e. ground (arith, eqb_iff i j)) local in
                    rw there (Holds-kept st v fs (s.pcs j) s.disk _ t p (inv.each j v hv))
              ];
            })
    ]

    pub run_schedule-Inv :
        (turns : List ℕ) (s : System) → Inv s → Inv (run_schedule st uploads turns s)
    unfolding run_schedule
    run_schedule-Inv [] s inv = inv
    run_schedule-Inv (i ∷ turns) s inv =
        run_schedule-Inv turns (step st uploads i s) (step-Inv i s inv)
