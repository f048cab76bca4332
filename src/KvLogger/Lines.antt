-- ===== src/KvLogger/Lines.antt =====
-- What the writer of kvlogger.go gets when goroutines log at the same time.
use lfs_server_go.Prelude.{
  ℕ, ◌≡◌, refl, sym, ap, ◌∙◌, ◌≢◌, ◌⊎◌, inl, inr, Bool, true, false, List, [], ◌∷◌, ◌++◌, arith,
  eqb, eqb_iff, Bool-cases, if◌then◌else◌,
}
use mathlib.Core.List.{append_assoc, append-nil}
use mathlib.Core.Path.{subst}
use lfs_server_go.Text.{Bytes}
use lfs_server_go.KvLogger.{
  Pc, idle, waiting, writing, Logger, set_pc, Reach, fresh, call_log, lock, write_byte, unlock,
}

-- An output that is the lines of these calls in the order of their return, each without the end
-- that the writer did not take.
pub data Written : List (Bytes × Bytes) → Bytes → Type 0 where
  nothing : Written [] []
  more :
      {returned : List (Bytes × Bytes)} {out line left : Bytes} (part : Bytes)
      → Written returned out
      → part ++ left ≡ line
      → Written ((line, left) ∷ returned) (out ++ part)

-- No goroutine writes, or exactly one does and has written the first part of its line.
data Inv (lines : List (Bytes × Bytes)) (l : Logger) : Type 0 where
  quiet :
      l.locked ≡ false
      → ((j : ℕ) (line left : Bytes) → l.pcs j ≢ writing line left)
      → Written lines l.out
      → Inv lines l
  busy :
      (i : ℕ) (line left before part : Bytes)
      → l.locked ≡ true
      → l.pcs i ≡ writing line left
      → ((j : ℕ) (line' left' : Bytes) → l.pcs j ≡ writing line' left' → i ≡ j)
      → Written lines before
      → l.out ≡ before ++ part
      → part ++ left ≡ line
      → Inv lines l

-- A goroutine that writes after another has moved elsewhere wrote before.
wrote :
    (pcs : ℕ → Pc) (i j : ℕ) (p : Pc) (w left : Bytes)
    → (p ≡ writing w left → ⊥)
    → set_pc pcs i p j ≡ writing w left
    → pcs j ≡ writing w left
wrote pcs i j p w left other h = elim (Bool-cases (eqb i j)) [
  | inl here ↦ absurd (other (ap (λ (b : Bool). if b then p else pcs j) (sym here) ∙ h))
  | inr there ↦ ap (λ (b : Bool). if b then p else pcs j) (sym there) ∙ h
]

set_pc-here : (pcs : ℕ → Pc) (i : ℕ) (p : Pc) → set_pc pcs i p i ≡ p
set_pc-here pcs i p = ground (arith, eqb_iff i i)

text_of_pc : Pc → Bytes × Bytes
text_of_pc idle = ([], [])
text_of_pc (waiting line) = ([], [])
text_of_pc (writing line left) = (line, left)

writing_injective :
    {v rest w left : Bytes} → writing v rest ≡ writing w left → (v ≡ w) × (rest ≡ left)
unfolding text_of_pc
writing_injective e = (ap (λ p. (text_of_pc p).0) e, ap (λ p. (text_of_pc p).1) e)

-- A goroutine that writes is the one that holds the mutex.
record Holder (lines : List (Bytes × Bytes)) (l : Logger) (i : ℕ) (line left : Bytes) : Type 0 where
  before : Bytes
  part : Bytes
  held : l.locked ≡ true
  one : (j : ℕ) (line' left' : Bytes) → l.pcs j ≡ writing line' left' → i ≡ j
  written : Written lines before
  out : l.out ≡ before ++ part
  whole : part ++ left ≡ line

holder :
    {lines : List (Bytes × Bytes)} {l : Logger} (i : ℕ) (line left : Bytes)
    → l.pcs i ≡ writing line left
    → Inv lines l
    → Holder lines l i line left
holder i w left here (quiet free none_writes out) = absurd (none_writes i w left here)
holder {lines} {l} i w left here (busy k v rest before part held there one written out whole) =
    let same : k ≡ i = one i w left here in
    let (vw, rl) = writing_injective (sym there ∙ ap l.pcs same ∙ here) in
    record {
      before = before;
      part = part;
      held = held;
      one = λ j line' left' h. sym same ∙ one j line' left' h;
      written = written;
      out = out;
      whole = ap (λ x. part ++ x) (sym rl) ∙ whole ∙ vw;
    }

-- A goroutine that neither wrote nor writes.
pc_kept :
    {lines : List (Bytes × Bytes)} {l : Logger} (i : ℕ) (p : Pc)
    → ((w left : Bytes) → p ≢ writing w left)
    → ((w left : Bytes) → l.pcs i ≢ writing w left)
    → Inv lines l
    → Inv lines (record l { pcs = set_pc l.pcs i p })
pc_kept {lines} {l} i p next now (quiet free none_writes out) =
    quiet free (λ j w left h. none_writes j w left (wrote l.pcs i j p w left (next w left) h)) out
pc_kept {lines} {l} i p next now (busy k w left before part held here one written out whole) =
    busy k w left before part held
      (elim (Bool-cases (eqb i k)) [
        | inl same ↦ absurd (now w left (ap l.pcs ((eqb_iff i k).0 same) ∙ here))
        | inr other ↦ ap (λ (b : Bool). if b then p else l.pcs k) other ∙ here
      ])
      (λ j w' left' h. one j w' left' (wrote l.pcs i j p w' left' (next w' left') h)) written out
      whole

-- No goroutine writes while the mutex is free.
none_write :
    {lines : List (Bytes × Bytes)} {l : Logger}
    → l.locked ≡ false
    → Inv lines l
    → ((j : ℕ) (w left : Bytes) → l.pcs j ≢ writing w left) × Written lines l.out
none_write free (quiet _ none_writes out) = (none_writes, out)
none_write free (busy k w left before part held here one written out whole) = absurd (ground arith)

-- The goroutine that moves to writing is the only one.
alone :
    (pcs : ℕ → Pc) (i : ℕ) (p : Pc)
    → ((j : ℕ) (w left : Bytes) → pcs j ≡ writing w left → i ≡ j)
    → (j : ℕ) (w left : Bytes) → set_pc pcs i p j ≡ writing w left
    → i ≡ j
alone pcs i p one j w left h = elim (Bool-cases (eqb i j)) [
  | inl same ↦ (eqb_iff i j).0 same
  | inr other ↦ one j w left (ap (λ (b : Bool). if b then p else pcs j) (sym other) ∙ h)
]

idle-ne-writing : {line left : Bytes} → idle ≡ writing line left → ⊥
idle-ne-writing e = cc

-- The one goroutine that wrote has stopped.
none_left :
    (pcs : ℕ → Pc) (i : ℕ)
    → ((j : ℕ) (w left : Bytes) → pcs j ≡ writing w left → i ≡ j)
    → (j : ℕ) (w left : Bytes) → set_pc pcs i idle j ≢ writing w left
none_left pcs i one j w left h =
    let same : i ≡ j = one j w left (wrote pcs i j idle w left idle-ne-writing h) in
    idle-ne-writing (ap (λ (b : Bool). if b then idle else pcs j) (sym ((eqb_iff i j).1 same)) ∙ h)

Reach-Inv : {lines : List (Bytes × Bytes)} {l : Logger} → Reach lines l → Inv lines l
Reach-Inv fresh = quiet refl (λ j w left. cc) nothing
Reach-Inv (call_log i line r here) =
    pc_kept i (waiting line) (λ w left. cc) (λ w left e. idle-ne-writing (sym here ∙ e))
      (Reach-Inv r)
Reach-Inv (lock {l} i line r here free) =
    let (none_writes, out) = none_write free (Reach-Inv r) in
    busy i line line l.out [] refl (set_pc-here l.pcs i (writing line line))
      (alone l.pcs i (writing line line) (λ j w left h. absurd (none_writes j w left h))) out
      (sym (append-nil _)) refl
Reach-Inv (write_byte {l} i c line left r here) =
    let h = holder i line (c ∷ left) here (Reach-Inv r) in
    busy i line left h.before (h.part ++ c ∷ []) h.held (set_pc-here l.pcs i (writing line left))
      (alone l.pcs i (writing line left) h.one) h.written
      (ap (λ x. x ++ c ∷ []) h.out ∙ append_assoc h.before h.part (c ∷ []))
      (append_assoc h.part (c ∷ []) left ∙ h.whole)
Reach-Inv (unlock {returned} {l} i line left r here) =
    let h = holder i line left here (Reach-Inv r) in
    quiet refl (none_left l.pcs i h.one)
      (subst (Written ((line, left) ∷ returned)) (sym h.out) (more h.part h.written h.whole))

-- In every state that the goroutines of the program reach in any order, what the writer has got is
-- the lines of the calls that have returned, in the order of their return and each without the end
-- that the writer did not take, and, while the mutex is locked, the first part of one more line: the
-- texts of two calls never mix.
pub log_in_order :
    {returned : List (Bytes × Bytes)} {l : Logger}
    → Reach returned l
    → ((l.locked ≡ false) × Written returned l.out)
      ⊎ ((i : ℕ) × (line : Bytes) × (left : Bytes) × (before : Bytes) × (part : Bytes) × (l.locked
            ≡ true)
          × (l.pcs i ≡ writing line left)
          × Written returned before
          × (l.out ≡ before ++ part)
          × (part ++ left ≡ line))
log_in_order r = elim (Reach-Inv r) [
  | quiet free none_writes out ↦ inl (free, out)
  | busy i line left before part held here one written out whole ↦
      inr (i, line, left, before, part, held, here, written, out, whole)
]
