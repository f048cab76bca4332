-- ===== src/Text/Laws.antt =====
-- Laws of the functions on strings.
use mathlib.Core.Option
use lfs_server_go.Prelude.{
  ℕ, zero, suc, ◌≡◌, refl, ◌≢◌, ◌↔◌, inl, inr, true, some, [], ◌∷◌, ◌++◌, length, take, drop, arith,
  eqb, Bool-cases, drop-length-append, All,
}
use lfs_server_go.Text.{Bytes, ◌==◌, has_prefix, trim_prefix, index_byte}

pub eq_refl : (s : Bytes) → (s == s) ≡ true
unfolding ◌==◌
eq_refl [] = refl
eq_refl (c ∷ s) = ground (arith, eq_refl s)

eq_sound : (s t : Bytes) → (s == t) ≡ true → s ≡ t
unfolding ◌==◌
eq_sound [] [] h = refl
eq_sound [] (y ∷ ys) h = cc
eq_sound (x ∷ xs) [] h = cc
eq_sound (x ∷ xs) (y ∷ ys) h = ground (arith, eq_sound xs ys)

-- The test decides equality.
pub eq_iff : (s t : Bytes) → ((s == t) ≡ true) ↔ (s ≡ t)
eq_iff s t = (eq_sound s t, λ e. subst_eq e)
  where
    subst_eq : s ≡ t → (s == t) ≡ true
    subst_eq e = rw e (eq_refl t)

pub has_prefix-append : (p s : Bytes) → has_prefix (p ++ s) p ≡ true
unfolding has_prefix
has_prefix-append [] s = refl
has_prefix-append (c ∷ p) s = ground (arith, has_prefix-append p s)

-- Trimming a prefix that is there leaves the rest.
pub trim_prefix-append : (p s : Bytes) → trim_prefix (p ++ s) p ≡ s
unfolding trim_prefix
trim_prefix-append p s = rw has_prefix-append (drop-length-append p s)

append-drop_prefix : (p s : Bytes) → has_prefix s p ≡ true → p ++ drop (length p) s ≡ s
unfolding has_prefix
append-drop_prefix [] s h = refl
append-drop_prefix (d ∷ p) [] h = cc
append-drop_prefix (d ∷ p) (c ∷ s) h = ground (arith, append-drop_prefix p s)

pub append-trim_prefix : (p s : Bytes) → has_prefix s p ≡ true → p ++ trim_prefix s p ≡ s
unfolding trim_prefix
append-trim_prefix p s h = rw h (append-drop_prefix p s h)

-- No byte of the string is `b`.
abbrev pub Lacks : ℕ → Bytes → Type 0
Lacks b = All (λ c. c ≢ b)

-- The first `b` stands behind a prefix that lacks it.
pub index_byte-append :
    (b : ℕ) (s t : Bytes) → Lacks b s → index_byte (s ++ b ∷ t) b ≡ some (length s)
unfolding index_byte
index_byte-append b [] t h = ground arith
index_byte-append b (c ∷ s) t h = ground (arith, index_byte-append b s t h.1)

-- What stands around the first `b`.
pub index_byte-split :
    (b : ℕ) (s : Bytes) (i : ℕ)
    → index_byte s b ≡ some i
    → (take i s ++ b ∷ drop (suc i) s ≡ s) × Lacks b (take i s)
unfolding index_byte
index_byte-split b [] i h = cc
index_byte-split b (c ∷ s) i h = elim (Bool-cases (eqb c b)) [
  | inl here ↦ let e : zero ≡ i = ground arith in rw (← e) (ground arith, tt)
  | inr later ↦
      let (j, found, same) = (Option.map-eq-some_iff _ _).0 (rw later at h) in
      let ih = index_byte-split b s j found in
      rw (← same) (ground (arith, ih.0), (ground arith, ih.1))
]
