-- ===== src/Examples/Pairs.antt =====
-- Lists of pairs, the last written first, and the pairs that a lookup finds in them.
use mathlib.Core.Path.{ap₂}
use mathlib.Core.List.{Memᴰ}
use mathlib.Core.List.Memᴰ
use lfs_server_go.Prelude.{
  ◌≡◌, refl, ap, ◌↔◌, inl, inr, Option, none, some, List, [], ◌∷◌, arith, if◌then◌else◌, Bool-cases,
  ◌∙◌, sym, ◌++◌,
}
use lfs_server_go.Text.{Bytes, ◌==◌}
use lfs_server_go.Text.Laws.{eq_iff, eq_refl}

abbrev pub Pairs : Type 0
Pairs = List (Bytes × Bytes)

-- The value of the first pair of a key.
unfoldable pub lookup : Bytes → Pairs → Option Bytes
lookup key [] = none
lookup key ((name, value) ∷ later) =
    let found = lookup key later in if name == key then some value else found

-- The pairs of the other keys.
unfoldable pub without : Bytes → Pairs → Pairs
without gone [] = []
without gone ((name, value) ∷ later) =
    (if name == gone then [] else (name, value) ∷ []) ++ without gone later

-- Each key once, with the pair that `lookup` finds.
unfoldable pub distinct : Pairs → Pairs
unfolding without
distinct [] = []
distinct ((k, v) ∷ l) = (k, v) ∷ without k (distinct l)

pub lookup-without :
    (gone key : Bytes) (pairs : Pairs)
    → lookup key (without gone pairs) ≡ (if gone == key then none else lookup key pairs)
unfolding lookup without
lookup-without gone key [] = ground arith
lookup-without gone key ((name, value) ∷ later) =
    let ih = lookup-without gone key later in
    ground (arith, eq_iff name gone, eq_iff name key, eq_iff gone key)

lookup-distinct : (k : Bytes) (l : Pairs) → lookup k (distinct l) ≡ lookup k l
unfolding lookup distinct
lookup-distinct k [] = refl
lookup-distinct k ((j, v) ∷ l) =
    ground (arith, lookup-without j k (distinct l), lookup-distinct k l)

-- No key twice.
data Once : Pairs → Type 0 where
  nil : Once []
  cons : {k v : Bytes} {l : Pairs} → lookup k l ≡ none → Once l → Once ((k, v) ∷ l)

Once-without : (k : Bytes) {l : Pairs} → Once l → Once (without k l)
unfolding without
Once-without k nil = nil
Once-without k (cons {k = j} {v} {l} new o) = elim (Bool-cases (j == k)) [
  | inl dropped ↦ rw dropped (Once-without k o)
  | inr other ↦
      rw other
        (cons (lookup-without k j l ∙ ground (arith, eq_iff k j, eq_iff j k)) (Once-without k o))
]

Once-distinct : (l : Pairs) → Once (distinct l)
unfolding distinct
Once-distinct [] = nil
Once-distinct ((k, v) ∷ l) =
    cons (lookup-without k k (distinct l) ∙ rw (eq_refl k) refl) (Once-without k (Once-distinct l))

-- The pair at the head, and the pairs behind it.
mem-cons_to :
    (k v j w : Bytes) (l : Pairs)
    → lookup j l ≡ none
    → (Memᴰ (k, v) l → lookup k l ≡ some v)
    → Memᴰ (k, v) ((j, w) ∷ l)
    → lookup k ((j, w) ∷ l) ≡ some v
unfolding lookup
mem-cons_to k v j w l new ih m = elim (Memᴰ.cases_cons m) [
  | inl here ↦
      let at_key : k ≡ j = ap (λ (p : Bytes × Bytes). p.0) here in
      let is_value : v ≡ w = ap (λ (p : Bytes × Bytes). p.1) here in ground (arith, eq_iff j k)
  | inr later ↦ let found = ih later in ground (arith, eq_iff j k)
]

mem-cons_from :
    (k v j w : Bytes) (l : Pairs)
    → (lookup k l ≡ some v → Memᴰ (k, v) l)
    → lookup k ((j, w) ∷ l) ≡ some v
    → Memᴰ (k, v) ((j, w) ∷ l)
unfolding lookup
mem-cons_from k v j w l ih h = elim (Bool-cases (j == k)) [
  | inl here ↦
      let at_key : j ≡ k = (eq_iff j k).0 here in
      let is_value : w ≡ v = ground arith in
      Memᴰ.head (ap₂ (λ a b. (a, b)) (sym at_key) (sym is_value))
  | inr other ↦ Memᴰ.tail (ih (ground arith))
]

mem-lookup : (k v : Bytes) {l : Pairs} → Once l → Memᴰ (k, v) l ↔ (lookup k l ≡ some v)
mem-lookup k v nil = (λ m. absurd (Memᴰ.not-nil m), λ h. absurd (unfold lookup in ground arith))
mem-lookup k v (cons {k = j} {v = w} {l} new o) =
    (mem-cons_to k v j w l new (mem-lookup k v o).0, mem-cons_from k v j w l (mem-lookup k v o).1)

pub entries_get : (k v : Bytes) (l : Pairs) → Memᴰ (k, v) (distinct l) ↔ (lookup k l ≡ some v)
entries_get k v l =
    let (to, from) = mem-lookup k v (Once-distinct l) in
    (λ m. sym (lookup-distinct k l) ∙ to m, λ h. from (lookup-distinct k l ∙ h))
