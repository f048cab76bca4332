-- ===== src/TransformKey/Laws.antt =====
-- Distinct oids have distinct paths.
use mathlib.Core.Path.{subst}
use lfs_server_go.Prelude.{
  ℕ, ◌<◌, ◌≡◌, refl, sym, ap, ◌∙◌, ◌≢◌, List, [], ◌∷◌, ◌++◌, length, if◌then◌else◌, All, arith, eqb,
}
use lfs_server_go.Text.{Bytes, lit}
use lfs_server_go.Text.Laws.{Lacks}
use lfs_server_go.FilePath.{slash, join, join_slash}
use lfs_server_go.FilePath.Laws.{IsPart, root, join_two, join_parts}
use lfs_server_go.TransformKey.{transform_key}

abbrev period : ℕ
period = b'.'

-- An oid without slashes and periods, as a hexadecimal one is.
abbrev pub IsPlain : Bytes → Type 0
IsPlain = All (λ c. (c ≢ slash) × (c ≢ period))

-- The oid of a path: the path without its slashes.
without_slash : Bytes → Bytes
without_slash [] = []
without_slash (c ∷ s) = let rest = without_slash s in if eqb c slash then rest else c ∷ rest

without_slash-append : (s t : Bytes) → without_slash (s ++ t) ≡ without_slash s ++ without_slash t
unfolding without_slash
without_slash-append [] t = refl
without_slash-append (c ∷ s) t = ground (arith, without_slash-append s t)

without_slash-plain : (s : Bytes) → IsPlain s → without_slash s ≡ s
unfolding without_slash
without_slash-plain [] h = refl
without_slash-plain (c ∷ s) h = ground (arith, without_slash-plain s h.1)

plain-IsPart : (c : ℕ) (s : Bytes) → IsPlain (c ∷ s) → IsPart (c ∷ s)
plain-IsPart c s h = record {
  not_empty = λ e. ground arith;
  not_dot = λ e. ground arith;
  not_dots = λ e. ground arith;
  no_slash = lacks (c ∷ s) h;
}
  where
    lacks : (t : Bytes) → IsPlain t → Lacks slash t
    lacks [] k = tt
    lacks (d ∷ t) k = (k.0.0, lacks t k.1)

-- The names of the directories and the file of an oid.
record HasParts (k : Bytes) : Type 0 where
  first : Bytes
  others : List Bytes
  are_parts : All IsPart (first ∷ others)
  is_path : transform_key k ≡ join_slash (first ∷ others)

long_parts :
    (a b c d e : ℕ) (s : Bytes)
    → IsPlain (a ∷ b ∷ c ∷ d ∷ e ∷ s)
    → All IsPart ((a ∷ b ∷ []) ∷ (c ∷ d ∷ []) ∷ (e ∷ s) ∷ [])
long_parts a b c d e s (ha, (hb, (hc, (hd, (he, hs))))) = (
  plain-IsPart a (b ∷ []) (ha, (hb, tt)),
  (plain-IsPart c (d ∷ []) (hc, (hd, tt)), (plain-IsPart e s (he, hs), tt)),
)

-- The path of a plain oid of five bytes or more: two bytes, two bytes, and the rest.
transform_key-long :
    (a b c d e : ℕ) (s : Bytes)
    → IsPlain (a ∷ b ∷ c ∷ d ∷ e ∷ s)
    → transform_key (a ∷ b ∷ c ∷ d ∷ e ∷ s) ≡ a ∷ b ∷ slash ∷ c ∷ d ∷ slash ∷ e ∷ s
unfolding transform_key join_slash
transform_key-long a b c d e s h =
    if_long ∙ join_parts (a ∷ b ∷ []) ((c ∷ d ∷ []) ∷ (e ∷ s) ∷ []) (long_parts a b c d e s h)
  where
    if_long :
        transform_key (a ∷ b ∷ c ∷ d ∷ e ∷ s) ≡ join ((a ∷ b ∷ []) ∷ (c ∷ d ∷ []) ∷ (e ∷ s) ∷ [])
    if_long = ground arith

long-HasParts :
    (a b c d e : ℕ) (s : Bytes) → IsPlain (a ∷ b ∷ c ∷ d ∷ e ∷ s) → HasParts (a ∷ b ∷ c ∷ d ∷ e ∷ s)
unfolding join_slash
long-HasParts a b c d e s h = record {
  first = a ∷ b ∷ [];
  others = (c ∷ d ∷ []) ∷ (e ∷ s) ∷ [];
  are_parts = long_parts a b c d e s h;
  is_path = transform_key-long a b c d e s h;
}

transform_key-short : (c : ℕ) (s : Bytes) → length (c ∷ s) < 5 → IsPlain (c ∷ s) → HasParts (c ∷ s)
unfolding transform_key join_slash
transform_key-short c s short h = record {
  first = c ∷ s;
  others = [];
  are_parts = (plain-IsPart c s h, tt);
  is_path = ground arith;
}

plain-HasParts : (k : Bytes) → k ≢ [] → IsPlain k → HasParts k
plain-HasParts [] n h = absurd (n refl)
plain-HasParts (a ∷ b ∷ c ∷ d ∷ e ∷ s) n h = long-HasParts a b c d e s h
plain-HasParts (c ∷ s) n h = transform_key-short c s (omega arith) h

without_slash-long :
    (a b c d e : ℕ) (s : Bytes)
    → IsPlain (a ∷ b ∷ c ∷ d ∷ e ∷ s)
    → without_slash (transform_key (a ∷ b ∷ c ∷ d ∷ e ∷ s)) ≡ a ∷ b ∷ c ∷ d ∷ e ∷ s
unfolding without_slash
without_slash-long a b c d e s h =
    rw (transform_key-long a b c d e s h)
      (let rest = h.1.1.1.1.1 in ground (arith, without_slash-plain s rest))

-- Removing the slashes from the path of a plain oid gives the oid back.
without_slash-transform_key : (k : Bytes) → IsPlain k → without_slash (transform_key k) ≡ k
unfolding transform_key
without_slash-transform_key (a ∷ b ∷ c ∷ d ∷ e ∷ s) h = without_slash-long a b c d e s h
without_slash-transform_key [] h = without_slash-plain [] h
without_slash-transform_key k h = without_slash-plain k h

-- Two oids without slashes and periods that have the same path are the same.
pub transform_key_injective :
    (j k : Bytes) → IsPlain j → IsPlain k → transform_key j ≡ transform_key k → j ≡ k
transform_key_injective j k hj hk e =
    sym (without_slash-transform_key j hj) ∙ ap without_slash e ∙ without_slash-transform_key k hk

-- The path of an oid in the store: what the root decides, and then the path of the oid.
pub join-transform_key :
    (base k : Bytes)
    → k ≢ []
    → IsPlain k
    → join (base ∷ transform_key k ∷ []) ≡ root base ++ transform_key k
join-transform_key base k n h =
    let p = plain-HasParts k n h in rw p.is_path (join_two base p.first p.others p.are_parts)

plain-Lacks : (k : Bytes) → IsPlain k → Lacks period k
plain-Lacks [] h = tt
plain-Lacks (c ∷ k) h = (h.0.1, plain-Lacks k h.1)

transform_key-Lacks : (k : Bytes) → IsPlain k → Lacks period (transform_key k)
unfolding transform_key
transform_key-Lacks (a ∷ b ∷ c ∷ d ∷ e ∷ s) h = rw (transform_key-long a b c d e s h) (
    let rest = plain-Lacks s h.1.1.1.1.1 in
    (
      h.0.1,
      (
        h.1.0.1,
        (λ q. ground arith, (h.1.1.0.1, (h.1.1.1.0.1, (λ q. ground arith, (h.1.1.1.1.0.1, rest))))),
      ),
    ))
transform_key-Lacks [] h = tt
transform_key-Lacks k h = plain-Lacks k h

-- Only a text with a period ends in ".tmp".
not-Lacks : (s : Bytes) → Lacks period (s ++ lit ".tmp") → ⊥
not-Lacks [] h = h.0 refl
not-Lacks (c ∷ s) h = not-Lacks s h.1

-- A path with ".tmp" behind it is the path of no plain oid.
pub tmp-ne-transform_key :
    (j k : Bytes) → IsPlain k → transform_key j ++ lit ".tmp" ≢ transform_key k
tmp-ne-transform_key j k h e =
    not-Lacks (transform_key j) (subst (Lacks period) (sym e) (transform_key-Lacks k h))
