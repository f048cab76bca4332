-- ===== src/Server/Matching.antt =====
-- Which requests ContentMatcher and MetaMatcher of server.go let through.
use lfs_server_go.Prelude.{
  ◌≡◌, refl, ap, ◌∙◌, ◌↔◌, ◌⊎◌, inl, inr, Bool, true, false, ◌&&◌, [], ◌∷◌, ◌++◌, arith, Bool-cases,
  eqb, eqb_iff, ℕ, if◌then◌else◌,
}
use lfs_server_go.Text.{Bytes, ◌==◌, before}
use lfs_server_go.Text.Laws.{eq_iff, eq_refl, Lacks}
use lfs_server_go.Server.{
  Request, first_line, media_type, content_media_type, meta_media_type, content_matcher,
  meta_matcher,
}

-- A media type, alone or with parameters behind a semicolon.
abbrev pub IsMedia : Bytes → Bytes → Type 0
IsMedia type line = (line ≡ type) ⊎ ((parameters : Bytes) × (line ≡ type ++ b';' ∷ parameters))

before_sound :
    (b : ℕ) (s t : Bytes) → before s b ≡ t → (s ≡ t) ⊎ ((rest : Bytes) × (s ≡ t ++ b ∷ rest))
unfolding before
before_sound b [] t h = inl h
before_sound b (c ∷ s) t h = elim (Bool-cases (eqb c b)) [
  | inl here ↦
      let none_before : [] ≡ t = ground arith in
      inr (s, rw (← none_before) (ap (λ x. x ∷ s) ((eqb_iff c b).0 here)))
  | inr later ↦
      let starts : c ∷ before s b ≡ t = ground arith in
      elim (before_sound b s (before s b) refl) [
        | inl whole ↦ inl (ap (λ x. c ∷ x) whole ∙ starts)
        | inr (rest, cut) ↦ inr (rest, ap (λ x. c ∷ x) cut ∙ ap (λ x. x ++ b ∷ rest) starts)
      ]
]

before_complete : (b : ℕ) (s : Bytes) → Lacks b s → before s b ≡ s
unfolding before
before_complete b [] h = refl
before_complete b (c ∷ s) h = ground (arith, before_complete b s h.1)

before-append : (b : ℕ) (s rest : Bytes) → Lacks b s → before (s ++ b ∷ rest) b ≡ s
unfolding before
before-append b [] rest h = ground arith
before-append b (c ∷ s) rest h = ground (arith, before-append b s rest h.1)

media_type_iff :
    (r : Request) (type : Bytes)
    → Lacks b';' type
    → ((media_type r == type) ≡ true) ↔ IsMedia type (first_line r.accept)
unfolding media_type
media_type_iff r type lacks = (
  λ h.
      before_sound b';' (first_line r.accept) type
        ((eq_iff (before (first_line r.accept) b';') type).0 h),
  λ m. (eq_iff (before (first_line r.accept) b';') type).1 (elim m [
    | inl alone ↦ ap (λ l. before l b';') alone ∙ before_complete b';' type lacks
    | inr (parameters, cut) ↦ ap (λ l. before l b';') cut ∙ before-append b';' type parameters lacks
  ]),
)

-- The test for `Lacks`.
abbrev lacks : ℕ → Bytes → Bool
lacks b [] = true
lacks b (c ∷ s) = let rest = lacks b s in if eqb c b then false else rest

lacks-Lacks : (b : ℕ) (s : Bytes) → lacks b s ≡ true → Lacks b s
lacks-Lacks b [] h = tt
lacks-Lacks b (c ∷ s) h = (λ e. ground (arith, eqb_iff c b), lacks-Lacks b s (ground arith))

types_differ : content_media_type == meta_media_type ≡ false
unfolding ◌==◌
types_differ = refl

matchers_disjoint : (r : Request) → (content_matcher r && meta_matcher r) ≡ false
unfolding content_matcher meta_matcher
matchers_disjoint r = elim (Bool-cases (media_type r == content_media_type)) [
  | inr other ↦ rw other refl
  | inl here ↦
      rw ((eq_iff (media_type r) content_media_type).0 here) (rw types_differ (rw eq_refl refl))
]

-- `ContentMatcher` lets a request through exactly when the first line of its Accept header is the
-- content type of LFS, alone or with parameters behind a semicolon; `MetaMatcher` does so with the
-- metadata type; and no request passes both.
pub matchers_iff :
    (r : Request)
    → ((content_matcher r ≡ true) ↔ IsMedia content_media_type (first_line r.accept))
      × ((meta_matcher r ≡ true) ↔ IsMedia meta_media_type (first_line r.accept))
      × ((content_matcher r && meta_matcher r) ≡ false)
unfolding content_matcher meta_matcher
matchers_iff r = (
  media_type_iff r content_media_type (lacks-Lacks b';' content_media_type refl),
  media_type_iff r meta_media_type (lacks-Lacks b';' meta_media_type refl),
  matchers_disjoint r,
)
