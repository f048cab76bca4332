-- ===== src/FilePath/Laws.antt =====
-- Paths made of parts that need no cleaning.
use mathlib.Core.List.{
  reverse, reverse_aux, reverse_aux-eq, reverse-append, reverse-reverse, append-nil, append_assoc,
}
use lfs_server_go.Prelude.{
  ◌≡◌, refl, ap, ◌∙◌, ◌≢◌, Bool, false, List, [], ◌∷◌, ◌++◌, arith, Bool-cases, inl, inr, All,
  if◌then◌else◌,
}
use lfs_server_go.Text.{Bytes, ◌==◌}
use lfs_server_go.Text.Laws.{eq_iff, Lacks}
use lfs_server_go.FilePath.{
  slash, dot, dots, split_from, split_slash, join_slash, resolve, resolve_all, is_rooted, render,
  clean, join,
}

-- A name that Clean keeps as it is.
pub record IsPart (p : Bytes) : Type 0 where
  pub not_empty : p ≢ []
  pub not_dot : p ≢ dot
  pub not_dots : p ≢ dots
  pub no_slash : Lacks slash p

pub split_from-slash :
    (part s t : Bytes) → split_from part (s ++ slash ∷ t) ≡ split_from part s ++ split_slash t
unfolding split_from split_slash
split_from-slash part [] t = ground arith
split_from-slash part (c ∷ s) t =
    ground (arith, split_from-slash [] s t, split_from-slash (part ++ c ∷ []) s t)

pub split_from-name : (part s : Bytes) → Lacks slash s → split_from part s ≡ (part ++ s) ∷ []
unfolding split_from
split_from-name part [] h = ground (arith, append-nil part)
split_from-name part (c ∷ s) h =
    ground (arith, split_from-name (part ++ c ∷ []) s h.1, append_assoc part (c ∷ []) s)

-- Splitting undoes joining.
pub split_slash-join_slash :
    (p : Bytes) (ps : List Bytes) → All IsPart (p ∷ ps) → split_slash (join_slash (p ∷ ps)) ≡ p ∷ ps
unfolding join_slash split_slash
split_slash-join_slash p [] h = split_from-name [] p h.0.no_slash
split_slash-join_slash p (q ∷ ps) h =
    split_from-slash [] p (join_slash (q ∷ ps))
    ∙ rw (split_from-name [] p h.0.no_slash) (ap (λ l. p ∷ l) (split_slash-join_slash q ps h.1))

resolve-part :
    (rooted : Bool) (stack : List Bytes) (p : Bytes) → IsPart p → resolve rooted stack p ≡ p ∷ stack
unfolding resolve
resolve-part rooted stack p h =
    ground (arith, eq_iff p [], eq_iff p dot, eq_iff p dots, h.not_empty, h.not_dot, h.not_dots)

pub resolve_all-parts :
    (rooted : Bool) (stack ps : List Bytes)
    → All IsPart ps
    → resolve_all rooted stack ps ≡ reverse_aux ps stack
unfolding resolve_all
resolve_all-parts rooted stack [] h = refl
resolve_all-parts rooted stack (p ∷ ps) h =
    rw (resolve-part rooted stack p h.0) (resolve_all-parts rooted (p ∷ stack) ps h.1)

pub resolve_all-append :
    (rooted : Bool) (stack xs ys : List Bytes)
    → resolve_all rooted stack (xs ++ ys) ≡ resolve_all rooted (resolve_all rooted stack xs) ys
unfolding resolve_all
resolve_all-append rooted stack [] ys = refl
resolve_all-append rooted stack (x ∷ xs) ys =
    resolve_all-append rooted (resolve rooted stack x) xs ys

-- The elements of a cleaned path.
elements : Bytes → List Bytes
elements base = reverse (resolve_all (is_rooted base) [] (split_slash base))

-- Each element with a slash behind it.
between : List Bytes → Bytes
between [] = []
between (x ∷ xs) = x ++ slash ∷ between xs

-- What stands before a path that is joined to a base.
pub root : Bytes → Bytes
unfolding between elements
root base =
    if base == []
    then []
    else if is_rooted base
    then slash ∷ between (elements base)
    else between (elements base)

join_slash-append :
    (xs : List Bytes) (p : Bytes) (ps : List Bytes)
    → join_slash (xs ++ p ∷ ps) ≡ between xs ++ join_slash (p ∷ ps)
unfolding join_slash between
join_slash-append [] p ps = refl
join_slash-append (x ∷ []) p ps = simp append_assoc
join_slash-append (x ∷ y ∷ xs) p ps = rw (join_slash-append (y ∷ xs) p ps) (simp append_assoc)

render-false :
    (xs : List Bytes) (p : Bytes) (ps : List Bytes)
    → render false (xs ++ p ∷ ps) ≡ join_slash (xs ++ p ∷ ps)
unfolding render
render-false [] p ps = refl
render-false (x ∷ xs) p ps = refl

split_slash-append : (s t : Bytes) → split_slash (s ++ slash ∷ t) ≡ split_slash s ++ split_slash t
unfolding split_slash
split_slash-append s t = split_from-slash [] s t

reverse-onto : (xs stack : List Bytes) → reverse (reverse_aux xs stack) ≡ reverse stack ++ xs
reverse-onto xs stack =
    ap reverse (reverse_aux-eq xs stack)
    ∙ reverse-append (reverse xs) stack
    ∙ ap (λ l. reverse stack ++ l) (reverse-reverse xs)

elements-join :
    (rooted : Bool) (base p : Bytes) (ps : List Bytes)
    → All IsPart (p ∷ ps)
    → reverse (resolve_all rooted [] (split_slash (base ++ slash ∷ join_slash (p ∷ ps))))
      ≡ reverse (resolve_all rooted [] (split_slash base)) ++ p ∷ ps
elements-join rooted base p ps parts =
    rw (split_slash-append, split_slash-join_slash p ps parts)
      (rw resolve_all-append (
        rw (resolve_all-parts rooted (resolve_all rooted [] (split_slash base)) (p ∷ ps) parts)
          (reverse-onto (p ∷ ps) (resolve_all rooted [] (split_slash base)))))

elements_alone :
    (rooted : Bool) (p : Bytes) (ps : List Bytes)
    → All IsPart (p ∷ ps)
    → reverse (resolve_all rooted [] (split_slash (join_slash (p ∷ ps)))) ≡ p ∷ ps
elements_alone rooted p ps parts =
    rw (split_slash-join_slash p ps parts)
      (rw (resolve_all-parts rooted [] (p ∷ ps) parts) (reverse-reverse (p ∷ ps)))

is_rooted-append : (s t : Bytes) → s ≢ [] → is_rooted (s ++ t) ≡ is_rooted s
unfolding is_rooted
is_rooted-append [] t h = absurd (h refl)
is_rooted-append (c ∷ s) t h = refl

clean-join :
    (base p : Bytes) (ps : List Bytes)
    → base ≢ []
    → All IsPart (p ∷ ps)
    → clean (base ++ slash ∷ join_slash (p ∷ ps))
      ≡ (if is_rooted base then slash ∷ between (elements base) else between (elements base))
        ++ join_slash (p ∷ ps)
unfolding clean elements
clean-join base p ps given parts = rw (is_rooted-append base _ given) (
    rw (elements-join (is_rooted base) base p ps parts) (elim (Bool-cases (is_rooted base)) [
      | inl rooted ↦ rw rooted (unfold render in ap (λ l. slash ∷ l) (join_slash-append _ p ps))
      | inr plain ↦ rw plain (render-false _ p ps ∙ join_slash-append _ p ps)
    ]))

-- A joined path of parts begins with a byte that is no slash.
begins :
    (p : Bytes) (ps : List Bytes)
    → IsPart p
    → (join_slash (p ∷ ps) ≢ []) × (is_rooted (join_slash (p ∷ ps)) ≡ false)
unfolding join_slash is_rooted
begins [] ps h = absurd (h.not_empty refl)
begins (c ∷ p) [] h = (λ e. ground arith, let n = h.no_slash.0 in ground arith)
begins (c ∷ p) (q ∷ ps) h = (λ e. ground arith, let n = h.no_slash.0 in ground arith)

clean_alone :
    (p : Bytes) (ps : List Bytes)
    → All IsPart (p ∷ ps)
    → clean (join_slash (p ∷ ps)) ≡ join_slash (p ∷ ps)
unfolding clean
clean_alone p ps parts =
    rw (begins p ps parts.0).1 (rw (elements_alone false p ps parts) (unfold render in refl))

-- Parts that Clean keeps, joined to any base, stand behind what the base alone decides.
pub join_two :
    (base p : Bytes) (ps : List Bytes)
    → All IsPart (p ∷ ps)
    → join (base ∷ join_slash (p ∷ ps) ∷ []) ≡ root base ++ join_slash (p ∷ ps)
unfolding join join_slash root
join_two base p ps parts = elim (Bool-cases (base == [])) [
  | inl empty ↦
      let some_path = (begins p ps parts.0).0 in
      ground (arith, clean_alone p ps parts, eq_iff (join_slash (p ∷ ps)) [])
  | inr given ↦ rw given (clean-join base p ps (λ e. absurd (ground (arith, eq_iff base []))) parts)
]

-- Parts that Clean keeps, joined alone.
pub join_parts :
    (p : Bytes) (ps : List Bytes) → All IsPart (p ∷ ps) → join (p ∷ ps) ≡ join_slash (p ∷ ps)
unfolding join
join_parts p ps parts = ground (arith, clean_alone p ps parts, eq_iff p [], parts.0.not_empty)
