-- ===== src/Examples/Memory.antt =====
-- A database in memory, with what `IsBolt` asks of one.
use lfs_server_go.Prelude.{
  ◌≡◌, refl, ap, inl, inr, Bool, true, false, ◌&&◌, none, some, [], ◌∷◌, arith, length, ltb, leb,
  if◌then◌else◌, Bool-cases, ◌<◌, ◌≤◌, sym,
}
use lfs_server_go.Text.{Bytes, lit, ◌==◌}
use lfs_server_go.Errors.{Error, Result, ok, err, foreign}
use lfs_server_go.Examples.Pairs.{Pairs, lookup, without, distinct, lookup-without, entries_get}
use lfs_server_go.Bolt.{Bucket, users, objects, projects, same, Bolt, IsBolt}

-- The file: which buckets are there, and what was put into them, the last first.
pub record Memory : Type 0 where
  pub has : Bucket → Bool
  pub pairs : Bucket → Pairs

abbrev pub blank : Memory
blank = record { has = λ c. false; pairs = λ c. [] }

set_pairs : Memory → Bucket → Pairs → Memory
set_pairs db c l = record db { pairs = λ d. if same c d then l else db.pairs d }

fits : Bytes → Bytes → Bool
fits k v = ltb 0 (length k) && leb (length k) 32768 && leb (length v) 2147483646

refusal : Error
refusal = foreign (lit "key required, key too large, value too large or no bucket")

put : Memory → Bucket → Bytes → Bytes → Result Memory
unfolding fits set_pairs refusal
put db c k v =
    if db.has c && fits k v then ok (set_pairs db c ((k, v) ∷ db.pairs c)) else err refusal

unfoldable pub create : Memory → Bucket → Result Memory
create db c = ok (record db { has = λ d. if same c d then true else db.has d })

delete : Memory → Bucket → Bytes → Result Memory
unfolding set_pairs without
delete db c k = ok (set_pairs db c (without k (db.pairs c)))

unfoldable pub memory : Bolt Memory
unfolding lookup create put delete distinct
memory = record {
  open_file = λ name. ok blank;
  has_bucket = λ db c. db.has c;
  create_bucket_if_not_exists = create;
  get = λ db c k. lookup k (db.pairs c);
  put = put;
  delete = delete;
  entries = λ db c. distinct (db.pairs c);
  commit = λ db. none;
}

same_refl : (c : Bucket) → same c c ≡ true
same_refl users = refl
same_refl objects = refl
same_refl projects = refl

same_eq : (c d : Bucket) → same c d ≡ true → c ≡ d
same_eq users users h = refl
same_eq objects objects h = refl
same_eq projects projects h = refl
same_eq _ _ h = cc

put-ok :
    (db db' : Memory) (c : Bucket) (k v : Bytes)
    → put db c k v ≡ ok db'
    → set_pairs db c ((k, v) ∷ db.pairs c) ≡ db'
unfolding put
put-ok db db' c k v e = elim (Bool-cases (db.has c && fits k v)) [
  | inl fine ↦ ground arith
  | inr over ↦ absurd (ground arith)
]

lookup-set_pairs :
    (db : Memory) (c d : Bucket) (l : Pairs) (j : Bytes)
    → lookup j ((set_pairs db c l).pairs d)
      ≡ (if same c d then lookup j l else lookup j (db.pairs d))
unfolding set_pairs
lookup-set_pairs db c d l j = elim (Bool-cases (same c d)) [
  | inl here ↦ rw here refl
  | inr other ↦ rw other refl
]

lookup-put :
    (db db' : Memory) (c d : Bucket) (k v j : Bytes)
    → put db c k v ≡ ok db'
    → lookup j (db'.pairs d) ≡ (if same c d && (k == j) then some v else lookup j (db.pairs d))
unfolding lookup
lookup-put db db' c d k v j e = rw (← put-ok db db' c k v e) (
    rw lookup-set_pairs (elim (Bool-cases (same c d)) [
      | inl here ↦ rw (← same_eq c d here) (ground (arith, same_refl c))
      | inr other ↦ ground arith
    ]))

lookup-delete :
    (db db' : Memory) (c d : Bucket) (k j : Bytes)
    → delete db c k ≡ ok db'
    → lookup j (db'.pairs d) ≡ (if same c d && (k == j) then none else lookup j (db.pairs d))
unfolding delete
lookup-delete db db' c d k j e =
    let deleted : set_pairs db c (without k (db.pairs c)) ≡ db' = ground arith in
    rw (← deleted) (
      rw lookup-set_pairs (elim (Bool-cases (same c d)) [
        | inl here ↦
            rw (← same_eq c d here) (ground (arith, same_refl c, lookup-without k j (db.pairs c)))
        | inr other ↦ ground arith
      ]))

has-put :
    (db db' : Memory) (c d : Bucket) (k v : Bytes) → put db c k v ≡ ok db' → db'.has d ≡ db.has d
unfolding set_pairs
has-put db db' c d k v e = ap (λ (m : Memory). m.has d) (sym (put-ok db db' c k v e))

has-delete :
    (db db' : Memory) (c d : Bucket) (k : Bytes) → delete db c k ≡ ok db' → db'.has d ≡ db.has d
unfolding delete
has-delete db db' c d k e =
    let deleted : set_pairs db c (without k (db.pairs c)) ≡ db' = ground arith in
    ap (λ (m : Memory). m.has d) (sym deleted)

has-create :
    (db db' : Memory) (c d : Bucket)
    → create db c ≡ ok db'
    → db'.has d ≡ (if same c d then true else db.has d)
unfolding create
has-create db db' c d e =
    let created : record db { has = λ b. if same c b then true else db.has b } ≡ db' =
      ground arith in
    ap (λ (m : Memory). m.has d) (sym created)

pairs-create : (db db' : Memory) (c d : Bucket) → create db c ≡ ok db' → db'.pairs d ≡ db.pairs d
unfolding create
pairs-create db db' c d e =
    let created : record db { has = λ b. if same c b then true else db.has b } ≡ db' =
      ground arith in
    ap (λ (m : Memory). m.pairs d) (sym created)

put_blank : (db : Memory) (c : Bucket) (v : Bytes) → put db c [] v ≡ err refusal
unfolding put
put_blank db c v = ground arith

put_fits :
    (db : Memory) (c : Bucket) (k v : Bytes)
    → db.has c ≡ true
    → 0 < length k
    → length k ≤ 32768
    → length v ≤ 2147483646
    → (db' : Memory) × (put db c k v ≡ ok db')
unfolding put
put_fits db c k v h a b d = (set_pairs db c ((k, v) ∷ db.pairs c), ground arith)

pub memory-IsBolt : IsBolt memory
unfolding memory
memory-IsBolt = record {
  has-create = has-create;
  get-create = λ db db' c d k e. ap (lookup k) (pairs-create db db' c d e);
  has-put = has-put;
  get-put = lookup-put;
  has-delete = has-delete;
  get-delete = lookup-delete;
  put_blank = λ db c v. (refusal, put_blank db c v);
  put_fits = put_fits;
  entries_get = λ db c k v. entries_get k v (db.pairs c);
}
