-- ===== src/MetaStore/Listing.antt =====
-- Users, Objects and Projects of meta_store.go: the lists that the management pages show.
use mathlib.Core.List.{Memᴰ}
use mathlib.Core.List.Memᴰ
use lfs_server_go.Prelude.{◌≡◌, refl, sym, ◌∙◌, ap, ◌↔◌, inl, inr, some, List, [], ◌∷◌, map, arith}
use lfs_server_go.Text.{Bytes}
use lfs_server_go.Errors.{Result, ok, err, Error}
use lfs_server_go.Types.{MetaObject, MetaUser}
use lfs_server_go.Bolt.{users, objects, IsBolt}
use lfs_server_go.MetaStore.{Env, user_named, all_users, decoded, all_objects}
use lfs_server_go.MetaStore.Transactions.{Result-cases}
use lfs_server_go.MetaStore.Objects.{view, find_object_cases}
use lfs_server_go.MetaStore.Invariant.{IsSound}

-- Where every pair decodes, none is left out and the order is kept.
module _ {ℓ} {A : Type ℓ} (dec : Bytes → Result A) where
  decoded-cons :
      (j w : Bytes) (l : List (Bytes × Bytes)) (x : A)
      → dec w ≡ ok x
      → decoded dec ((j, w) ∷ l) ≡ x ∷ decoded dec l
  unfolding decoded
  decoded-cons j w l x good = ground arith

  decoded-nil : decoded dec [] ≡ []
  unfolding decoded
  decoded-nil = refl

  decoded-stop :
      (j w : Bytes) (l : List (Bytes × Bytes)) (e : Error)
      → dec w ≡ err e
      → decoded dec ((j, w) ∷ l) ≡ []
  unfolding decoded
  decoded-stop j w l e bad = ground arith

  decoded-mem :
      (l : List (Bytes × Bytes)) (k v : Bytes) (a : A)
      → ((j w : Bytes) → Memᴰ (j, w) l → (x : A) × (dec w ≡ ok x))
      → Memᴰ (k, v) l
      → dec v ≡ ok a
      → Memᴰ a (decoded dec l)
  decoded-mem [] k v a all m d = absurd (Memᴰ.not-nil m)
  decoded-mem ((j, w) ∷ l) k v a all (Memᴰ.head e) d =
      let good : dec w ≡ ok a = rw (← ap (λ (p : Bytes × Bytes). p.1) e) d in
      rw (decoded-cons j w l a good) (Memᴰ.head refl)
  decoded-mem ((j, w) ∷ l) k v a all (Memᴰ.tail m) d =
      let (x, good) = all j w (Memᴰ.head refl) in
      rw (decoded-cons j w l x good)
        (Memᴰ.tail (decoded-mem l k v a (λ i u n. all i u (Memᴰ.tail n)) m d))

  mem-decoded :
      (l : List (Bytes × Bytes)) (a : A)
      → Memᴰ a (decoded dec l)
      → (k : Bytes) × (v : Bytes) × Memᴰ (k, v) l × (dec v ≡ ok a)
  mem-decoded [] a m = absurd (Memᴰ.not-nil (rw decoded-nil at m))
  mem-decoded ((j, w) ∷ l) a m = elim (Result-cases (dec w)) [
    | inr (e, bad) ↦ absurd (Memᴰ.not-nil (rw (decoded-stop j w l e bad) at m))
    | inl (x, good) ↦ elim (Memᴰ.cases_cons (rw (decoded-cons j w l x good) at m)) [
      | inl here ↦ (j, w, Memᴰ.head refl, good ∙ ap ok (sym here))
      | inr later ↦ let (k, v, n, d) = mem-decoded l a later in (k, v, Memᴰ.tail n, d)
    ]
  ]

module _ {DB Conn : Type 0} (env : Env DB Conn) where
  open env use {bolt, gob}

  module _ (lawful : IsBolt bolt) where
    listed_users :
        (db : DB) (us : List MetaUser)
        → all_users env db ≡ ok us
        → map user_named (bolt.entries db users) ≡ us
    unfolding all_users
    listed_users db us e = ground arith

    -- Where Users returns a list, a name is in it exactly when the bucket has a hash for it.
    mem-all_users :
        (db : DB) (us : List MetaUser) (name : Bytes)
        → all_users env db ≡ ok us
        → Memᴰ (user_named (name, [])) us ↔ ((h : Bytes) × (bolt.get db users name ≡ some h))
    mem-all_users db us name e = rw (← listed_users db us e) (to, from)
      where
        to :
            Memᴰ (user_named (name, [])) (map user_named (bolt.entries db users))
            → (h : Bytes) × (bolt.get db users name ≡ some h)
        to m =
            let (p, listed, same_user) = Memᴰ.of_map user_named (bolt.entries db users) m in
            let same_name : p.0 ≡ name = ap (λ (u : MetaUser). u.name) same_user in
            (p.1, rw (← same_name) ((lawful.entries_get db users p.0 p.1).0 listed))

        from :
            ((h : Bytes) × (bolt.get db users name ≡ some h))
            → Memᴰ (user_named (name, [])) (map user_named (bolt.entries db users))
        from (h, there) = Memᴰ.map user_named ((lawful.entries_get db users name h).1 there)

    -- In a sound database Objects returns a list, with an object in it exactly when it can be seen
    -- under its oid.
    pub mem-all_objects :
        (db : DB) (m : MetaObject)
        → IsSound env db
        → (ms : List MetaObject) × (all_objects env db ≡ ok ms)
          × (Memᴰ m ms ↔ (view env m.oid db ≡ some m))
    unfolding all_objects view
    mem-all_objects db m s = (
      decoded gob.decode_object (bolt.entries db objects),
      ground (arith, s.buckets objects),
      (to, from),
    )
      where
        decodes :
            (j w : Bytes)
            → Memᴰ (j, w) (bolt.entries db objects)
            → (x : MetaObject) × (gob.decode_object w ≡ ok x)
        decodes j w n =
            let o = s.object_at j w ((lawful.entries_get db objects j w).0 n) in
            (o.object, o.decodes)

        to :
            Memᴰ m (decoded gob.decode_object (bolt.entries db objects))
            → view env m.oid db ≡ some m
        to n =
            let (k, v, listed, d) = mem-decoded gob.decode_object (bolt.entries db objects) m n in
            let there : bolt.get db objects k ≡ some v =
              (lawful.entries_get db objects k v).0 listed in
            let o = s.object_at k v there in
            let at_oid : m.oid ≡ k = ground (arith, o.decodes, o.keyed) in
            let stored : bolt.get db objects m.oid ≡ some v = rw at_oid there in
            elim (find_object_cases env m.oid db s) [
              | inl (missing, _) ↦ absurd (ground arith)
              | inr (v', o', there', found) ↦ ground (arith, o'.decodes)
            ]

        from :
            view env m.oid db ≡ some m
            → Memᴰ m (decoded gob.decode_object (bolt.entries db objects))
        from h = elim (find_object_cases env m.oid db s) [
          | inl (_, missing) ↦ absurd (ground arith)
          | inr (v, o, there, found) ↦
              decoded-mem gob.decode_object (bolt.entries db objects) m.oid v m decodes
                ((lawful.entries_get db objects m.oid v).1 there) (ground (arith, o.decodes))
        ]
