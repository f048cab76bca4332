-- ===== src/MetaStore/Objects.antt =====
-- Get and Put of meta_store.go against a map from oids to objects.
pub mod Put
use lfs_server_go.Prelude.{
  ◌≡◌, refl, sym, ◌∙◌, ap, ◌≢◌, ◌⊎◌, inl, inr, Bool, true, false, Option, none, some, List, [], ◌∷◌,
  arith, Bool-cases, Option-cases, List-cases, if◌then◌else◌, not,
}
use lfs_server_go.Text.{Bytes, ◌==◌}
use lfs_server_go.Text.Laws.{eq_iff, eq_refl}
use lfs_server_go.Errors.{Result, ok, err, Error, forbidden, object_not_found}
use lfs_server_go.Types.{RequestVars, MetaObject}
use lfs_server_go.Bolt.{objects, projects, IsBolt, IsGob, bytes_of, update, conclude}
use lfs_server_go.MetaStore.{
  Env, authenticate, find_object, get, create_project, find_project, new_object, new_project,
  put_object, put_new, put, write,
}
use lfs_server_go.MetaStore.Transactions.{
  Result-cases, test_of_ne, ne_of_test, write-ok, update-ok, update_keeps,
}
use lfs_server_go.MetaStore.Invariant.{IsObject, IsSound}
use lfs_server_go.MetaStore.Invariant.Methods.{
  HasProject, create_project-HasProject, create_project-IsSound,
}

module _ {DB Conn : Type 0} (env : Env DB Conn) where
  open env use {bolt, gob}

  -- What a client can learn of the objects of a database.
  unfoldable pub view : Bytes → DB → Option MetaObject
  view oid db = elim (find_object env oid db) [ ok m ↦ some m | err e ↦ none ]

  pub view_of_same :
      (oid : Bytes) (db db' : DB)
      → bolt.has_bucket db' objects ≡ bolt.has_bucket db objects
      → bolt.get db' objects oid ≡ bolt.get db objects oid
      → view oid db' ≡ view oid db
  unfolding view find_object
  view_of_same oid db db' hb hg = ground arith

  -- In a sound database a lookup finds the object or reports that there is none.
  pub find_object_cases :
      (oid : Bytes) (db : DB)
      → IsSound env db
      → ((bolt.get db objects oid ≡ none) × (find_object env oid db ≡ err object_not_found))
        ⊎ ((v : Bytes) × (o : IsObject env oid v) × (bolt.get db objects oid ≡ some v)
            × (find_object env oid db ≡ ok o.object))
  unfolding find_object
  find_object_cases oid db s = elim (Option-cases (bolt.get db objects oid)) [
    | inl missing ↦ inl (missing, ground (arith, s.buckets objects))
    | inr (v, there) ↦
        let o = s.object_at oid v there in
        elim (List-cases v) [
          | inl blank ↦ absurd (o.not_blank blank)
          | inr (c, rest, bytes) ↦ inr (v, o, there, ground (arith, s.buckets objects, o.decodes))
        ]
  ]

  -- Get, in a sound database: refused without a valid authorization, otherwise the object of the
  -- oid or the error that there is none. (It changes nothing: it returns no database.)
  pub get-eq-view :
      (rv : RequestVars) (db : DB)
      → IsSound env db
      → get env rv db ≡ (
          if authenticate env rv.authorization db
          then elim (view rv.oid db) [ some m ↦ ok m | none ↦ err object_not_found ]
          else err forbidden)
  unfolding get view
  get-eq-view rv db s = elim (find_object_cases rv.oid db s) [
    | inl (_, missing) ↦ ground arith
    | inr (v, o, _, there) ↦ ground arith
  ]

  -- What is seen under an oid has that oid, and is not marked as existing.
  pub view_fields :
      (oid : Bytes) (db : DB) (m : MetaObject)
      → IsSound env db
      → view oid db ≡ some m
      → (m.oid ≡ oid) × (m.existing ≡ false)
  unfolding view
  view_fields oid db m s h = elim (find_object_cases oid db s) [
    | inl (_, missing) ↦ absurd (ground arith)
    | inr (v, o, _, there) ↦ ground (arith, o.keyed, o.fresh)
  ]
