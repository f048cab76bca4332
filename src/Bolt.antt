-- ===== src/Bolt.antt =====
-- github.com/boltdb/bolt, the library that meta_store.go keeps its data in, and encoding/gob, by
-- which it writes its records: parameters of the model, with what their documentation promises.
use lfs_server_go.Prelude.{
  Bool, true, false, ◌&&◌, ◌≡◌, ◌≢◌, ◌↔◌, Option, none, some, List, [], if◌then◌else◌, length, ◌<◌,
  ◌≤◌,
}
use mathlib.Core.List.{Memᴰ}
use lfs_server_go.Text.{Bytes, ◌==◌}
use lfs_server_go.Errors.{Error, Result, ok, err}
use lfs_server_go.Types.{MetaObject, MetaProject}

-- `usersBucket`, `objectsBucket` and `projectsBucket`
pub data Bucket : Type 0 where
  users objects projects : Bucket

abbrev pub same : Bucket → Bucket → Bool
same users users = true
same objects objects = true
same projects projects = true
same _ _ = false

-- A database file, as a transaction sees it.
pub record Bolt (DB : Type 0) : Type 0 where
  pub open_file : Bytes → Result DB
  -- `tx.Bucket(name) != nil`
  pub has_bucket : DB → Bucket → Bool
  pub create_bucket_if_not_exists : DB → Bucket → Result DB
  -- `none` is nil
  pub get : DB → Bucket → Bytes → Option Bytes
  pub put : DB → Bucket → Bytes → Bytes → Result DB
  pub delete : DB → Bucket → Bytes → Result DB
  -- the pairs in the order of `ForEach`
  pub entries : DB → Bucket → List (Bytes × Bytes)
  -- the error of writing this state out at the end of a transaction
  pub commit : DB → Option Error

-- What bolt documents of these.
pub record IsBolt {DB : Type 0} (b : Bolt DB) : Type 0 where
  pub has-create :
      (db db' : DB) (c d : Bucket)
      → b.create_bucket_if_not_exists db c ≡ ok db'
      → b.has_bucket db' d ≡ (if same c d then true else b.has_bucket db d)
  pub get-create :
      (db db' : DB) (c d : Bucket) (k : Bytes)
      → b.create_bucket_if_not_exists db c ≡ ok db'
      → b.get db' d k ≡ b.get db d k
  pub has-put :
      (db db' : DB) (c d : Bucket) (k v : Bytes)
      → b.put db c k v ≡ ok db'
      → b.has_bucket db' d ≡ b.has_bucket db d
  pub get-put :
      (db db' : DB) (c d : Bucket) (k v j : Bytes)
      → b.put db c k v ≡ ok db'
      → b.get db' d j ≡ (if same c d && (k == j) then some v else b.get db d j)
  pub has-delete :
      (db db' : DB) (c d : Bucket) (k : Bytes)
      → b.delete db c k ≡ ok db'
      → b.has_bucket db' d ≡ b.has_bucket db d
  pub get-delete :
      (db db' : DB) (c d : Bucket) (k j : Bytes)
      → b.delete db c k ≡ ok db'
      → b.get db' d j ≡ (if same c d && (k == j) then none else b.get db d j)
  -- `ErrKeyRequired`
  pub put_blank : (db : DB) (c : Bucket) (v : Bytes) → (e : Error) × (b.put db c [] v ≡ err e)
  -- a bucket takes any pair within `MaxKeySize` and `MaxValueSize`
  pub put_fits :
      (db : DB) (c : Bucket) (k v : Bytes)
      → b.has_bucket db c ≡ true
      → 0 < length k
      → length k ≤ 32768
      → length v ≤ 2147483646
      → (db' : DB) × (b.put db c k v ≡ ok db')
  -- `ForEach` passes each pair of the bucket
  pub entries_get :
      (db : DB) (c : Bucket) (k v : Bytes) → Memᴰ (k, v) (b.entries db c) ↔ (b.get db c k ≡ some v)

-- The bytes that a Get returned; nil has length 0.
abbrev pub bytes_of : Option Bytes → Bytes
bytes_of none = []
bytes_of (some v) = v

-- `db.Update`: the changes are kept if the function returns no error and they can be written out.
module _ {DB : Type 0} (b : Bolt DB) where
  abbrev pub conclude : DB → Result DB → Option Error × DB
  conclude db (err e) = (some e, db)
  conclude db (ok db') = elim (b.commit db') [ none ↦ (none, db') | some e ↦ (some e, db) ]

  abbrev pub update : (DB → Result DB) → DB → Option Error × DB
  update f db = conclude db (f db)

-- encoding/gob on the two records. An encoder leaves bytes in its buffer, and returns an error.
pub record Gob : Type 0 where
  pub encode_object : MetaObject → Bytes × Option Error
  pub decode_object : Bytes → Result MetaObject
  pub encode_project : MetaProject → Bytes × Option Error
  pub decode_project : Bytes → Result MetaProject

-- Structs of strings, numbers, lists and Booleans are encoded, in at least a byte, and decoding
-- gives them back.
pub record IsGob (g : Gob) : Type 0 where
  pub object_encodes : (m : MetaObject) → (g.encode_object m).1 ≡ none
  pub object_decodes : (m : MetaObject) → g.decode_object (g.encode_object m).0 ≡ ok m
  pub object_bytes : (m : MetaObject) → (g.encode_object m).0 ≢ []
  pub project_encodes : (p : MetaProject) → (g.encode_project p).1 ≡ none
  pub project_decodes : (p : MetaProject) → g.decode_project (g.encode_project p).0 ≡ ok p
  pub project_bytes : (p : MetaProject) → (g.encode_project p).0 ≢ []
