-- ===== src/AwsContentStore.antt =====
-- aws_content_store.go: objects as the keys of an S3 bucket, by the hash of their content. The
-- library github.com/mitchellh/goamz is a parameter, with what S3 documents of it.
pub mod Uploads
use lfs_server_go.Prelude.{
  Bool, true, false, not, ◌||◌, Option, none, some, List, [], ◌∷◌, ◌≡◌, ◌⊎◌, ◌≢◌, length,
  if◌then◌else◌,
}
use lfs_server_go.Text.{Bytes, lit, ◌==◌, one_of}
use lfs_server_go.Errors.{
  Error, Result, ok, err, size_mismatch, hash_mismatch, write_s3, mysql_not_implemented,
}
use lfs_server_go.Types.{ℤ, pos, MetaObject, eq_int}
use lfs_server_go.Config.{AwsConfig}
use lfs_server_go.TransformKey.{transform_key}
use lfs_server_go.Hex.{encode_to_string}
use lfs_server_go.ContentStore.{Reader}

-- `s3.ACL`
pub data Acl : Type 0 where
  private_acl public_read public_read_write authenticated_read : Acl
  bucket_owner_read bucket_owner_full : Acl
  -- `s3.ACL(name)` of a name, as makeBucket makes one
  named_acl : Bytes → Acl

-- One bucket of the service, over the states of the service.
pub record S3 (B : Type 0) : Type 0 where
  -- the names of the account's buckets
  pub list_buckets : B → Result (List Bytes)
  pub put_bucket : Bytes → Acl → B → Option Error × B
  pub get_reader : Bytes → B → Result Reader
  -- the size of a key
  pub get_key : Bytes → B → Result ℤ
  -- the path, the content, its length, its type and its access
  pub put_reader : Bytes → Bytes → ℤ → Bytes → Acl → B → Option Error × B

-- What S3 documents, `object` being the content that a key holds: a write is there whole or not at
-- all, and a read after it sees it.
pub record IsS3 {B : Type 0} (s3 : S3 B) (object : B → Bytes → Option Bytes) : Type 0 where
  pub put_stores :
      (p content type : Bytes) (acl : Acl) (b : B)
      → (s3.put_reader p content (pos (length content)) type acl b).0 ≡ none
      → object (s3.put_reader p content (pos (length content)) type acl b).1 p ≡ some content
  pub put_atomic :
      (p content type : Bytes) (n : ℤ) (acl : Acl) (b : B)
      → (object (s3.put_reader p content n type acl b).1 p ≡ object b p)
        ⊎ (object (s3.put_reader p content n type acl b).1 p ≡ some content)
  pub put_other :
      (p q content type : Bytes) (n : ℤ) (acl : Acl) (b : B)
      → p ≢ q
      → object (s3.put_reader p content n type acl b).1 q ≡ object b q
  pub reads :
      (p : Bytes) (r : Reader) (b : B)
      → s3.get_reader p b ≡ ok r
      → r.failure ≡ none
      → object b p ≡ some r.content
  pub sizes :
      (p : Bytes) (n : ℤ) (b : B)
      → s3.get_key p b ≡ ok n
      → (content : Bytes) × (object b p ≡ some content) × (n ≡ pos (length content))

pub record AwsContentStore : Type 0 where
  pub bucket_name : Bytes
  pub acl : Acl

abbrev pub content_type : Bytes
content_type = lit "binary/octet-stream"

-- `setAcl`
unfoldable pub set_acl : Bytes → Acl
set_acl name =
    if name == lit "private"
    then private_acl
    else if name == lit "public-read"
    then public_read
    else if name == lit "public-read-write"
    then public_read_write
    else if name == lit "authenticated-read"
    then authenticated_read
    else if name == lit "bucket-owner-read"
    then bucket_owner_read
    else if name == lit "bucket-owner-full-control"
    then bucket_owner_full
    else private_acl

-- The service, the store and crypto/sha256.
pub record AwsStorage (B : Type 0) : Type 0 where
  pub s3 : S3 B
  pub store : AwsContentStore
  pub sum256 : Bytes → Bytes

module _ {B : Type 0} (st : AwsStorage B) where
  open st use {s3, store, sum256}

  unfoldable pub make_bucket : Bytes → B → Option Error × B
  make_bucket bucket_acl b = elim (s3.list_buckets b) [
    | err e ↦ (some e, b)
    | ok names ↦
        if not (one_of names store.bucket_name)
        then s3.put_bucket store.bucket_name (named_acl bucket_acl) b
        else (none, b)
  ]

  unfoldable pub get : MetaObject → B → Result Reader
  get meta b = s3.get_reader (transform_key meta.oid) b

  unfoldable pub get_meta_data : MetaObject → B → Result ℤ
  get_meta_data meta b = s3.get_key (transform_key meta.oid) b

  -- The SHA-256 of a content, in hexadecimal.
  unfoldable pub sha_str : Bytes → Bytes
  sha_str content = encode_to_string (sum256 content)

  -- `Put` once the content has the right size and hash: the answer looks at the key again.
  unfoldable pub send : MetaObject → Bytes → B → Option Error × B
  send meta buf b =
      let (ret_stat, b') =
        s3.put_reader (transform_key meta.oid) buf meta.size content_type store.acl b in
      (
        elim (get_meta_data meta b') [
          | err e ↦ some write_s3
          | ok size ↦ if not (eq_int size meta.size) then some size_mismatch else ret_stat
        ],
        b',
      )

  -- `ioutil.ReadAll` drops the error of the reader.
  unfoldable pub put : MetaObject → Reader → B → Option Error × B
  put meta r b =
      if not (eq_int (pos (length r.content)) meta.size)
      then (some size_mismatch, b)
      else if not (sha_str r.content == meta.oid)
      then (some hash_mismatch, b)
      else send meta r.content b

  -- Every error counts as a missing key.
  unfoldable pub exists : MetaObject → B → Bool
  exists meta b = elim (s3.get_key (transform_key meta.oid) b) [ err e ↦ false | ok size ↦ true ]

-- `AddProject`
unfoldable pub add_project : Bytes → Option Error
add_project name = some mysql_not_implemented

-- `NewAwsContentStore`; `env_auth` is aws.EnvAuth with the two keys in the environment, and `service`
-- the bucket that the library makes of the authorization, the region and the name. The errors of
-- `makeBucket` are dropped, and it runs before `setAcl`.
unfoldable pub new_aws_content_store {ℓ} :
    {Auth : Type ℓ} {B : Type 0}
    → (Bytes → Bytes → Result Auth)
    → (Auth → Bytes → Bytes → S3 B)
    → (Bytes → Bytes)
    → AwsConfig
    → B
    → Result (AwsStorage B) × B
new_aws_content_store env_auth service sum256 cfg b =
    elim (env_auth cfg.access_key_id cfg.secret_access_key) [
      | err e ↦ (err e, b)
      | ok auth ↦
          let s3 = service auth cfg.region cfg.bucket_name in
          let made : AwsStorage _ = record {
            s3 = s3;
            store = record { bucket_name = cfg.bucket_name; acl = set_acl cfg.bucket_acl };
            sum256 = sum256;
          } in
          (ok made, (make_bucket made cfg.bucket_acl b).1)
    ]
