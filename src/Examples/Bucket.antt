-- ===== src/Examples/Bucket.antt =====
-- The theorems on aws_content_store.go at a bucket that keeps what it is given.
use lfs_server_go.Prelude.{
  ◌≡◌, refl, inl, inr, false, Option, none, some, [], ◌∷◌, arith, length, Bool-cases, Option-cases,
  if◌then◌else◌,
}
use lfs_server_go.Text.{Bytes, lit, ◌==◌}
use lfs_server_go.Text.Laws.{eq_iff, eq_refl}
use lfs_server_go.Errors.{Error, ok, err, foreign}
use lfs_server_go.Types.{pos}
use lfs_server_go.Hex.{encode_to_string, hex_digit}
use lfs_server_go.FilePath.{join}
use lfs_server_go.TransformKey.{transform_key}
use lfs_server_go.AwsContentStore.{
  S3, IsS3, AwsStorage, private_acl, put, send, get_meta_data, sha_str,
}
use lfs_server_go.Examples.Disk.{abc, upload}

-- The contents by their keys.
abbrev pub Keys : Type 0
Keys = Bytes → Option Bytes

unfoldable pub held_keys : Keys → Bytes → Option Bytes
held_keys b p = b p

abbrev pub no_key : Error
no_key = foreign (lit "The specified key does not exist.")

unfoldable pub s3 : S3 Keys
s3 = record {
  list_buckets = λ b. ok (lit "lfs" ∷ []);
  put_bucket = λ name acl b. (none, b);
  get_reader = λ p b. elim (b p) [
    | none ↦ err no_key
    | some c ↦ ok (record { content = c; failure = none })
  ];
  get_key = λ p b. elim (b p) [ none ↦ err no_key | some c ↦ ok (pos (length c)) ];
  put_reader = λ p c n type acl b. (none, λ q. if p == q then some c else b q);
}

pub s3-IsS3 : IsS3 s3 held_keys
unfolding s3 held_keys
s3-IsS3 = record {
  put_stores = λ p content type acl b done. rw (eq_refl p) refl;
  put_atomic = λ p content type n acl b. inr (rw (eq_refl p) refl);
  put_other = λ p q content type n acl b differ.
      let other : (p == q) ≡ false = elim (Bool-cases (p == q)) [
        | inl same ↦ absurd (differ ((eq_iff p q).0 same))
        | inr other ↦ other
      ] in
      rw other refl;
  reads = λ p r b got whole. elim (Option-cases (b p)) [
    | inl missing ↦ absurd (ground arith)
    | inr (c, there) ↦ ground arith
  ];
  sizes = λ p n b got. elim (Option-cases (b p)) [
    | inl missing ↦ absurd (ground arith)
    | inr (c, there) ↦ (c, there, ground arith)
  ];
}

-- A hash that is the content itself.
abbrev pub cloud : AwsStorage Keys
cloud = record {
  s3 = s3;
  store = record { bucket_name = lit "lfs"; acl = private_acl };
  sum256 = λ content. content;
}

abbrev pub no_keys : Keys
no_keys p = none

pub taken : (put cloud abc upload no_keys).0 ≡ none
unfolding put send get_meta_data sha_str encode_to_string hex_digit s3 ◌==◌ transform_key join
taken = refl
