-- ===== src/AwsContentStore/Uploads.antt =====
-- What Put of aws_content_store.go leaves in the bucket.
use lfs_server_go.Prelude.{
  ◌≡◌, refl, sym, ap, ◌∙◌, ◌≢◌, ◌⊎◌, inl, inr, Option, none, some, arith, Bool-cases, length,
  if◌then◌else◌,
}
use lfs_server_go.Text.{Bytes, ◌==◌}
use lfs_server_go.Text.Laws.{eq_iff, eq_refl}
use lfs_server_go.Errors.{Error, ok}
use lfs_server_go.Types.{pos, MetaObject, eq_int, eq_int_iff}
use lfs_server_go.TransformKey.{transform_key}
use lfs_server_go.TransformKey.Laws.{transform_key_injective}
use lfs_server_go.ContentStore.{Reader}
use lfs_server_go.ContentStore.Intact.{IsOid}
use lfs_server_go.AwsContentStore.{AwsStorage, IsS3, content_type, get, sha_str, send, put}

module _ {B : Type 0} (st : AwsStorage B) (object : B → Bytes → Option Bytes)
    (lawful : IsS3 st.s3 object) where
  open st use {s3, store}

  -- An upload that is not sent changes nothing; the others have the size and the hash of their
  -- object.
  put_cases :
      (meta : MetaObject) (r : Reader) (b : B)
      → ((put st meta r b).1 ≡ b) × ((e : Error) × ((put st meta r b).0 ≡ some e))
        ⊎ ((pos (length r.content) ≡ meta.size)
            × (sha_str st r.content ≡ meta.oid)
            × (put st meta r b ≡ send st meta r.content b))
  unfolding put
  put_cases meta r b = elim (Bool-cases (eq_int (pos (length r.content)) meta.size)) [
    | inr other ↦ rw other (inl (refl, (_, refl)))
    | inl sized ↦ elim (Bool-cases (sha_str st r.content == meta.oid)) [
      | inr other ↦ rw sized (rw other (inl (refl, (_, refl))))
      | inl hashed ↦ rw sized (
          rw hashed (
            inr (
              (eq_int_iff (pos (length r.content)) meta.size).0 sized,
              (eq_iff (sha_str st r.content) meta.oid).0 hashed,
              refl,
            )))
    ]
  ]

  -- Every key of an oid has the content whose SHA-256 it is.
  pub record IsIntact (b : B) : Type 0 where
    pub hashes :
        (oid : Bytes) (content : Bytes)
        → IsOid oid
        → object b (transform_key oid) ≡ some content
        → sha_str st content ≡ oid

  -- After `send`, the key of the object has the new content or what it had, and the others are as
  -- they were.
  send_cases :
      (meta : MetaObject) (buf : Bytes) (b : B)
      → (object (send st meta buf b).1 (transform_key meta.oid) ≡ object b (transform_key meta.oid))
        ⊎ (object (send st meta buf b).1 (transform_key meta.oid) ≡ some buf)
  unfolding send
  send_cases meta buf b =
      lawful.put_atomic (transform_key meta.oid) buf content_type meta.size store.acl b

  send_other :
      (meta : MetaObject) (buf : Bytes) (b : B) (q : Bytes)
      → transform_key meta.oid ≢ q
      → object (send st meta buf b).1 q ≡ object b q
  unfolding send
  send_other meta buf b q n =
      lawful.put_other (transform_key meta.oid) q buf content_type meta.size store.acl b n

  send-sha_str :
      (meta : MetaObject) (buf : Bytes) (b : B)
      → IsOid meta.oid
      → sha_str st buf ≡ meta.oid
      → IsIntact b
      → (oid : Bytes) (content : Bytes) → IsOid oid
      → object (send st meta buf b).1 (transform_key oid) ≡ some content
      → sha_str st content ≡ oid
  send-sha_str meta buf b plain hash intact oid content h there =
      elim (Bool-cases (meta.oid == oid)) [
        | inr other ↦ intact.hashes oid content h (
            sym (
              send_other meta buf b (transform_key oid) (λ e. absurd (
                ground (
                  arith,
                  transform_key_injective meta.oid oid plain.1 h.1 e,
                  eq_iff meta.oid oid,
                ))))
            ∙ there)
        | inl here ↦
            let same : meta.oid ≡ oid = (eq_iff meta.oid oid).0 here in
            let seen : object (send st meta buf b).1 (transform_key meta.oid) ≡ some content =
              ap (λ k. object (send st meta buf b).1 (transform_key k)) same ∙ there in
            elim (send_cases meta buf b) [
              | inl kept ↦
                  intact.hashes oid content h
                    (ap (λ k. object b (transform_key k)) (sym same) ∙ sym kept ∙ seen)
              | inr stored ↦
                  let got : buf ≡ content = ground arith in ap (sha_str st) (sym got) ∙ hash ∙ same
            ]
      ]

  -- Where every key of an oid (without slashes and periods) has the content that the oid is the
  -- SHA-256 of, a Put for such an oid leaves this so, whatever the upload is and whatever S3 answers.
  pub aws_put-IsIntact :
      (meta : MetaObject) (r : Reader) (b : B)
      → IsOid meta.oid
      → IsIntact b
      → IsIntact (put st meta r b).1
  aws_put-IsIntact meta r b plain intact = elim (put_cases meta r b) [
    | inl (kept, _) ↦ rw kept intact
    | inr (size, hash, same) ↦
        rw same (record { hashes = send-sha_str meta r.content b plain hash intact })
  ]

  -- What a Put without an error has done.
  pub record IsKept (meta : MetaObject) (r : Reader) (b b' : B) : Type 0 where
    pub size : pos (length r.content) ≡ meta.size
    pub hash : sha_str st r.content ≡ meta.oid
    pub keys :
        (q : Bytes)
        → object b' q ≡ (if transform_key meta.oid == q then some r.content else object b q)

  send-ok :
      (meta : MetaObject) (buf : Bytes) (b : B)
      → (send st meta buf b).0 ≡ none
      → (s3.put_reader (transform_key meta.oid) buf meta.size content_type store.acl b).0 ≡ none
  unfolding send
  send-ok meta buf b h = ground arith

  send_stores :
      (meta : MetaObject) (buf : Bytes) (b : B)
      → pos (length buf) ≡ meta.size
      → (send st meta buf b).0 ≡ none
      → object (send st meta buf b).1 (transform_key meta.oid) ≡ some buf
  unfolding send
  send_stores meta buf b size h = rw (← size) (
      lawful.put_stores (transform_key meta.oid) buf content_type store.acl b
        (rw size (send-ok meta buf b h)))

  send_keys :
      (meta : MetaObject) (buf : Bytes) (b : B) (q : Bytes)
      → pos (length buf) ≡ meta.size
      → (send st meta buf b).0 ≡ none
      → object (send st meta buf b).1 q
        ≡ (if transform_key meta.oid == q then some buf else object b q)
  send_keys meta buf b q size h = elim (Bool-cases (transform_key meta.oid == q)) [
    | inl here ↦ rw here (
        ap (object (send st meta buf b).1) (sym ((eq_iff (transform_key meta.oid) q).0 here))
        ∙ send_stores meta buf b size h)
    | inr other ↦
        rw other (
          send_other meta buf b q (λ e. absurd (ground (arith, eq_iff (transform_key meta.oid) q))))
  ]

  -- A Put without an error: the content has the size and the hash of its object, and the bucket
  -- differs in one key: the object's, which holds the content.
  aws_put-IsKept :
      (meta : MetaObject) (r : Reader) (b : B)
      → (put st meta r b).0 ≡ none
      → IsKept meta r b (put st meta r b).1
  aws_put-IsKept meta r b h = elim (put_cases meta r b) [
    | inl (_, refused) ↦ absurd (let (e, fails) = refused in ground arith)
    | inr (size, hash, same) ↦
        let sent : (send st meta r.content b).0 ≡ none = sym (ap (λ x. x.0) same) ∙ h in
        rw same
          (record { size = size; hash = hash; keys = λ q. send_keys meta r.content b q size sent })
  ]

  -- What Get reads without an error after a Put without an error is what was put.
  pub aws_get-put :
      (meta : MetaObject) (r back : Reader) (b : B)
      → (put st meta r b).0 ≡ none
      → get st meta (put st meta r b).1 ≡ ok back
      → back.failure ≡ none
      → back.content ≡ r.content
  unfolding get
  aws_get-put meta r back b h got whole =
      let seen = lawful.reads (transform_key meta.oid) back (put st meta r b).1 got whole in
      let kept = aws_put-IsKept meta r b h in
      ground (arith, seen, kept.keys (transform_key meta.oid), eq_refl (transform_key meta.oid))
