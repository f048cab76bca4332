-- ===== src/Handlers/Cloud.antt =====
-- The handlers of server.go over any metadata store and the S3 store of aws_content_store.go.
use lfs_server_go.Prelude.{ℕ, ◌≡◌, ap, ◌∙◌, sym, none, arith, Option}
use lfs_server_go.Text.{Bytes}
use lfs_server_go.Errors.{ok}
use lfs_server_go.Types.{MetaObject}
use lfs_server_go.Config.{Configuration}
use lfs_server_go.ContentStore.{Reader}
use lfs_server_go.AwsContentStore.{AwsStorage, IsS3, get, put, exists}
use lfs_server_go.AwsContentStore.Uploads.{aws_get-put}
use lfs_server_go.Server.{
  GenericMetaStore, GenericContentStore, App, Json, Request, fresh, code_of, unpack, write,
}
use lfs_server_go.Handlers.{get_content_handler, put_handler}
use lfs_server_go.Handlers.Guard.{content_handlers-code, put_handler-ok, get_content_handler-ok}

module _ {M B : Type 0} (meta_store : GenericMetaStore M) (st : AwsStorage B) (cfg : Configuration)
    (json : Json) (status_text : ℕ → Bytes) where
  abbrev pub s3_store : GenericContentStore B
  s3_store = record { get = get st; put = put st; exists = exists st }

  abbrev pub s3_app : App M B
  s3_app = record {
    content_store = s3_store;
    meta_store = meta_store;
    cfg = cfg;
    json = json;
    status_text = status_text;
  }

  -- Over any metadata store and a bucket that does what S3 documents: a PUT that is answered 200,
  -- and then a GET that names the same object. Where S3 gives the object back and it is read to its
  -- end, the answer is the body of the PUT.
  pub s3_upload_download :
      (object : B → Bytes → Option Bytes) (lawful : IsS3 st.s3 object) (upload download : Request)
      (m : M) (b : B) (meta : MetaObject) (back : Reader)
      → unpack json download ≡ unpack json upload
      → meta_store.get (unpack json upload) m ≡ ok meta
      → code_of (put_handler s3_app upload fresh m b).0 ≡ 200
      → get st meta (put_handler s3_app upload fresh m b).1 ≡ ok back
      → back.failure ≡ none
      → get_content_handler s3_app download fresh m (put_handler s3_app upload fresh m b).1
        ≡ write upload.body.content fresh
  s3_upload_download object lawful upload download m b meta back same known fine there whole =
      let (meta', known', taken') = (content_handlers-code s3_app upload m b).1.0 fine in
      let agree : meta' ≡ meta = ground arith in
      let taken : (put st meta upload.body b).0 ≡ none =
        ap (λ x. (put st x upload.body b).0) (sym agree) ∙ taken' in
      let left : (put_handler s3_app upload fresh m b).1 ≡ (put st meta upload.body b).1 =
        ap (λ x. x.1) (put_handler-ok s3_app upload m b meta known taken) in
      let got = ap (get st meta) (sym left) ∙ there in
      get_content_handler-ok s3_app download m _ meta back
        (ap (λ v. meta_store.get v m) same ∙ known) there
      ∙ ap (λ c. write c fresh)
          (aws_get-put st object lawful meta upload.body back b taken got whole)
