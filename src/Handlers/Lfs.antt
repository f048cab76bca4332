-- ===== src/Handlers/Lfs.antt =====
-- The server of main.go with the bolt store and the file store: an object is announced, uploaded
-- and downloaded.
use lfs_server_go.Prelude.{arith, ℕ, ◌≡◌, refl, ap, ◌∙◌, true, none, some, length}
use lfs_server_go.Text.{Bytes}
use lfs_server_go.Text.Laws.{eq_refl}
use lfs_server_go.Errors.{ok}
use lfs_server_go.Types.{pos, RequestVars, eq_int_iff}
use lfs_server_go.Bolt.{IsBolt, IsGob}
use lfs_server_go.MetaStore.{
  Env, authenticate, new_object, get, put, add_user, delete_user, add_project, all_users,
  all_objects, all_projects,
}
use lfs_server_go.MetaStore.Invariant.{IsSound}
use lfs_server_go.MetaStore.Objects.{view}
use lfs_server_go.MetaStore.Creation.{Fits, put_succeeds}
use lfs_server_go.MetaStore.Sessions.{get-put}
use lfs_server_go.ContentStore.{exists, Storage, Files, Reader, sha_str}
use lfs_server_go.ContentStore as ContentStore
use lfs_server_go.ContentStore.Uploads.{IsWorking, IsReadable, put-verdict, get-put_file}
use lfs_server_go.Server.{
  GenericMetaStore, GenericContentStore, App, Json, Request, fresh, code_of, reply_code, unpack,
  write,
}
use lfs_server_go.Handlers.{get_content_handler, post_handler, put_handler}
use lfs_server_go.Handlers.Guard.{
  IsGuarded, unpack-authorization, post_handler-created, put_handler-ok, get_content_handler-ok,
}

module _ {DB Conn : Type 0} (env : Env DB Conn) where
  -- `FindMetaStore` with the back end bolt.
  abbrev pub bolt_store : GenericMetaStore DB
  bolt_store = record {
    put = λ rv db. let (result, db') = put env rv db in (some result, db');
    get = get env;
    delete_user = delete_user env;
    add_user = add_user env;
    add_project = add_project env;
    users = all_users env;
    objects = λ db. some (all_objects env db);
    projects = λ db. some (all_projects env db);
  }

  -- The bolt store keeps to what the handlers need.
  pub bolt_store-IsGuarded : IsGuarded bolt_store (authenticate env)
  unfolding get put
  bolt_store-IsGuarded = record {
    get_refused = λ rv db h. ground arith;
    put_refused = λ rv db h. ground arith;
  }

module _ {DB Conn : Type 0} (env : Env DB Conn) (st : Storage) (json : Json)
    (status_text : ℕ → Bytes) where
  -- `findContentStore` with the back end filestore.
  abbrev pub file_store : GenericContentStore Files
  file_store = record {
    get = ContentStore.get st;
    put = ContentStore.put st;
    exists = ContentStore.exists st;
  }

  abbrev pub lfs_app : App DB Files
  lfs_app = record {
    content_store = file_store;
    meta_store = bolt_store env;
    cfg = env.cfg;
    json = json;
    status_text = status_text;
  }

  -- Three requests of one client about the object that the first announces.
  pub record IsSession (post upload download : Request) (rv : RequestVars) : Type 0 where
    pub announced : unpack json post ≡ rv
    pub uploaded_oid : (unpack json upload).oid ≡ rv.oid
    pub uploaded_by : upload.authorization ≡ rv.authorization
    pub downloaded_oid : (unpack json download).oid ≡ rv.oid
    pub downloaded_by : download.authorization ≡ rv.authorization
    -- the upload is what was announced
    pub whole : upload.body.failure ≡ none
    pub size : pos (length upload.body.content) ≡ rv.size
    pub hash : sha_str st upload.body.content ≡ rv.oid

  get_of_same :
      (rv rv' : RequestVars) (db : DB)
      → rv.oid ≡ rv'.oid
      → rv.authorization ≡ rv'.authorization
      → get env rv db ≡ get env rv' db
  unfolding get
  get_of_same rv rv' db ho ha = rw (ho, ha) refl

  post_handler-state :
      (r : Request) (db : DB) (fs : Files)
      → (post_handler lfs_app r fresh db fs).1 ≡ (put env (unpack json r) db).1
  unfolding post_handler
  post_handler-state r db fs = refl

  module _ (lawful : IsBolt env.bolt) (codec : IsGob env.gob) where
    -- The metadata after the first request is what any later request of the client for the oid finds.
    found_after :
        (rv rv' : RequestVars) (db : DB)
        → IsSound env db
        → (put env rv db).0 ≡ ok (new_object rv)
        → rv'.oid ≡ rv.oid
        → rv'.authorization ≡ rv.authorization
        → get env rv' (put env rv db).1 ≡ ok (new_object rv)
    found_after rv rv' db s made ho ha =
        get_of_same rv' rv (put env rv db).1 ho ha
        ∙ get-put env lawful codec rv db (new_object rv) s made

    -- An upload of what was announced, of which the disk refuses nothing, is taken.
    put_taken :
        (rv : RequestVars) (r : Reader) (fs : Files)
        → IsWorking st (new_object rv) r.content fs
        → r.failure ≡ none
        → pos (length r.content) ≡ rv.size
        → sha_str st r.content ≡ rv.oid
        → (ContentStore.put st (new_object rv) r fs).0 ≡ none
    put_taken rv r fs w whole size hash =
        put-verdict st (new_object rv) r fs w whole
        ∙ rw ((eq_int_iff (pos (length r.content)) rv.size).1 size)
            (rw hash (rw (eq_refl rv.oid) refl))

    module _ (disk : (db : DB) → env.bolt.commit db ≡ none) where
      -- A client announces an object that the server does not have (POST), uploads it (PUT) and
      -- downloads it (GET). In a sound database, with an authorization that is taken, sizes that
      -- bolt takes and disks that refuse nothing (the file can be read afterwards, and is no
      -- directory): the first answer has status 202, the second 200, and the third is 200 with the
      -- bytes that were uploaded.
      pub post_upload_download :
          (post upload download : Request) (rv : RequestVars) (db : DB) (fs : Files)
          → IsSession post upload download rv
          → IsSound env db
          → authenticate env rv.authorization db ≡ true
          → view env rv.oid db ≡ none
          → Fits env lawful rv
          → IsWorking st (new_object rv) upload.body.content fs
          → IsReadable st rv.oid upload.body.content
              (ContentStore.put st (new_object rv) upload.body fs).1
          → let posted = post_handler lfs_app post fresh db fs in
            let stored = put_handler lfs_app upload fresh posted.1 fs in
            let got = get_content_handler lfs_app download fresh posted.1 stored.1 in
            (reply_code posted.0 ≡ some 202)
            × (code_of stored.0 ≡ 200)
            × (code_of got ≡ 200)
            × (got.body ≡ upload.body.content)
      unfolding write
      post_upload_download post upload download rv db fs x s admitted new fits w readable =
          let made = put_succeeds env lawful codec disk rv db s admitted new fits in
          let db1 = (put env rv db).1 in
          let posted_db : (post_handler lfs_app post fresh db fs).1 ≡ db1 =
            post_handler-state post db fs ∙ ap (λ v. (put env v db).1) x.announced in
          let found_up =
            found_after rv (unpack json upload) db s made x.uploaded_oid
              (unpack-authorization lfs_app upload ∙ x.uploaded_by) in
          let found_down =
            found_after rv (unpack json download) db s made x.downloaded_oid
              (unpack-authorization lfs_app download ∙ x.downloaded_by) in
          let announced : (put env (unpack json post) db).0 ≡ ok (new_object rv) =
            rw x.announced made in
          let taken = put_taken rv upload.body fs w x.whole x.size x.hash in
          let stored = put_handler-ok lfs_app upload db1 fs (new_object rv) found_up taken in
          let read_back = get-put_file st (new_object rv) upload.body fs taken readable in
          let got =
            get_content_handler-ok lfs_app download db1 _ (new_object rv) _ found_down read_back in
          rw posted_db (
            rw stored (
              post_handler-created lfs_app post db fs (new_object rv) (ap some announced) refl,
              refl,
              ap code_of got,
              ap (λ u. u.body) got,
            ))
