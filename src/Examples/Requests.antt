-- ===== src/Examples/Requests.antt =====
-- The theorems on server.go at requests to the server in memory.
use lfs_server_go.Prelude.{ℕ, ◌≡◌, refl, ◌↔◌, false, none, some, List, [], ◌∷◌, arith}
use lfs_server_go.Text.{Bytes, lit, ◌==◌}
use lfs_server_go.Errors.{ok}
use lfs_server_go.Types.{RequestVars, MetaObject, Representation}
use lfs_server_go.MetaStore.{authenticate, find_object, new_object, get}
use lfs_server_go.MetaStore.Objects.{view}
use lfs_server_go.MetaStore.Creation.{Fits}
use lfs_server_go.ContentStore.{Storage, Files, Reader, path_of}
use lfs_server_go.ContentStore as ContentStore
use lfs_server_go.ContentStore.Uploads.{IsWorking}
use lfs_server_go.Server.{
  App, Json, Request, fresh, code_of, reply_code, unpack, all_with_route, write, set_header,
  meta_media_type, content_media_type,
}
use lfs_server_go.Handlers.{
  get_content_handler, get_search_handler, get_meta_handler, post_handler, put_handler,
  batch_handler,
}
use lfs_server_go.Handlers.Guard.{
  challenge, refused_everywhere, batch_refused, content_handlers-code,
}
use lfs_server_go.Handlers.Lfs.{lfs_app, bolt_store-IsGuarded, IsSession, post_upload_download}
use lfs_server_go.Handlers.Batch.{Answers, batch_handler-Answers}
use lfs_server_go.Examples.Pairs.{lookup}
use lfs_server_go.Examples.Memory.{Memory, memory, memory-IsBolt}
use lfs_server_go.Examples.Codec.{
  codec, codec-IsGob, put_text, put_texts, flag, sign, size_of, encode_object, encode_project,
}
use lfs_server_go.Examples.Setup.{
  server_env, one_user, pairs_of_u, one_user-IsSound, u_and_p, u-admitted,
}
use lfs_server_go.Examples.Store.{no_failure}
use lfs_server_go.Examples.Disk.{disk, no_files, abc, upload, upload-hash, upload-IsReadable}

-- The announced object, by u.
abbrev pub vars_of : Bytes → RequestVars
vars_of authorization = record {
  oid = abc.oid;
  size = abc.size;
  user = [];
  password = [];
  namespace = lit "team";
  repo = [];
  authorization = authorization;
}

-- Every body is the object.
abbrev pub json : Json
json = record {
  decode_request_vars = λ body. ok (vars_of []);
  decode_batch_vars = λ body. (some (vars_of []) ∷ [], none);
  encode_representation = λ rep. rep.oid;
  encode_objects = λ reps. [];
}

abbrev pub no_text : ℕ → Bytes
no_text n = []

abbrev pub lfs : App Memory Files
lfs = lfs_app server_env disk json no_text

abbrev pub request : Bytes → Bytes → Request
request method authorization = record {
  method = method;
  namespace = lit "team";
  repo = [];
  oid = abc.oid;
  accept = meta_media_type ∷ [];
  authorization = authorization;
  body = upload;
}

abbrev pub post : Request
post = request (lit "POST") u_and_p

abbrev pub upload_request : Request
upload_request = record (request (lit "PUT") u_and_p) { accept = content_media_type ∷ [] }

abbrev pub download : Request
download = record (request (lit "GET") u_and_p) { accept = content_media_type ∷ [] }

-- A request without an authorization.
abbrev anonymous : Request
anonymous = request (lit "GET") []

pub not_admitted : authenticate server_env [] one_user ≡ false
unfolding authenticate ◌==◌
not_admitted = refl

pub not_seen : view server_env abc.oid one_user ≡ none
unfolding view find_object one_user pairs_of_u memory lookup
not_seen = refl

refused_everywhere_example :
    (get_content_handler lfs anonymous fresh one_user no_files ≡ challenge lfs anonymous)
    × (get_search_handler lfs anonymous fresh one_user ≡ challenge lfs anonymous)
    × (get_meta_handler lfs anonymous fresh one_user ≡ challenge lfs anonymous)
    × (post_handler lfs anonymous fresh one_user no_files
        ≡ (some (challenge lfs anonymous), one_user))
    × (put_handler lfs anonymous fresh one_user no_files ≡ (challenge lfs anonymous, no_files))
refused_everywhere_example =
    refused_everywhere lfs (authenticate server_env) (bolt_store-IsGuarded server_env) anonymous
      one_user no_files not_admitted

nothing_more : all_with_route anonymous [] ≡ some []
unfolding all_with_route
nothing_more = refl

batch_refused_example :
    batch_handler lfs anonymous fresh one_user ≡ (some (challenge lfs anonymous), one_user)
batch_refused_example =
    batch_refused lfs (authenticate server_env) (bolt_store-IsGuarded server_env) anonymous one_user
      (vars_of []) [] [] not_admitted refl nothing_more

content_handlers-code_example :
    ((code_of (get_content_handler lfs upload_request fresh one_user no_files) ≡ 200) ↔ (
      (meta : MetaObject) × (content : Reader) × (get server_env
          (unpack json upload_request)
          one_user
        ≡ ok meta)
      × (lfs.content_store.get meta no_files ≡ ok content)))
    × ((code_of (put_handler lfs upload_request fresh one_user no_files).0 ≡ 200) ↔ (
        (meta : MetaObject) × (get server_env (unpack json upload_request) one_user ≡ ok meta)
        × ((ContentStore.put disk meta upload no_files).0 ≡ none)))
content_handlers-code_example = content_handlers-code lfs upload_request one_user no_files

pub one-IsSession :
    IsSession server_env disk json no_text post upload_request download (vars_of u_and_p)
unfolding unpack ◌==◌
one-IsSession = record {
  announced = refl;
  uploaded_oid = refl;
  uploaded_by = refl;
  downloaded_oid = refl;
  downloaded_by = refl;
  whole = refl;
  size = refl;
  hash = upload-hash;
}

pub vars-Fits : Fits server_env memory-IsBolt (vars_of u_and_p)
unfolding codec encode_object encode_project put_text put_texts flag sign size_of
vars-Fits = record {
  oid_low = omega arith;
  oid_high = omega arith;
  repo_high = omega arith;
  object_high = omega arith;
  project_high = omega arith;
}

pub upload_works : IsWorking disk (new_object (vars_of u_and_p)) upload.content no_files
upload_works = record {
  directory = refl;
  opens = refl;
  writes = refl;
  renames = refl;
  unused = refl;
}

post_upload_download_example :
    let posted = post_handler lfs post fresh one_user no_files in
    let stored = put_handler lfs upload_request fresh posted.1 no_files in
    let got = get_content_handler lfs download fresh posted.1 stored.1 in
    (reply_code posted.0 ≡ some 202)
    × (code_of stored.0 ≡ 200)
    × (code_of got ≡ 200)
    × (got.body ≡ lit "abc")
post_upload_download_example =
    post_upload_download server_env disk json no_text memory-IsBolt codec-IsGob no_failure post
      upload_request download (vars_of u_and_p) one_user no_files one-IsSession one_user-IsSound
      u-admitted not_seen vars-Fits upload_works (upload-IsReadable _ _ _)

batch_handler-Answers_example :
    (reps : List Representation) × (db' : Memory) × (batch_handler lfs post fresh one_user
      ≡ (some (write [] (set_header (lit "Content-Type") meta_media_type fresh)), db'))
    × Answers server_env one_user (some (vars_of u_and_p) ∷ []) reps db'
batch_handler-Answers_example =
    batch_handler-Answers server_env disk json no_text memory-IsBolt codec-IsGob post
      (vars_of [] ∷ []) one_user refl one_user-IsSound u-admitted
