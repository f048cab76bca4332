-- ===== src/Examples/Session.antt =====
-- The theorems on sequences of requests, at an object that is announced and uploaded.
use lfs_server_go.Prelude.{
  ◌≡◌, refl, sym, ap, ◌∙◌, inl, inr, none, some, List, [], ◌∷◌, ◌++◌, arith, All, Bool-cases, ◌&&◌,
  if◌then◌else◌,
}
use mathlib.Core.Option.{some-injective}
use lfs_server_go.Text.{Bytes, lit, ◌==◌, before, one_of}
use lfs_server_go.Errors.{ok}
use lfs_server_go.MetaStore.{new_object}
use lfs_server_go.Handlers.{get_content_handler, post_handler, put_handler}
use lfs_server_go.MetaStore.Objects.{view}
use lfs_server_go.ContentStore.{Files, path_of}
use lfs_server_go.ContentStore.Intact.{IsOid}
use lfs_server_go.Server.{
  reply_code, Request, fresh, code_of, unpack, content_matcher, meta_matcher, media_type,
}
use lfs_server_go.Routes.{
  Page, Route, Mux, downloaded, Event, allows, find_route, lfs_routes, mgmt_routes, object_template,
  with_vars, serve, serve_http, run_page,
}
use lfs_server_go.Handlers.Lfs.{post_upload_download}
use lfs_server_go.Routes.Contents.{serve_http-routed}
use lfs_server_go.Routes.History.{IsHealthy, IsPlainUpload, serve-IsHealthy, serve_keeps}
use lfs_server_go.Routes.Download.{IsSent, serve-download}
use lfs_server_go.Examples.Memory.{Memory, memory-IsBolt}
use lfs_server_go.Examples.Codec.{codec-IsGob}
use lfs_server_go.Examples.Setup.{
  server_env, one_user, one_user-IsSound, u_and_p, u-admitted, request_vars, abc_oid,
}
use lfs_server_go.Examples.Store.{no_failure, stocked, stocked-IsSound, stocked-view}
use lfs_server_go.Examples.Disk.{disk, no_files, abc, abc-IsOid, upload-IsReadable}
use lfs_server_go.Examples.Requests.{
  lfs, json, no_text, post, upload_request, download, vars_of, one-IsSession, not_seen, vars-Fits,
  upload_works,
}
use lfs_server_go.MetaStore.Invariant.{IsSound}
use lfs_server_go.AwsContentStore.Uploads.{IsIntact}
use lfs_server_go.Handlers.Lfs.{bolt_store}
use lfs_server_go.Handlers.Cloud.{s3_app}
use lfs_server_go.Routes.Session.{answer, reply_body, routed_session}
use lfs_server_go.Routes.Cloud.{serve_cloud-IsIntact}
use lfs_server_go.Examples.Bucket.{Keys, cloud, held_keys, s3-IsS3, no_keys}
use lfs_server_go.Examples.Admin.{web}

-- The variables of every path.
abbrev variables : Bytes → Bytes
variables name =
    if name == lit "oid" then abc.oid else if name == lit "namespace" then lit "team" else []

abbrev by_template : Mux
by_template = record {
  match_path = λ template path. if template == path then some variables else none;
  not_found = λ w. w;
}

abbrev event : Bytes → Request → Event Memory
event path r = record { path = path; request = r; salt = []; opened = ok one_user }

abbrev announcement : Event Memory
announcement = event (lit "/{namespace}/{repo}/objects") post

abbrev arrival : Event Memory
arrival = event object_template upload_request

abbrev session : List (Event Memory)
session = announcement ∷ arrival ∷ []

posted :
    find_route by_template (lfs_routes ++ mgmt_routes) announcement.path post
    ≡ some (Page.post, variables)
unfolding find_route allows lfs_routes mgmt_routes content_matcher meta_matcher media_type before
    one_of ◌==◌
posted = refl

put_there :
    find_route by_template (lfs_routes ++ mgmt_routes) object_template upload_request
    ≡ some (Page.put_content, variables)
unfolding find_route allows lfs_routes mgmt_routes content_matcher meta_matcher media_type before
    one_of ◌==◌
put_there = refl

get_there :
    find_route by_template (lfs_routes ++ mgmt_routes) object_template download
    ≡ some (Page.get_content, variables)
unfolding find_route allows lfs_routes mgmt_routes content_matcher meta_matcher media_type before
    one_of ◌==◌
get_there = refl

abbrev departure : Event Memory
departure = event object_template download

routed_session_example :
    let posted =
      answer server_env disk json no_text web by_template announcement one_user no_files in
    let stored =
      answer server_env disk json no_text web by_template arrival posted.meta posted.content in
    let got =
      answer server_env disk json no_text web by_template departure stored.meta stored.content in
    (reply_code posted.reply ≡ some 202)
    × (reply_code stored.reply ≡ some 200)
    × (reply_code got.reply ≡ some 200)
    × (reply_body got.reply ≡ some (lit "abc"))
unfolding ◌==◌
routed_session_example =
    routed_session server_env disk json no_text web by_template memory-IsBolt codec-IsGob no_failure
      announcement arrival departure variables variables variables (vars_of u_and_p) one_user
      no_files posted put_there get_there one-IsSession one_user-IsSound u-admitted not_seen
      vars-Fits upload_works (upload-IsReadable _ _ _)

abbrev known : Memory
known = (post_handler lfs post fresh one_user no_files).1

abbrev held : Files
held = (put_handler lfs upload_request fresh known no_files).1

answer_post :
    serve_http lfs web [] (ok one_user) by_template announcement.path post one_user no_files
    ≡ run_page lfs web [] (ok one_user) Page.post variables post one_user no_files
unfolding ◌==◌
answer_post =
    serve_http-routed lfs web [] (ok one_user) by_template announcement.path post one_user no_files
      Page.post variables posted

answer_put :
    serve_http lfs web [] (ok one_user) by_template object_template upload_request known no_files
    ≡ run_page lfs web [] (ok one_user) Page.put_content variables upload_request known no_files
unfolding ◌==◌
answer_put =
    serve_http-routed lfs web [] (ok one_user) by_template object_template upload_request known
      no_files Page.put_content variables put_there

served : serve lfs web by_template session one_user no_files ≡ (known, held)
unfolding serve run_page
served = rw answer_post (rw answer_put refl)

answered : code_of (downloaded lfs web by_template session one_user no_files download) ≡ 200
answered =
    ap (λ (x : Memory × Files). code_of (get_content_handler lfs download fresh x.0 x.1)) served
    ∙ (post_upload_download server_env disk json no_text memory-IsBolt codec-IsGob no_failure post
        upload_request download (vars_of u_and_p) one_user no_files one-IsSession one_user-IsSound
        u-admitted not_seen vars-Fits upload_works (upload-IsReadable _ _ _)).2

-- The routes give the variables of this router.
find_route-variables :
    (routes : List Route) (path : Bytes) (r : Request) (page : Page) (vars : Bytes → Bytes)
    → find_route by_template routes path r ≡ some (page, vars)
    → vars ≡ variables
unfolding find_route
find_route-variables [] path r page vars h = cc
find_route-variables (x ∷ xs) path r page vars h = elim (Bool-cases (x.template == path)) [
  | inr other ↦ find_route-variables xs path r page vars (ground arith)
  | inl here ↦ elim (Bool-cases (allows x.methods r.method && x.matcher r)) [
    | inr refused ↦ find_route-variables xs path r page vars (ground arith)
    | inl taken ↦
        let e : some (x.page, variables) ≡ some (page, vars) = ground (arith) in
        ap (λ (p : Page × (Bytes → Bytes)). p.1) (sym (some-injective _ _ e))
  ]
]

-- Both requests are of the oid of the object.
plain : (r : Request) → (unpack json (with_vars variables r)).oid ≡ abc.oid
unfolding unpack ◌==◌
plain r = elim (Bool-cases (r.method == lit "POST")) [
  | inl announces ↦ ground arith
  | inr other ↦ ground arith
]

event-IsPlainUpload : (e : Event Memory) → IsPlainUpload json by_template e
event-IsPlainUpload e vars found =
    rw
      (find_route-variables (lfs_routes ++ mgmt_routes) e.path e.request Page.put_content vars
        found)
      (rw (plain e.request) abc-IsOid)

session-All : All (IsPlainUpload json by_template) session
session-All = (event-IsPlainUpload announcement, (event-IsPlainUpload arrival, tt))

start-IsHealthy : IsHealthy server_env disk (one_user, no_files)
start-IsHealthy = record {
  sound = one_user-IsSound;
  intact = λ oid content h there. absurd (ground arith);
}

serve-IsHealthy_example :
    IsHealthy server_env disk (serve lfs web by_template session one_user no_files)
serve-IsHealthy_example =
    serve-IsHealthy server_env memory-IsBolt codec-IsGob disk json no_text web by_template session
      one_user no_files session-All start-IsHealthy

download-IsOid : IsOid (unpack json download).oid
unfolding unpack ◌==◌
download-IsOid = abc-IsOid

serve-download_example :
    IsSent disk
      (unpack json download).oid
      (serve lfs web by_template session one_user no_files).1
      (downloaded lfs web by_template session one_user no_files download).body
serve-download_example =
    serve-download server_env memory-IsBolt codec-IsGob disk json no_text web by_template session
      one_user no_files download session-All start-IsHealthy download-IsOid answered

-- A disk of one content.
abbrev full : Files
full p = some (lit "abc")

serve_keeps_example :
    (view server_env abc_oid (serve lfs web by_template session stocked full).0
      ≡ some (new_object request_vars))
    × ((later : Bytes) × ((serve lfs web by_template session stocked full).1 (path_of disk abc_oid)
          ≡ some later))
serve_keeps_example =
    serve_keeps server_env memory-IsBolt codec-IsGob disk json no_text web by_template session
      stocked full abc_oid (lit "abc") (new_object request_vars) session-All abc-IsOid
      stocked-IsSound stocked-view refl

-- The same requests to a server that keeps the contents in the bucket.
abbrev in_cloud : Memory × Keys
in_cloud =
    serve (s3_app (bolt_store server_env) cloud server_env.cfg json no_text) web by_template session
      one_user no_keys

nothing : (p content : Bytes) → held_keys no_keys p ≡ some content → ⊥
unfolding held_keys
nothing p content there = absurd (ground arith)

serve_cloud-IsIntact_example :
    IsSound server_env in_cloud.0 × IsIntact cloud held_keys s3-IsS3 in_cloud.1
serve_cloud-IsIntact_example =
    serve_cloud-IsIntact server_env memory-IsBolt codec-IsGob cloud held_keys s3-IsS3 json no_text
      web by_template session one_user no_keys session-All one_user-IsSound
      (record { hashes = λ oid content plain_oid there. absurd (nothing _ content there) })
