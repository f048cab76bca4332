-- ===== src/Routes/Session.antt =====
-- A client of the server of main.go, with the bolt store and the file store, request by request.
use lfs_server_go.Prelude.{ℕ, ◌≡◌, ap, true, Option, none, some, ◌++◌}
use lfs_server_go.Text.{Bytes}
use lfs_server_go.Types.{RequestVars}
use lfs_server_go.Bolt.{IsBolt, IsGob}
use lfs_server_go.MetaStore.{Env, authenticate, new_object}
use lfs_server_go.MetaStore.Invariant.{IsSound}
use lfs_server_go.MetaStore.Objects.{view}
use lfs_server_go.MetaStore.Creation.{Fits}
use lfs_server_go.ContentStore.{Storage, Files}
use lfs_server_go.ContentStore as ContentStore
use lfs_server_go.ContentStore.Uploads.{IsWorking, IsReadable}
use lfs_server_go.Server.{App, Json, ResponseWriter, reply_code}
use lfs_server_go.Handlers.Lfs.{lfs_app, IsSession, post_upload_download}
use lfs_server_go.Mgmt.{Web}
use lfs_server_go.Routes.{
  Page, Mux, Event, Answer, find_route, lfs_routes, mgmt_routes, with_vars, run_page, serve_http,
}
use lfs_server_go.Routes.Contents.{serve_http-routed}

-- The body of the answer, if there is one.
abbrev pub reply_body : Option ResponseWriter → Option Bytes
reply_body none = none
reply_body (some w) = some w.body

-- The router sends the request to the page, with these variables.
module _ {M : Type 0} (mux : Mux) where
  abbrev pub IsRouted : Event M → Page → (Bytes → Bytes) → Type 0
  IsRouted e page vars =
      find_route mux (lfs_routes ++ mgmt_routes) e.path e.request ≡ some (page, vars)

module _ {DB Conn : Type 0} (env : Env DB Conn) (st : Storage) (json : Json)
    (status_text : ℕ → Bytes) (web : Web) (mux : Mux) where
  abbrev server : App DB Files
  server = lfs_app env st json status_text

  abbrev pub answer : Event DB → DB → Files → Answer DB Files
  answer e = serve_http server web e.salt e.opened mux e.path e.request

  answer-routed :
      (e : Event DB) (page : Page) (vars : Bytes → Bytes) (db : DB) (fs : Files)
      → IsRouted mux e page vars
      → answer e db fs
        ≡ run_page server web e.salt e.opened page vars (with_vars vars e.request) db fs
  answer-routed e page vars db fs h =
      serve_http-routed server web e.salt e.opened mux e.path e.request db fs page vars h

  module _ (lawful : IsBolt env.bolt) (codec : IsGob env.gob)
      (disk : (db : DB) → env.bolt.commit db ≡ none) where
    -- Three requests of a client that the router sends to PostHandler, PutHandler and
    -- GetContentHandler, about an object that the server does not have; with a sound database, an
    -- authorization that is taken, sizes that bolt takes and disks that refuse nothing (the file can
    -- be read afterwards, and is no directory): ServeHTTP answers 202, 200, and 200 with the bytes that were uploaded.
    pub routed_session :
        (post upload download : Event DB) (v1 v2 v3 : Bytes → Bytes) (rv : RequestVars) (db : DB)
        (fs : Files)
        → IsRouted mux post Page.post v1
        → IsRouted mux upload Page.put_content v2
        → IsRouted mux download Page.get_content v3
        → IsSession env st json status_text
            (with_vars v1 post.request)
            (with_vars v2 upload.request)
            (with_vars v3 download.request)
            rv
        → IsSound env db
        → authenticate env rv.authorization db ≡ true
        → view env rv.oid db ≡ none
        → Fits env lawful rv
        → IsWorking st (new_object rv) upload.request.body.content fs
        → IsReadable st rv.oid upload.request.body.content
            (ContentStore.put st (new_object rv) upload.request.body fs).1
        → let posted = answer post db fs in
          let stored = answer upload posted.meta posted.content in
          let got = answer download stored.meta stored.content in
          (reply_code posted.reply ≡ some 202)
          × (reply_code stored.reply ≡ some 200)
          × (reply_code got.reply ≡ some 200)
          × (reply_body got.reply ≡ some upload.request.body.content)
    unfolding run_page
    routed_session post upload download v1 v2 v3 rv db fs r1 r2 r3 x s admitted new fits w
          readable =
        let (announced, taken, found, same) =
          post_upload_download env st json status_text lawful codec disk (with_vars v1 post.request)
            (with_vars v2 upload.request) (with_vars v3 download.request) rv db fs x s admitted new
            fits w readable in
        rw (answer-routed post Page.post v1 db fs r1) (
          rw (answer-routed upload Page.put_content v2 _ fs r2) (
            rw (answer-routed download Page.get_content v3 _ _ r3)
              (announced, ap some taken, ap some found, ap some same)))
