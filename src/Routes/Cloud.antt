-- ===== src/Routes/Cloud.antt =====
-- The server of main.go with the bolt store and the S3 store, over any sequence of requests.
use lfs_server_go.Prelude.{ℕ, ◌≡◌, sym, Option, List, [], ◌∷◌, All}
use mathlib.Core.Path.{subst}
use lfs_server_go.Text.{Bytes}
use lfs_server_go.Errors.{ok}
use lfs_server_go.Types.{RequestVars, MetaObject}
use lfs_server_go.Bolt.{IsBolt, IsGob}
use lfs_server_go.MetaStore.{Env}
use lfs_server_go.MetaStore.Invariant.{IsSound}
use lfs_server_go.ContentStore.{Reader}
use lfs_server_go.ContentStore.Intact.{IsOid}
use lfs_server_go.AwsContentStore.{AwsStorage, IsS3}
use lfs_server_go.AwsContentStore.Uploads.{IsIntact, aws_put-IsIntact}
use lfs_server_go.Server.{App, Json, unpack}
use lfs_server_go.Handlers.Lfs.{bolt_store}
use lfs_server_go.Handlers.Cloud.{s3_app}
use lfs_server_go.Mgmt.{Web}
use lfs_server_go.Routes.{Mux, Event, with_vars, serve}
use lfs_server_go.Routes.Preserved.{KeepsMeta, serve_http-meta}
use lfs_server_go.Routes.Contents.{serve_http-content}
use lfs_server_go.Routes.History.{IsPlainUpload, bolt_store-IsSound, get-oid}

-- Of any two stores: what the methods of the first keep, so that its Get answers with the oid that
-- was asked for, and what a Put of a plain oid keeps of the second.
module _ {M C : Type 0} (app : App M C) (web : Web) (mux : Mux) (P : M → Type 0) (Q : C → Type 0)
    (kept : KeepsMeta app.meta_store P)
    (named : (rv : RequestVars) (m : M) (meta : MetaObject)
      → P m
      → app.meta_store.get rv m ≡ ok meta
      → meta.oid ≡ rv.oid)
    (stored : (meta : MetaObject) (r : Reader) (c : C)
      → IsOid meta.oid
      → Q c
      → Q (app.content_store.put meta r c).1) where
  serve_keeps_both :
      (es : List (Event M)) (m : M) (c : C)
      → All (IsPlainUpload app.json mux) es
      → P m
      → Q c
      → P (serve app web mux es m c).0 × Q (serve app web mux es m c).1
  unfolding serve
  serve_keeps_both [] m c plain p q = (p, q)
  serve_keeps_both (e ∷ es) m c plain p q =
      serve_keeps_both es _ _ plain.1
        (serve_http-meta app web P kept e.salt e.opened mux e.path e.request m c p)
        (serve_http-content app web e.salt e.opened Q mux e.path e.request m c q
          (λ vars meta found got.
            stored meta e.request.body c
              (subst IsOid (sym (named (unpack app.json (with_vars vars e.request)) m meta p got))
                (plain.0 vars found))
              q))

module _ {DB Conn B : Type 0} (env : Env DB Conn) (lawful : IsBolt env.bolt) (codec : IsGob env.gob)
    (st : AwsStorage B) (object : B → Bytes → Option Bytes) (s3_lawful : IsS3 st.s3 object)
    (json : Json) (status_text : ℕ → Bytes) (web : Web) (mux : Mux) where
  abbrev cloud_server : App DB B
  cloud_server = s3_app (bolt_store env) st env.cfg json status_text

  -- Whatever requests a server with the bolt store and the S3 store gets, by every route, where the
  -- oids that are uploaded have no slashes and periods, and whatever S3 answers: a sound database is
  -- sound afterwards, and the key of every oid has the content that the oid is the SHA-256 of.
  pub serve_cloud-IsIntact :
      (es : List (Event DB)) (db : DB) (b : B)
      → All (IsPlainUpload json mux) es
      → IsSound env db
      → IsIntact st object s3_lawful b
      → IsSound env (serve cloud_server web mux es db b).0
        × IsIntact st object s3_lawful (serve cloud_server web mux es db b).1
  serve_cloud-IsIntact es db b plain sound intact =
      serve_keeps_both cloud_server web mux (IsSound env) (IsIntact st object s3_lawful)
        (bolt_store-IsSound env lawful codec)
        (λ rv m meta s got. get-oid env lawful codec rv m meta s got)
        (λ meta r c po q. aws_put-IsIntact st object s3_lawful meta r c po q) es db b plain sound
        intact
