-- ===== src/Routes/History.antt =====
-- The server of main.go with the bolt store and the file store, over any sequence of requests.
use lfs_server_go.Prelude.{
  ℕ, ◌≡◌, sym, ap, ◌∙◌, inl, inr, some, List, [], ◌∷◌, ◌++◌, arith, Bool-cases, Option-cases, All,
}
use mathlib.Core.Path.{subst}
use lfs_server_go.Text.{Bytes, ◌==◌}
use lfs_server_go.Text.Laws.{eq_iff}
use lfs_server_go.Errors.{ok}
use lfs_server_go.Types.{RequestVars, MetaObject}
use lfs_server_go.Bolt.{IsBolt, IsGob}
use lfs_server_go.MetaStore.{Env, get, authenticate}
use lfs_server_go.MetaStore.Invariant.{IsSound}
use lfs_server_go.MetaStore.Objects.{view, view_fields, get-eq-view}
use lfs_server_go.MetaStore.History.{
  Call, put_call, add_user_call, delete_user_call, add_project_call, step-IsSound, step-view,
}
use lfs_server_go.MetaStore.History as History
use lfs_server_go.ContentStore.{Storage, Files, Reader, path_of, tmp_path_of}
use lfs_server_go.ContentStore as ContentStore
use lfs_server_go.ContentStore.Integrity.{IsStored}
use lfs_server_go.ContentStore.Uploads.{put-IsStored, put-err}
use lfs_server_go.ContentStore.Intact.{IsOid, IsIntact, tmp_path_of-ne-path_of, put-IsIntact}
use lfs_server_go.Server.{App, Json, unpack}
use lfs_server_go.Handlers.Lfs.{bolt_store, lfs_app}
use lfs_server_go.Mgmt.{Web}
use lfs_server_go.Routes.{
  Page, Mux, Event, find_route, lfs_routes, mgmt_routes, with_vars, serve_http, serve,
}
use lfs_server_go.Routes.Preserved.{KeepsMeta, serve_http-meta}
use lfs_server_go.Routes.Contents.{serve_http-content}

-- A database that is sound, and objects on the disk that are what their oids say.
pub record IsHealthy {DB Conn : Type 0} (env : Env DB Conn) (st : Storage) (x : DB × Files)
    : Type 0 where
  pub sound : IsSound env x.0
  pub intact : IsIntact st x.1

-- A PUT of a content is of an oid without slashes and periods.
module _ {DB : Type 0} (json : Json) (mux : Mux) where
  abbrev pub IsPlainUpload : Event DB → Type 0
  IsPlainUpload e =
      (vars : Bytes → Bytes)
      → find_route mux (lfs_routes ++ mgmt_routes) e.path e.request ≡ some (Page.put_content, vars)
      → IsOid (unpack json (with_vars vars e.request)).oid

module _ {DB Conn : Type 0} (env : Env DB Conn) (lawful : IsBolt env.bolt)
    (codec : IsGob env.gob) where
  pub bolt_store-IsSound : KeepsMeta (bolt_store env) (IsSound env)
  unfolding History.step
  bolt_store-IsSound = record {
    put = λ rv. step-IsSound env lawful codec (put_call rv);
    delete_user = λ user. step-IsSound env lawful codec (delete_user_call user);
    add_user = λ salt user pass. step-IsSound env lawful codec (add_user_call salt user pass);
    add_project = λ name. step-IsSound env lawful codec (add_project_call name);
  }

  -- The object is in a sound database.
  abbrev Knows : Bytes → MetaObject → DB → Type 0
  Knows oid meta db = IsSound env db × (view env oid db ≡ some meta)

  bolt_store-Knows : (oid : Bytes) (meta : MetaObject) → KeepsMeta (bolt_store env) (Knows oid meta)
  unfolding History.step
  bolt_store-Knows oid meta = record {
    put = λ rv db k. call (put_call rv) db k;
    delete_user = λ user db k. call (delete_user_call user) db k;
    add_user = λ salt user pass db k. call (add_user_call salt user pass) db k;
    add_project = λ name db k. call (add_project_call name) db k;
  }
    where
      call : (c : Call) (db : DB) → Knows oid meta db → Knows oid meta (History.step env c db)
      call c db (s, seen) =
          (step-IsSound env lawful codec c db s, step-view env lawful codec c db oid meta s seen)

  -- What Get finds in a sound database has the oid that was asked for.
  pub get-oid :
      (rv : RequestVars) (db : DB) (meta : MetaObject)
      → IsSound env db
      → get env rv db ≡ ok meta
      → meta.oid ≡ rv.oid
  get-oid rv db meta s got = elim (Bool-cases (authenticate env rv.authorization db)) [
    | inr refused ↦ absurd (ground (arith, get-eq-view env rv db s))
    | inl admitted ↦ elim (Option-cases (view env rv.oid db)) [
      | inl missing ↦ absurd (ground (arith, get-eq-view env rv db s))
      | inr (m, there) ↦
          let same : m ≡ meta = ground (arith, get-eq-view env rv db s) in
          ap (λ (o : MetaObject). o.oid) (sym same) ∙ (view_fields env rv.oid db m s there).0
    ]
  ]

module _ {DB Conn : Type 0} (env : Env DB Conn) (lawful : IsBolt env.bolt) (codec : IsGob env.gob)
    (st : Storage) (json : Json) (status_text : ℕ → Bytes) (web : Web) (mux : Mux) where
  abbrev server : App DB Files
  server = lfs_app env st json status_text

  -- The file of the object is there.
  abbrev IsHeld : Bytes → Files → Type 0
  IsHeld oid fs = (content : Bytes) × (fs (path_of st oid) ≡ some content)

  put-IsHeld :
      (meta : MetaObject) (r : Reader) (oid : Bytes) (fs : Files)
      → IsOid meta.oid
      → IsOid oid
      → IsHeld oid fs
      → IsHeld oid (ContentStore.put st meta r fs).1
  put-IsHeld meta r oid fs pm po (content, there) =
      elim (Option-cases (ContentStore.put st meta r fs).0) [
        | inl accepted ↦
            let files = IsStored.files (put-IsStored st meta r fs accepted) (path_of st oid) in
            elim (Bool-cases (path_of st meta.oid == path_of st oid)) [
              | inl here ↦ (r.content, ground (arith, files))
              | inr other ↦ (content, ground (arith, files))
            ]
        | inr (e, refused) ↦ elim (Bool-cases (tmp_path_of st meta.oid == path_of st oid)) [
          | inl same ↦ absurd (tmp_path_of-ne-path_of st meta.oid oid pm po ((eq_iff _ _).0 same))
          | inr other ↦
              (content, put-err st meta r fs e (path_of st oid) refused (inl other) ∙ there)
        ]
      ]

  module _ (e : Event DB) (db : DB) (fs : Files) (plain : IsPlainUpload json mux e)
      (sound : IsSound env db) where
    -- What a request leaves of the files, where a Put of a plain oid keeps it.
    answer-content :
        (Q : Files → Type 0)
        → Q fs
        → ((meta : MetaObject) (r : Reader) → IsOid meta.oid → Q (ContentStore.put st meta r fs).1)
        → Q (serve_http server web e.salt e.opened mux e.path e.request db fs).content
    answer-content Q q stored =
        serve_http-content server web e.salt e.opened Q mux e.path e.request db fs q
          (λ vars meta found got. stored meta e.request.body (
            subst IsOid
              (sym (
                get-oid env lawful codec (unpack json (with_vars vars e.request)) db meta sound
                  got))
              (plain vars found)))

    answer-meta :
        (P : DB → Type 0)
        → KeepsMeta (bolt_store env) P
        → P db
        → P (serve_http server web e.salt e.opened mux e.path e.request db fs).meta
    answer-meta P kept p =
        serve_http-meta server web P kept e.salt e.opened mux e.path e.request db fs p

  -- Whatever requests a server with the bolt store and the file store gets, by every route, with or
  -- without authorization, well formed or not, where the oids that are uploaded have no slashes and
  -- periods: a sound database is sound afterwards, and the objects on the disk are what their oids
  -- say.
  pub serve-IsHealthy :
      (es : List (Event DB)) (db : DB) (fs : Files)
      → All (IsPlainUpload json mux) es
      → IsHealthy env st (db, fs)
      → IsHealthy env st (serve server web mux es db fs)
  unfolding serve
  serve-IsHealthy [] db fs plain h = h
  serve-IsHealthy (e ∷ es) db fs plain h = serve-IsHealthy es _ _ plain.1 (record {
    sound =
        answer-meta e db fs plain.0 h.sound (IsSound env) (bolt_store-IsSound env lawful codec)
          h.sound;
    intact =
        answer-content e db fs plain.0 h.sound (IsIntact st) h.intact
          (λ meta r po. put-IsIntact st meta r fs po h.intact);
  })

  -- An object of a sound database, of an oid without slashes and periods, whose file is on the disk
  -- is in the database, unchanged, and its file is on the disk after any such sequence of requests.
  pub serve_keeps :
      (es : List (Event DB)) (db : DB) (fs : Files) (oid content : Bytes) (meta : MetaObject)
      → All (IsPlainUpload json mux) es
      → IsOid oid
      → IsSound env db
      → view env oid db ≡ some meta
      → fs (path_of st oid) ≡ some content
      → (view env oid (serve server web mux es db fs).0 ≡ some meta)
        × ((later : Bytes) × ((serve server web mux es db fs).1 (path_of st oid) ≡ some later))
  unfolding serve
  serve_keeps [] db fs oid content meta plain po s seen there = (seen, (content, there))
  serve_keeps (e ∷ es) db fs oid content meta plain po s seen there =
      let (s', seen') =
        answer-meta e db fs plain.0 s (Knows env lawful codec oid meta)
          (bolt_store-Knows env lawful codec oid meta) (s, seen) in
      let (content', there') =
        answer-content e db fs plain.0 s (IsHeld oid) (content, there)
          (λ m r pm. put-IsHeld m r oid fs pm po (content, there)) in
      serve_keeps es _ _ oid content' meta plain.1 po s' seen' there'
