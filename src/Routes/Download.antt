-- ===== src/Routes/Download.antt =====
-- GetContentHandler of server.go over the file store, after any sequence of requests: the body that
-- it sends. The error of `io.Copy` is dropped, so the status is 200 whatever the reading comes to.
use lfs_server_go.Prelude.{
  ℕ, ◌≡◌, sym, inl, inr, true, none, some, List, [], arith, Bool-cases, Option-cases, take, All,
}
use mathlib.Core.Path.{subst}
use lfs_server_go.Text.{Bytes}
use lfs_server_go.Errors.{Error, ok}
use lfs_server_go.Types.{MetaObject}
use lfs_server_go.Bolt.{IsBolt, IsGob}
use lfs_server_go.MetaStore.{Env}
use lfs_server_go.ContentStore.{Storage, Files, Reader, path_of, sha_str, opened_file}
use lfs_server_go.ContentStore as ContentStore
use lfs_server_go.ContentStore.Intact.{IsOid, IsIntact}
use lfs_server_go.Server.{App, Json, Request, fresh, code_of, unpack, write}
use lfs_server_go.Handlers.{get_content_handler}
use lfs_server_go.Handlers.Guard.{content_handlers-code, get_content_handler-ok}
use lfs_server_go.Handlers.Lfs.{lfs_app}
use lfs_server_go.Mgmt.{Web}
use lfs_server_go.Routes.{Mux, Event, serve, downloaded}
use lfs_server_go.Routes.History.{IsHealthy, IsPlainUpload, get-oid, serve-IsHealthy}

module _ (st : Storage) (oid : Bytes) (fs : Files) where
  -- What is sent for an oid: a content with this hash, from its file; the first bytes of one, where
  -- reading it fails; or nothing, where its path is a directory.
  pub data IsSent : Bytes → Type 0 where
    whole :
        (content : Bytes)
        → fs (path_of st oid) ≡ some content
        → st.faults.read (path_of st oid) content ≡ none
        → sha_str st content ≡ oid
        → IsSent content
    broken :
        (content : Bytes) (e : Error) (n : ℕ)
        → fs (path_of st oid) ≡ some content
        → st.faults.read (path_of st oid) content ≡ some (e, n)
        → sha_str st content ≡ oid
        → IsSent (take n content)
    directory : st.is_directory fs (path_of st oid) ≡ true → IsSent []

module _ (st : Storage) (meta : MetaObject) (fs : Files) (po : IsOid meta.oid)
    (intact : IsIntact st fs) where
  -- What an open file yields is such.
  opened_file-IsSent :
      (content : Bytes)
      → fs (path_of st meta.oid) ≡ some content
      → IsSent st meta.oid fs (opened_file st (path_of st meta.oid) content).content
  unfolding opened_file
  opened_file-IsSent content there =
      let hashed = intact meta.oid content po there in
      elim (Option-cases (st.faults.read (path_of st meta.oid) content)) [
        | inl read ↦ rw (read, opened_file) (whole content there read hashed)
        | inr ((e, n), failed) ↦ rw (failed, opened_file) (broken content e n there failed hashed)
      ]

  -- What a Get yields is such, where the files are what their oids say.
  get-IsSent : (r : Reader) → ContentStore.get st meta fs ≡ ok r → IsSent st meta.oid fs r.content
  unfolding ContentStore.get
  get-IsSent r got = elim (Bool-cases (st.is_directory fs (path_of st meta.oid))) [
    | inl above ↦
        let empty : [] ≡ r.content = ground arith in
        subst (IsSent st meta.oid fs) empty (directory above)
    | inr file ↦ elim (Option-cases (fs (path_of st meta.oid))) [
      | inl missing ↦ absurd (ground arith)
      | inr (content, there) ↦
          let same : opened_file st (path_of st meta.oid) content ≡ r = ground arith in
          subst (λ (x : Reader). IsSent st meta.oid fs x.content) same
            (opened_file-IsSent content there)
    ]
  ]

module _ {DB Conn : Type 0} (env : Env DB Conn) (lawful : IsBolt env.bolt) (codec : IsGob env.gob)
    (st : Storage) (json : Json) (status_text : ℕ → Bytes) (web : Web) (mux : Mux) where
  abbrev server : App DB Files
  server = lfs_app env st json status_text

  download :
      (x : DB × Files) (r : Request)
      → IsHealthy env st x
      → IsOid (unpack json r).oid
      → code_of (get_content_handler server r fresh x.0 x.1) ≡ 200
      → IsSent st (unpack json r).oid x.1 (get_content_handler server r fresh x.0 x.1).body
  unfolding write
  download (db, fs) r h po answered =
      let (meta, content, got, there) = (content_handlers-code server r db fs).0.0 answered in
      let same : meta.oid ≡ (unpack json r).oid =
        get-oid env lawful codec (unpack json r) db meta h.sound got in
      rw (get_content_handler-ok server r db fs meta content got there) (
        subst (λ oid. IsSent st oid fs content.content) same
          (get-IsSent st meta fs (subst IsOid (sym same) po) h.intact content there))

  -- After any sequence of requests, where the oids of uploaded contents have no slashes and periods,
  -- to a server with a sound database and objects on the disk that are what their oids say: what a
  -- GET of a content, of an oid without slashes and periods, sends with status 200 is a content with
  -- the SHA-256 that is the oid of the request, as the file of the oid holds it; the first bytes of
  -- that content, where reading the file fails; or nothing, where the path of the oid is a directory.
  pub serve-download :
      (es : List (Event DB)) (db : DB) (fs : Files) (r : Request)
      → All (IsPlainUpload json mux) es
      → IsHealthy env st (db, fs)
      → IsOid (unpack json r).oid
      → code_of (downloaded server web mux es db fs r) ≡ 200
      → IsSent st
          (unpack json r).oid
          (serve server web mux es db fs).1
          (downloaded server web mux es db fs r).body
  serve-download es db fs r plain h po answered =
      download (serve server web mux es db fs) r
        (serve-IsHealthy env lawful codec st json status_text web mux es db fs plain h) po answered
