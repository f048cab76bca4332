-- ===== src/Handlers.antt =====
-- The request handlers of server.go. A handler takes the response so far and the states of the two
-- stores, and returns them. Logging is left out.
pub mod Guard
pub mod Lfs
pub mod Links
pub mod Batch
pub mod Cloud
pub mod Cassandra
pub mod Mysql
use lfs_server_go.Prelude.{
  ℕ, Bool, true, false, ◌&&◌, Option, none, some, List, [], ◌∷◌, ◌++◌, if◌then◌else◌,
}
use lfs_server_go.Text.{Bytes, lit, ◌==◌}
use lfs_server_go.Errors.{Error, Result, ok, err, is_auth_error, message}
use lfs_server_go.Types.{RequestVars, MetaObject, Representation}
use lfs_server_go.Server.{
  App, Request, ResponseWriter, set_header, write_header, write, meta_media_type, represent, unpack,
  unpackbatch, write_status, require_auth,
}

-- How the loop of `BatchHandler` ends: with the response's objects, with an authorization error,
-- or by a panic on a nil object.
pub data BatchEnd : Type 0 where
  collected : List Representation → BatchEnd
  unauthorized panicked : BatchEnd

-- The body of the 500 of `PutHandler`.
abbrev pub error_body : Error → Bytes
error_body e = lit "{\"message\":\"" ++ message e ++ lit "\"}"

module _ {M C : Type 0} (app : App M C) where
  open app use {content_store, meta_store, cfg, json, status_text}

  -- The answer to an error of the metadata store.
  unfoldable pub refuse : Request → Error → ResponseWriter → ResponseWriter
  unfolding is_auth_error
  refuse r e w =
      if is_auth_error e then require_auth status_text r w else write_status status_text r 404 w

  unfoldable pub get_content_handler : Request → ResponseWriter → M → C → ResponseWriter
  get_content_handler r w m c = elim (meta_store.get (unpack json r) m) [
    | err e ↦ refuse r e w
    | ok meta ↦ elim (content_store.get meta c) [
      | err e ↦ write_status status_text r 404 w
      | ok content ↦ write content.content w
    ]
  ]

  unfoldable pub get_search_handler : Request → ResponseWriter → M → ResponseWriter
  get_search_handler r w m = elim (meta_store.get (unpack json r) m) [
    | err e ↦ refuse r e w
    | ok meta ↦ write_status status_text r 200 w
  ]

  unfoldable pub get_meta_handler : Request → ResponseWriter → M → ResponseWriter
  get_meta_handler r w m = elim (meta_store.get (unpack json r) m) [
    | err e ↦ refuse r e w
    | ok meta ↦
        let w2 = set_header (lit "Content-Type") meta_media_type w in
        if r.method == lit "GET"
        then write (json.encode_representation (represent cfg (unpack json r) meta true false)) w2
        else w2
  ]

  -- The status of `PostHandler`, once the object's metadata is there.
  unfoldable pub sent_status : MetaObject → C → ℕ
  sent_status meta c = if meta.existing && content_store.exists meta c then 200 else 202

  unfoldable pub post_reply : Request → MetaObject → ResponseWriter → C → ResponseWriter
  post_reply r meta w c =
      write (json.encode_representation (represent cfg (unpack json r) meta meta.existing true))
        (write_header (sent_status meta c) (set_header (lit "Content-Type") meta_media_type w))

  unfoldable pub post_handler : Request → ResponseWriter → M → C → Option ResponseWriter × M
  post_handler r w m c =
      let (result, m') = meta_store.put (unpack json r) m in
      (
        elim result [
          | none ↦ none
          | some (err e) ↦ some (refuse r e w)
          | some (ok meta) ↦ some (post_reply r meta w c)
        ],
        m',
      )

  -- The loop of `BatchHandler`, with the objects of the response so far.
  unfoldable pub collect : List (Option RequestVars) → List Representation → M → BatchEnd × M
  unfolding is_auth_error
  collect [] reps m = (collected reps, m)
  collect (none ∷ rest) reps m = (panicked, m)
  collect (some v ∷ rest) reps m = elim (meta_store.get v m) [
    | ok meta ↦ collect rest (reps ++ represent cfg v meta true false ∷ []) m
    | err e ↦ elim (is_auth_error e) [
      | true ↦ (unauthorized, m)
      | false ↦
          let (result, m') = meta_store.put v m in
          elim result [
            | none ↦ (panicked, m')
            | some (ok meta) ↦
                collect rest (reps ++ represent cfg v meta meta.existing true ∷ []) m'
            | some (err _) ↦ collect rest reps m'
          ]
    ]
  ]

  -- The response after the loop; `none` is a panic.
  unfoldable pub batch_reply : Request → BatchEnd → ResponseWriter → Option ResponseWriter
  batch_reply r (collected reps) w =
      some (write (json.encode_objects reps) (set_header (lit "Content-Type") meta_media_type w))
  batch_reply r unauthorized w = some (require_auth status_text r w)
  batch_reply r panicked w = none

  unfoldable pub batch_handler : Request → ResponseWriter → M → Option ResponseWriter × M
  batch_handler r w m = elim (unpackbatch json r) [
    | none ↦ (none, m)
    | some vs ↦ let (end, m') = collect vs [] m in (batch_reply r end w, m')
  ]

  unfoldable pub put_handler : Request → ResponseWriter → M → C → ResponseWriter × C
  put_handler r w m c = elim (meta_store.get (unpack json r) m) [
    | err e ↦ (refuse r e w, c)
    | ok meta ↦
        let (failed, c') = content_store.put meta r.body c in
        (elim failed [ none ↦ w | some e ↦ write (error_body e) (write_header 500 w) ], c')
  ]
