-- ===== src/Handlers/Guard.antt =====
-- The handlers of server.go over any metadata store that refuses a wrong authorization.
use lfs_server_go.Prelude.{
  ◌≡◌, refl, sym, ap, ◌∙◌, ◌↔◌, inl, inr, Bool, true, false, Option, none, some, List, [], ◌∷◌,
  arith, if◌then◌else◌, Option-cases,
}
use mathlib.Core.Path.{subst}
use lfs_server_go.Text.{Bytes, lit}
use lfs_server_go.Errors.{ok, err, forbidden, is_auth_error}
use lfs_server_go.Types.{RequestVars, MetaObject}
use lfs_server_go.MetaStore.Transactions.{Result-cases}
use lfs_server_go.ContentStore.{Reader}
use lfs_server_go.Server.{
  GenericMetaStore, App, Request, ResponseWriter, fresh, code_of, reply_code, unpack, with_route,
  all_with_route, unpackbatch, require_auth, write_status, write, set_header, write_header,
}
use lfs_server_go.Handlers.{
  refuse, get_content_handler, get_search_handler, get_meta_handler, post_handler, collect,
  batch_reply, batch_handler, put_handler, post_reply, sent_status,
}

-- What the handlers need of a metadata store: which authorizations it takes, that it answers the
-- others with an authorization error, and that they leave it as it is.
pub record IsGuarded {M : Type 0} (store : GenericMetaStore M) (admits : Bytes → M → Bool)
    : Type 0 where
  pub get_refused :
      (rv : RequestVars) (m : M)
      → admits rv.authorization m ≡ false
      → store.get rv m ≡ err forbidden
  pub put_refused :
      (rv : RequestVars) (m : M)
      → admits rv.authorization m ≡ false
      → store.put rv m ≡ (some (err forbidden), m)

module _ {M C : Type 0} (app : App M C) where
  open app use {content_store, meta_store, cfg, json, status_text}

  pub unpack-authorization : (r : Request) → (unpack json r).authorization ≡ r.authorization
  unfolding unpack
  unpack-authorization r = ground arith

  -- The answer to a request without a valid authorization.
  unfoldable pub challenge : Request → ResponseWriter
  challenge r = require_auth status_text r fresh

  -- The client sees status 401 and the header that asks for a user and a password.
  pub challenge-code :
      (r : Request)
      → ((challenge r).status ≡ some 401)
        × ((challenge r).header ≡ (lit "Lfs-Authenticate", lit "Basic realm=lfs-server-go") ∷ [])
  unfolding challenge require_auth write_status write set_header write_header
  challenge-code r = (refl, refl)

  refuse-forbidden : (r : Request) → refuse app r forbidden fresh ≡ challenge r
  unfolding refuse challenge is_auth_error
  refuse-forbidden r = refl

  module _ (admits : Bytes → M → Bool) (guarded : IsGuarded meta_store admits) where
    -- A request whose authorization the metadata store does not take is answered by the challenge
    -- in each of the five handlers of one object, and neither store changes.
    pub refused_everywhere :
        (r : Request) (m : M) (c : C)
        → admits r.authorization m ≡ false
        → (get_content_handler app r fresh m c ≡ challenge r)
          × (get_search_handler app r fresh m ≡ challenge r)
          × (get_meta_handler app r fresh m ≡ challenge r)
          × (post_handler app r fresh m c ≡ (some (challenge r), m))
          × (put_handler app r fresh m c ≡ (challenge r, c))
    unfolding get_content_handler get_search_handler get_meta_handler post_handler put_handler
    refused_everywhere r m c h =
        let bad : admits (unpack json r).authorization m ≡ false =
          ap (λ a. admits a m) (unpack-authorization r) ∙ h in
        let got = guarded.get_refused (unpack json r) m bad in
        let put_nothing = guarded.put_refused (unpack json r) m bad in
        (
          rw (got, get_content_handler) (refuse-forbidden r),
          rw (got, get_search_handler) (refuse-forbidden r),
          rw (got, get_meta_handler) (refuse-forbidden r),
          rw (put_nothing, post_handler) (ap (λ w. (some w, m)) (refuse-forbidden r)),
          rw (got, put_handler) (ap (λ w. (w, c)) (refuse-forbidden r)),
        )

    unpackbatch-ok :
        (r : Request) (v : RequestVars) (vs rest : List (Option RequestVars))
        → json.decode_batch_vars r.body ≡ (some v ∷ vs, none)
        → all_with_route r vs ≡ some rest
        → unpackbatch json r ≡ some (some (with_route r v) ∷ rest)
    unfolding unpackbatch all_with_route
    unpackbatch-ok r v vs rest decoded routed =
        subst
          (λ p.
            elim p.1 [ some e ↦ some p.0 | none ↦ all_with_route r p.0 ]
            ≡ some (some (with_route r v) ∷ rest))
          (sym decoded) (rw (routed, all_with_route) refl)

    -- A batch whose request has an authorization that the metadata store does not take, and whose
    -- body decodes without an error to at least one object, none of them nil, is answered by the
    -- challenge whatever its objects say of the authorization, and the metadata does not change.
    pub batch_refused :
        (r : Request) (m : M) (v : RequestVars) (vs rest : List (Option RequestVars))
        → admits r.authorization m ≡ false
        → json.decode_batch_vars r.body ≡ (some v ∷ vs, none)
        → all_with_route r vs ≡ some rest
        → batch_handler app r fresh m ≡ (some (challenge r), m)
    unfolding batch_handler collect batch_reply is_auth_error challenge
    batch_refused r m v vs rest h decoded routed =
        let got = guarded.get_refused (with_route r v) m h in
        rw (unpackbatch-ok r v vs rest decoded routed, batch_handler) (rw (got, collect) refl)

  -- The answers of the handlers where the stores do what they are asked.
  pub post_handler-created :
      (r : Request) (m : M) (c : C) (meta : MetaObject)
      → (meta_store.put (unpack json r) m).0 ≡ some (ok meta)
      → meta.existing ≡ false
      → reply_code (post_handler app r fresh m c).0 ≡ some 202
  unfolding post_handler post_reply sent_status write write_header set_header
  post_handler-created r m c meta made new = rw (made, post_handler) (rw new refl)

  pub post_handler-existed :
      (r : Request) (m : M) (c : C) (meta : MetaObject)
      → (meta_store.put (unpack json r) m).0 ≡ some (ok meta)
      → meta.existing ≡ true
      → reply_code (post_handler app r fresh m c).0
        ≡ some (if content_store.exists meta c then 200 else 202)
  unfolding post_handler post_reply sent_status write write_header set_header
  post_handler-existed r m c meta made old = rw (made, post_handler) (rw old refl)

  pub put_handler-ok :
      (r : Request) (m : M) (c : C) (meta : MetaObject)
      → meta_store.get (unpack json r) m ≡ ok meta
      → (content_store.put meta r.body c).0 ≡ none
      → put_handler app r fresh m c ≡ (fresh, (content_store.put meta r.body c).1)
  unfolding put_handler
  put_handler-ok r m c meta got taken = rw (got, put_handler) (rw (taken, put_handler) refl)

  pub get_content_handler-ok :
      (r : Request) (m : M) (c : C) (meta : MetaObject) (content : Reader)
      → meta_store.get (unpack json r) m ≡ ok meta
      → content_store.get meta c ≡ ok content
      → get_content_handler app r fresh m c ≡ write content.content fresh
  unfolding get_content_handler
  get_content_handler-ok r m c meta content got there =
      rw (got, get_content_handler) (rw (there, get_content_handler) refl)

  -- GET of an object's content answers 200 exactly when both stores have the object.
  get_content_handler-code :
      (r : Request) (m : M) (c : C)
      → (code_of (get_content_handler app r fresh m c) ≡ 200) ↔ (
          (meta : MetaObject) × (content : Reader) × (meta_store.get (unpack json r) m ≡ ok meta)
          × (content_store.get meta c ≡ ok content))
  unfolding get_content_handler refuse require_auth write_status write set_header write_header
  get_content_handler-code r m c =
      (found, λ x. rw (x.2, get_content_handler) (rw (x.3, get_content_handler) refl))
    where
      found :
          code_of (get_content_handler app r fresh m c) ≡ 200
          → (meta : MetaObject) × (content : Reader) × (meta_store.get (unpack json r) m ≡ ok meta)
            × (content_store.get meta c ≡ ok content)
      found h = elim (Result-cases (meta_store.get (unpack json r) m)) [
        | inr (e, bad) ↦ absurd (ground arith)
        | inl (meta, got) ↦ elim (Result-cases (content_store.get meta c)) [
          | inr (e, bad) ↦ absurd (ground arith)
          | inl (content, there) ↦ (meta, content, got, there)
        ]
      ]

  -- PUT of a content answers 200 exactly when the object is known and the content store takes the
  -- body as its content.
  put_handler-code :
      (r : Request) (m : M) (c : C)
      → (code_of (put_handler app r fresh m c).0 ≡ 200) ↔ (
          (meta : MetaObject) × (meta_store.get (unpack json r) m ≡ ok meta)
          × ((content_store.put meta r.body c).0 ≡ none))
  unfolding put_handler refuse require_auth write_status write set_header write_header
  put_handler-code r m c = (taken, λ x. rw (x.1, put_handler) (rw (x.2, put_handler) refl))
    where
      taken :
          code_of (put_handler app r fresh m c).0 ≡ 200
          → (meta : MetaObject) × (meta_store.get (unpack json r) m ≡ ok meta)
            × ((content_store.put meta r.body c).0 ≡ none)
      taken h = elim (Result-cases (meta_store.get (unpack json r) m)) [
        | inr (e, bad) ↦ absurd (ground arith)
        | inl (meta, got) ↦ elim (Option-cases (content_store.put meta r.body c).0) [
          | inl fine ↦ (meta, got, fine)
          | inr (e, bad) ↦ absurd (ground arith)
        ]
      ]

  -- GET of a content answers 200 exactly when both stores return the object, and PUT of a content
  -- exactly when the object is known and the content store takes the body as its content.
  pub content_handlers-code :
      (r : Request) (m : M) (c : C)
      → ((code_of (get_content_handler app r fresh m c) ≡ 200) ↔ (
          (meta : MetaObject) × (content : Reader) × (meta_store.get (unpack json r) m ≡ ok meta)
          × (content_store.get meta c ≡ ok content)))
        × ((code_of (put_handler app r fresh m c).0 ≡ 200) ↔ (
            (meta : MetaObject) × (meta_store.get (unpack json r) m ≡ ok meta)
            × ((content_store.put meta r.body c).0 ≡ none)))
  content_handlers-code r m c = (get_content_handler-code r m c, put_handler-code r m c)
