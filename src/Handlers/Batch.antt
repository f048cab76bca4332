-- ===== src/Handlers/Batch.antt =====
-- BatchHandler of server.go over the bolt store: what a batch is answered.
use lfs_server_go.Prelude.{
  ℕ, ◌≡◌, refl, sym, ap, ◌∙◌, inl, inr, true, false, Option, none, some, List, [], ◌∷◌, ◌++◌, arith,
  if◌then◌else◌, Option-cases, All, map,
}
use mathlib.Core.Path.{subst}
use mathlib.Core.List.{append_assoc, append-nil}
use lfs_server_go.Text.{Bytes, lit, ◌==◌}
use lfs_server_go.Errors.{Error, ok, err, object_not_found, is_auth_error}
use lfs_server_go.Types.{RequestVars, MetaObject, Representation}
use lfs_server_go.Bolt.{IsBolt, IsGob}
use lfs_server_go.MetaStore.{Env, authenticate, new_object, get, put}
use lfs_server_go.MetaStore.Invariant.{IsSound}
use lfs_server_go.MetaStore.Invariant.Methods.{put-IsSound}
use lfs_server_go.MetaStore.Objects.{view, get-eq-view}
use lfs_server_go.MetaStore.Objects.Put.{PutSpec, put-PutSpec, refused, existed, created, failed}
use lfs_server_go.MetaStore.Sessions.{put-SameUsers, authenticate_of_same}
use lfs_server_go.ContentStore.{Storage, Files}
use lfs_server_go.Server.{
  App, Json, Request, fresh, represent, with_route, all_with_route, unpackbatch, write, set_header,
  meta_media_type,
}
use lfs_server_go.Handlers.{collect, batch_handler, batch_reply, collected, BatchEnd}
use lfs_server_go.Handlers.Lfs.{lfs_app}
use lfs_server_go.Handlers.Links.{asked, all_with_route-some, linked, represent_link}

-- An object that is there and carries this authorization.
abbrev IsFrom : Bytes → Option RequestVars → Type 0
IsFrom a none = ⊥
IsFrom a (some v) = v.authorization ≡ a

all_with_route-IsFrom :
    (r : Request) (objs vs : List (Option RequestVars))
    → all_with_route r objs ≡ some vs
    → All (IsFrom r.authorization) vs
unfolding all_with_route
all_with_route-IsFrom r [] vs h =
    let e : [] ≡ vs = ground arith in subst (All (IsFrom r.authorization)) e tt
all_with_route-IsFrom r (none ∷ objs) vs h = absurd (ground arith)
all_with_route-IsFrom r (some v ∷ objs) vs h = elim (Option-cases (all_with_route r objs)) [
  | inl bad ↦ absurd (ground arith)
  | inr (rest, good) ↦
      let e : some (with_route r v) ∷ rest ≡ vs = ground arith in
      subst (All (IsFrom r.authorization)) e (refl, all_with_route-IsFrom r objs rest good)
]

module _ {DB Conn : Type 0} (env : Env DB Conn) where
  -- The answers to the objects of a batch, in order, and the metadata after them: a download link
  -- for what is there, an upload link for what Put makes, nothing for what Put fails to make. The
  -- others are answered by the database that Put leaves.
  pub data Answers : DB → List (Option RequestVars) → List Representation → DB → Type 0 where
    done : {db : DB} → Answers db [] [] db
    found :
        {db db' : DB} {v : RequestVars} {vs : List (Option RequestVars)}
        {reps : List Representation} (meta : MetaObject)
        → view env v.oid db ≡ some meta
        → Answers db vs reps db'
        → Answers db (some v ∷ vs) (linked (lit "download") env.cfg v meta.oid meta.size ∷ reps) db'
    added :
        {db db' : DB} {v : RequestVars} {vs : List (Option RequestVars)}
        {reps : List Representation}
        → view env v.oid db ≡ none
        → (put env v db).0 ≡ ok (new_object v)
        → ((oid : Bytes)
            → view env oid (put env v db).1
              ≡ (if v.oid == oid then some (new_object v) else view env oid db))
        → Answers (put env v db).1 vs reps db'
        → Answers db (some v ∷ vs) (linked (lit "upload") env.cfg v v.oid v.size ∷ reps) db'
    left_out :
        {db db' : DB} {v : RequestVars} {vs : List (Option RequestVars)}
        {reps : List Representation} (e : Error)
        → view env v.oid db ≡ none
        → (put env v db).0 ≡ err e
        → ((oid : Bytes) → view env oid (put env v db).1 ≡ view env oid db)
        → Answers (put env v db).1 vs reps db'
        → Answers db (some v ∷ vs) reps db'

  -- How a batch that is not refused ends.
  record Collected (vs : List (Option RequestVars)) (acc : List Representation) (db : DB)
      (end : BatchEnd × DB) : Type 0 where
    pub reps : List Representation
    pub ends : end.0 ≡ collected (acc ++ reps)
    pub answers : Answers db vs reps end.1

  module _ (st : Storage) (json : Json) (status_text : ℕ → Bytes) where
    abbrev app : App DB Files
    app = lfs_app env st json status_text

    collect_found :
        (v : RequestVars) (vs : List (Option RequestVars)) (acc : List Representation) (db : DB)
        (meta : MetaObject)
        → get env v db ≡ ok meta
        → collect app (some v ∷ vs) acc db
          ≡ collect app vs (acc ++ linked (lit "download") env.cfg v meta.oid meta.size ∷ []) db
    unfolding collect
    collect_found v vs acc db meta h =
        rw (h, collect)
          (ap (λ rep. collect app vs (acc ++ rep ∷ []) db) (represent_link env.cfg v meta true))

    collect_put :
        (v : RequestVars) (vs : List (Option RequestVars)) (acc : List Representation) (db : DB)
        → get env v db ≡ err object_not_found
        → collect app (some v ∷ vs) acc db ≡ (elim (put env v db).0 [
          | ok meta ↦
              collect app vs
                (acc ++ represent env.cfg v meta meta.existing true ∷ [])
                (put env v db).1
          | err e ↦ collect app vs acc (put env v db).1
        ])
    unfolding collect is_auth_error
    collect_put v vs acc db h = rw (h, collect) refl

    module _ (lawful : IsBolt env.bolt) (codec : IsGob env.gob) (a : Bytes) where
      -- The answer to the first object goes before those to the others.
      longer :
          (vs ws : List (Option RequestVars)) (acc : List Representation) (rep : Representation)
          (db db1 : DB) (end : BatchEnd × DB)
          → ((reps : List Representation)
              → Answers db1 vs reps end.1
              → Answers db ws (rep ∷ reps) end.1)
          → Collected vs (acc ++ rep ∷ []) db1 end
          → Collected ws acc db end
      longer vs ws acc rep db db1 end step c = record {
        reps = rep ∷ c.reps;
        ends = c.ends ∙ ap collected (append_assoc acc (rep ∷ []) c.reps);
        answers = step c.reps c.answers;
      }

      put_next :
          (v : RequestVars) (vs : List (Option RequestVars)) (acc : List Representation) (db : DB)
          → get env v db ≡ err object_not_found
          → authenticate env v.authorization db ≡ true
          → view env v.oid db ≡ none
          → PutSpec env v db (put env v db).0 (put env v db).1
          → ((acc' : List Representation)
              → Collected vs acc' (put env v db).1 (collect app vs acc' (put env v db).1))
          → Collected (some v ∷ vs) acc db (collect app (some v ∷ vs) acc db)
      put_next v vs acc db missing admitted new (refused out r kept) later = absurd (ground arith)
      put_next v vs acc db missing admitted new (existed m _ there r kept) later =
          absurd (ground arith)
      put_next v vs acc db missing admitted new (created _ _ r after project) later =
          let rep = linked (lit "upload") env.cfg v v.oid v.size in
          rw (collect_put v vs acc db missing) (
            rw r (
              rw (represent_link env.cfg v (new_object v) false) (
                longer vs (some v ∷ vs) acc rep db (put env v db).1 _
                  (λ reps x. added new r after x) (later (acc ++ rep ∷ [])))))
      put_next v vs acc db missing admitted new (failed e _ _ r after) later =
          rw (collect_put v vs acc db missing) (
            rw r (
              let c = later acc in
              record { reps = c.reps; ends = c.ends; answers = left_out e new r after c.answers }))

      collect-Collected :
          (vs : List (Option RequestVars)) (acc : List Representation) (db : DB)
          → IsSound env db
          → authenticate env a db ≡ true
          → All (IsFrom a) vs
          → Collected vs acc db (collect app vs acc db)
      unfolding collect
      collect-Collected [] acc db s admitted from = record {
        reps = [];
        ends = ap collected (sym (append-nil acc));
        answers = done;
      }
      collect-Collected (none ∷ vs) acc db s admitted from = absurd from.0
      collect-Collected (some v ∷ vs) acc db s admitted from =
          let mine : authenticate env v.authorization db ≡ true =
            ap (λ x. authenticate env x db) from.0 ∙ admitted in
          let got = get-eq-view env v db s in
          elim (Option-cases (view env v.oid db)) [
            | inr (meta, there) ↦
                let rep = linked (lit "download") env.cfg v meta.oid meta.size in
                rw (collect_found v vs acc db meta (got ∙ rw mine (rw there refl))) (
                  longer vs (some v ∷ vs) acc rep db db _ (λ reps x. found meta there x)
                    (collect-Collected vs (acc ++ rep ∷ []) db s admitted from.1))
            | inl new ↦
                put_next v vs acc db (got ∙ rw mine (rw new refl)) mine new
                  (put-PutSpec env lawful codec v db s)
                  (λ acc'.
                    collect-Collected vs acc' (put env v db).1 (put-IsSound env lawful codec v db s)
                      (authenticate_of_same env a db _ (put-SameUsers env lawful codec v db)
                        ∙ admitted)
                      from.1)
          ]

      reply_of :
          (r : Request) (vs : List (Option RequestVars)) (db : DB)
          → unpackbatch json r ≡ some vs
          → batch_handler app r fresh db
            ≡ (batch_reply app r (collect app vs [] db).0 fresh, (collect app vs [] db).1)
      unfolding batch_handler
      reply_of r vs db h = rw (h, batch_handler) refl

    -- A batch that decodes, with a valid authorization, on a sound database, is answered with
    -- status 200: for its objects in order, one link for downloads where the object is there, one
    -- link for uploads where the object is new and Put made it, nothing where Put returned an error
    -- (the other objects are answered all the same). Each link has the address of the object and the
    -- headers to send, the authorization only in private mode. Each object is answered by the
    -- metadata that the Puts before it left, in which nothing but the objects that were made is seen
    -- to change. No object of the batch is nil; each is asked for with the namespace, the repository
    -- and the authorization of the request.
    pub batch_handler-Answers :
        (lawful : IsBolt env.bolt) (codec : IsGob env.gob) (r : Request) (vs : List RequestVars)
        (db : DB)
        → json.decode_batch_vars r.body ≡ (map some vs, none)
        → IsSound env db
        → authenticate env r.authorization db ≡ true
        → (reps : List Representation) × (db' : DB) × (batch_handler app r fresh db ≡ (
          some (
              write
                (json.encode_objects reps)
                (set_header (lit "Content-Type") meta_media_type fresh)),
          db',
        ))
          × Answers db (map (λ v. some (asked r v)) vs) reps db'
    unfolding unpackbatch batch_reply
    batch_handler-Answers lawful codec r given db decoded s admitted =
        let objs = map some given in
        let vs = map (λ v. some (asked r v)) given in
        let routed = all_with_route-some r given in
        let unpacked : unpackbatch json r ≡ some vs =
          subst (λ p. elim p.1 [ some e ↦ some p.0 | none ↦ all_with_route r p.0 ] ≡ some vs)
            (sym decoded) routed in
        let c =
          collect-Collected lawful codec r.authorization vs [] db s admitted
            (all_with_route-IsFrom r objs vs routed) in
        (
          c.reps,
          (collect app vs [] db).1,
          reply_of lawful codec r.authorization r vs db unpacked
              ∙ ap (λ end. (batch_reply app r end fresh, (collect app vs [] db).1)) c.ends,
          c.answers,
        )
