-- ===== src/Examples/Store.antt =====
-- The theorems on meta_store.go at a database of one user, and at the one after a Put.
use lfs_server_go.Prelude.{◌∙◌, ◌≡◌, refl, ◌↔◌, true, none, some, List, [], ◌∷◌, arith}
use mathlib.Core.List.{Memᴰ}
use lfs_server_go.Text.{Bytes, lit}
use lfs_server_go.Errors.{ok}
use lfs_server_go.Types.{RequestVars, MetaObject}
use lfs_server_go.Bolt.{Bucket, update}
use lfs_server_go.MetaStore.{
  credentials, basic, Env, authenticate, check_user, stored_hash, new_object, get, put, add_user,
  delete_user, delete_user_tx, all_users, all_objects, make_buckets, new_meta_store, user_named,
}
use lfs_server_go.MetaStore.Invariant.{IsSound}
use lfs_server_go.MetaStore.Invariant.Methods.{put-IsSound}
use lfs_server_go.MetaStore.Objects.{view}
use lfs_server_go.MetaStore.Objects.Put.{PutSpec, put-PutSpec}
use lfs_server_go.MetaStore.Sessions.{get-put, put-SameUsers, authenticate_of_same}
use lfs_server_go.MetaStore.History.{Call, put_call, add_user_call, delete_user_call}
use lfs_server_go.MetaStore.Listing.{mem-all_objects}
use lfs_server_go.MetaStore.Creation.{Fits, new_meta_store-IsSound, put_succeeds}
use lfs_server_go.Examples.Pairs.{lookup}
use lfs_server_go.Examples.Memory.{Memory, memory, memory-IsBolt, blank, create}
use lfs_server_go.Examples.Codec.{
  codec, codec-IsGob, put_text, put_texts, flag, sign, size_of, encode_object, encode_project,
}
use lfs_server_go.Examples.Setup.{
  server_env, one_user, one_user-IsSound, u_and_p, u-admitted, abc_oid, request_vars,
}

pub no_failure : (db : Memory) → memory.commit db ≡ none
unfolding memory
no_failure db = refl

none_seen : view server_env abc_oid one_user ≡ none
unfolding view lfs_server_go.MetaStore.find_object one_user memory lookup
none_seen = refl

request-Fits : Fits server_env memory-IsBolt request_vars
unfolding codec encode_object encode_project put_text put_texts flag sign size_of
request-Fits = record {
  oid_low = omega arith;
  oid_high = omega arith;
  repo_high = omega arith;
  object_high = omega arith;
  project_high = omega arith;
}

made : (put server_env request_vars one_user).0 ≡ ok (new_object request_vars)
made =
    put_succeeds server_env memory-IsBolt codec-IsGob no_failure request_vars one_user
      one_user-IsSound u-admitted none_seen request-Fits

-- The database after that Put.
abbrev pub stocked : Memory
stocked = (put server_env request_vars one_user).1

pub stocked-IsSound : IsSound server_env stocked
stocked-IsSound =
    put-IsSound server_env memory-IsBolt codec-IsGob request_vars one_user one_user-IsSound

view_of_get :
    (rv : RequestVars) (db : Memory) (m : MetaObject)
    → get server_env rv db ≡ ok m
    → view server_env rv.oid db ≡ some m
unfolding get view
view_of_get rv db m h = ground arith

pub stocked-view : view server_env abc_oid stocked ≡ some (new_object request_vars)
stocked-view = view_of_get request_vars stocked (new_object request_vars) (
    get-put server_env memory-IsBolt codec-IsGob request_vars one_user (new_object request_vars)
      one_user-IsSound made)

pub stocked-admitted : authenticate server_env u_and_p stocked ≡ true
stocked-admitted =
    authenticate_of_same server_env u_and_p one_user stocked
      (put-SameUsers server_env memory-IsBolt codec-IsGob request_vars one_user)
    ∙ u-admitted

put-PutSpec_example :
    PutSpec server_env request_vars one_user
      (put server_env request_vars one_user).0
      (put server_env request_vars one_user).1
put-PutSpec_example =
    put-PutSpec server_env memory-IsBolt codec-IsGob request_vars one_user one_user-IsSound

calls : List Call
calls =
    put_call request_vars ∷ add_user_call [] (lit "v") (lit "q") ∷ delete_user_call (lit "u") ∷ []

put_succeeds_example : (put server_env request_vars one_user).0 ≡ ok (new_object request_vars)
put_succeeds_example =
    put_succeeds server_env memory-IsBolt codec-IsGob no_failure request_vars one_user
      one_user-IsSound u-admitted none_seen request-Fits

blank_is_empty : (c : Bucket) (k : Bytes) → memory.get blank c k ≡ none
unfolding memory lookup
blank_is_empty c k = refl

buckets_made : (update memory (make_buckets server_env) blank).0 ≡ none
unfolding make_buckets memory create
buckets_made = refl

opened : memory.open_file (lit "lfs.db") ≡ ok blank
unfolding memory
opened = refl

new_meta_store-IsSound_example :
    (store : Memory) × (new_meta_store server_env (lit "lfs.db") ≡ ok store)
    × IsSound server_env store
new_meta_store-IsSound_example =
    new_meta_store-IsSound server_env memory-IsBolt (lit "lfs.db") blank opened blank_is_empty
      buckets_made

mem-all_objects_example :
    (ms : List MetaObject) × (all_objects server_env stocked ≡ ok ms)
    × (Memᴰ (new_object request_vars) ms
        ↔ (view server_env abc_oid stocked ≡ some (new_object request_vars)))
mem-all_objects_example =
    mem-all_objects server_env memory-IsBolt stocked (new_object request_vars) stocked-IsSound
