-- ===== src/Main.antt =====
-- main.go: how the server is started, and with which back ends. The ways to make the back ends and
-- the package crypto/tls are parameters.
pub mod Listening
pub mod Ready
use lfs_server_go.Prelude.{
  ℕ, ◌*◌, Bool, true, false, ◌&&◌, Option, none, some, List, [], ◌∷◌, ◌++◌, if◌then◌else◌,
}
use lfs_server_go.Text.{Bytes, lit, ◌==◌}
use lfs_server_go.Errors.{Result, ok, err, message}
use lfs_server_go.Config.{Configuration, is_https, use_tls}
use lfs_server_go.TrackingListener.{Net, new_tracking_listener}

-- `FindMetaStore`
unfoldable pub find_meta_store {ℓ} :
    {A : Type ℓ} → (Bytes → Result A) → Result A → Result A → Configuration → Result A
find_meta_store new_meta_store cassandra mysql cfg =
    if cfg.backing_store == lit "bolt"
    then new_meta_store cfg.meta_db
    else if cfg.backing_store == lit "cassandra"
    then cassandra
    else if cfg.backing_store == lit "mysql"
    then mysql
    else new_meta_store cfg.meta_db

-- `findContentStore`
unfoldable pub find_content_store {ℓ} :
    {A : Type ℓ} → (Bytes → Result A) → Result A → Configuration → Result A
find_content_store new_content_store aws cfg =
    if cfg.content_store == lit "filestore"
    then new_content_store cfg.content_path
    else if cfg.content_store == lit "aws"
    then aws
    else new_content_store cfg.content_path

-- The package crypto/tls: a key pair from its two files; and whether a listener is a
-- `*net.TCPListener`.
pub record Tls (L Cert : Type 0) : Type 0 where
  pub load_key_pair : (cert key : Bytes) → Result Cert
  pub is_tcp : L → Bool

-- `net.TCPListener` and the connections it makes; a period is in nanoseconds.
pub record Tcp (S Conn : Type 0) : Type 0 where
  pub accept_tcp : S → Result Conn × S
  pub set_keep_alive : Conn → Bool → S → S
  pub set_keep_alive_period : Conn → ℕ → S → S

-- `tcpKeepAliveListener.Accept`
unfoldable pub accept : {S Conn : Type 0} → Tcp S Conn → S → Result Conn × S
accept lib s =
    let (result, s1) = lib.accept_tcp s in
    elim result [
      | err e ↦ (err e, s1)
      | ok tc ↦
          (ok tc, lib.set_keep_alive_period tc (3 * 60000000000) (lib.set_keep_alive tc true s1))
    ]

-- What the server listens on: the tracking listener, or TLS over the listener below it.
pub data Listener (L Cert : Type 0) : Type 0 where
  tracked : L → Listener L Cert
  tls : Cert → L → Listener L Cert

-- `wrapHttps`; `l` is the listener below the tracking one. The type assertion panics (`none`) where it
-- is of another type.
unfoldable pub wrap_https :
    {L Cert : Type 0} → Tls L Cert → L → Bytes → Bytes → Option (Result (Listener L Cert))
wrap_https lib l cert key = elim (lib.load_key_pair cert key) [
  | err e ↦ some (err e)
  | ok pair ↦ if lib.is_tcp l then some (ok (tls pair l)) else none
]

-- What the server runs with.
pub record Running (L Cert M C : Type 0) : Type 0 where
  pub listener : Listener L Cert
  pub meta_store : M
  pub content_store : C

-- `main` up to `app.Serve`: the version alone, the end by `logger.Fatal` with its message, or the
-- server. The two stores are what `FindMetaStore` and `findContentStore` return.
pub data Start (L Cert M C : Type 0) : Type 0 where
  printed : Bytes → Start L Cert M C
  fatal : Bytes → Start L Cert M C
  serving : Running L Cert M C → Start L Cert M C
  panicked : Start L Cert M C

unfoldable pub choose_listener :
    {L Cert : Type 0} → Tls L Cert → Configuration → L → Option (Result (Listener L Cert))
unfolding wrap_https
choose_listener lib cfg l =
    if is_https cfg && use_tls cfg then wrap_https lib l cfg.cert cfg.key else some (ok (tracked l))

-- The program's name and "-v".
unfoldable pub is_version : List Bytes → Bool
is_version (name ∷ flag ∷ []) = flag == lit "-v"
is_version _ = false

unfoldable pub start :
    {L Cert M C : Type 0}
    → List Bytes
    → Net L
    → Tls L Cert
    → Configuration
    → Result M
    → Result C
    → Start L Cert M C
unfolding choose_listener is_version
start args net lib cfg meta content =
    if is_version args then printed (lit "0.1.0") else elim (new_tracking_listener net cfg.listen) [
      | err e ↦ fatal (lit "Could not create listener: " ++ message e)
      | ok l ↦ elim (choose_listener lib cfg l) [
        | none ↦ panicked
        | some (err e) ↦ fatal (lit "Could not create https listener: " ++ message e)
        | some (ok listener) ↦ elim meta [
          | err e ↦ fatal (lit "Could not open the meta store: " ++ message e)
          | ok m ↦ elim content [
            | err e ↦ fatal (lit "Could not open the content store: " ++ message e)
            | ok c ↦ serving (record { listener = listener; meta_store = m; content_store = c })
          ]
        ]
      ]
    ]
