-- ===== src/Examples/Starting.antt =====
-- The theorem on main.go at a machine that has one listener and two stores.
use lfs_server_go.Prelude.{ℕ, ◌≡◌, ◌↔◌, true, [], ◌∷◌}
use lfs_server_go.Text.{lit}
use lfs_server_go.Errors.{ok}
use lfs_server_go.Types.{pos}
use lfs_server_go.Config.Load.{default_configuration}
use lfs_server_go.TrackingListener.{Net}
use lfs_server_go.Main.{Tls, Running, tracked, serving, start}
use lfs_server_go.Main.Ready.{IsReady, start_iff}

-- A listener is its number.
abbrev machine : Net ℕ
machine = record {
  parse = λ a. ok (lit "tcp", lit ":8080");
  listen_fd = λ name. ok 3;
  listen_tcp = λ scheme host. ok 4;
}

abbrev keys : Tls ℕ ℕ
keys = record { load_key_pair = λ cert key. ok 1; is_tcp = λ l. true }

-- The stores are numbers, too.
abbrev running : Running ℕ ℕ ℕ ℕ
running = record { listener = tracked 4; meta_store = 5; content_store = 6 }

start_iff_example :
    (start (lit "lfs-server-go" ∷ []) machine keys (default_configuration (pos 4)) (ok 5) (ok 6)
      ≡ serving running)
    ↔ IsReady machine keys
        (lit "lfs-server-go" ∷ [])
        (default_configuration (pos 4))
        (ok 5)
        (ok 6)
        running
start_iff_example =
    start_iff machine keys (lit "lfs-server-go" ∷ []) (default_configuration (pos 4)) (ok 5) (ok 6)
      running
