-- ===== src/Examples/Connections.antt =====
-- The theorems on tracking_listener.go where one connection was accepted.
use lfs_server_go.Prelude.{ℕ, ◌≡◌, refl, ◌↔◌, ◌⊎◌, true, false, some, [], ◌∷◌}
use lfs_server_go.TrackingListener.{
  TrackingListener, accept, accepted, accept_failed, close, is_done, wait_returns, Reach, start,
  next, begin_accept, end_accept,
}
use lfs_server_go.TrackingListener.Shutdown.{never_negative, wait_returns_iff}
use lfs_server_go.TrackingListener.Drain.{close_down, close_down-wait_returns}

abbrev one_conn : TrackingListener
one_conn = record { wg = 1; accepting = 0; conns = false ∷ [] }

reached : Reach one_conn
unfolding accept accepted
reached = next (next start begin_accept) (end_accept {n = 0} refl)

never_negative_example :
    ((l' : TrackingListener) × (close 0 one_conn ≡ some l'))
    × ((one_conn.accepting ≡ 0) ⊎ ((l' : TrackingListener) × (accept_failed one_conn ≡ some l')))
never_negative_example = never_negative one_conn 0 reached

wait_returns_iff_example :
    (wait_returns one_conn ≡ true)
    ↔ ((one_conn.accepting ≡ 0) × ((i : ℕ) → is_done i (false ∷ []) ≡ true))
wait_returns_iff_example = wait_returns_iff one_conn reached

close_down-wait_returns_example :
    (l' : TrackingListener) × (close_down 1 one_conn ≡ some l') × (wait_returns l' ≡ true)
close_down-wait_returns_example = close_down-wait_returns one_conn reached refl
