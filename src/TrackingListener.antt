-- ===== src/TrackingListener.antt =====
-- tracking_listener.go: the listener that counts its connections, so that the program can wait for
-- them before it ends. The packages net and net/url are parameters.
pub mod Shutdown
pub mod Drain
use lfs_server_go.Prelude.{
  ℕ, zero, suc, ◌+◌, ◌-◌, Bool, true, false, ◌||◌, Option, none, some, List, [], ◌∷◌, ◌++◌, ◌≡◌,
  if◌then◌else◌,
}
use mathlib.Core.Option
use lfs_server_go.Text.{Bytes, lit, ◌==◌}
use lfs_server_go.Errors.{Error, Result, ok, err, foreign, ◌>>=◌}

-- What NewTrackingListener calls: `url.Parse` (the scheme and the host), `strconv.Atoi` with
-- `os.NewFile` and `net.FileListener`, and `net.ResolveTCPAddr` with `net.ListenTCP`.
pub record Net (L : Type 0) : Type 0 where
  pub parse : Bytes → Result (Bytes × Bytes)
  pub listen_fd : Bytes → Result L
  pub listen_tcp : (scheme host : Bytes) → Result L

-- `NewTrackingListener`, without the counts, which are zero
unfoldable pub new_tracking_listener : {L : Type 0} → Net L → Bytes → Result L
new_tracking_listener net addr = do
  a ← net.parse addr
  if a.0 == lit "fd"
      then net.listen_fd a.1
      else if (a.0 == lit "tcp") || ((a.0 == lit "tcp4") || (a.0 == lit "tcp6"))
      then net.listen_tcp a.0 a.1
      else err (foreign (lit "Unsupported listener protocol: " ++ a.0))

-- A `TrackingListener` while it runs: the count of its WaitGroup, the calls of Accept that have
-- added to it and not returned, and the connections that were made, each with whether its `once` is
-- done.
pub record TrackingListener : Type 0 where
  pub wg : ℕ
  pub accepting : ℕ
  pub conns : List Bool

abbrev pub idle : TrackingListener
idle = record { wg = 0; accepting = 0; conns = [] }

-- `wg.Done()`, which panics (`none`) below zero.
unfoldable pub done : TrackingListener → Option TrackingListener
done l = elim l.wg [ zero ↦ none | suc n ↦ some (record l { wg = n }) ]

-- Accept, up to the call of `l.Listener.Accept()`.
unfoldable pub accept : TrackingListener → TrackingListener
accept l = record l { wg = l.wg + 1; accepting = l.accepting + 1 }

-- The rest of Accept, by whether the listener below gave a connection or an error.
unfoldable pub accepted : TrackingListener → TrackingListener
accepted l = record l { accepting = l.accepting - 1; conns = l.conns ++ false ∷ [] }

unfoldable pub accept_failed : TrackingListener → Option TrackingListener
unfolding done
accept_failed l = done (record l { accepting = l.accepting - 1 })

-- Whether the once of a connection is done, and the connections after it is; there is no such
-- connection where the number is too great.
abbrev pub is_done : ℕ → List Bool → Bool
is_done i [] = true
is_done zero (b ∷ bs) = b
is_done (suc i) (b ∷ bs) = is_done i bs

abbrev pub set_done : ℕ → List Bool → List Bool
set_done i [] = []
set_done zero (b ∷ bs) = true ∷ bs
set_done (suc i) (b ∷ bs) = b ∷ set_done i bs

-- `trackedConn.Close` of the connection of a number: `once.Do(wg.Done)`.
unfoldable pub close : ℕ → TrackingListener → Option TrackingListener
unfolding done
close i l = if is_done i l.conns then some l else done (record l { conns = set_done i l.conns })

-- `WaitForChildren` returns when the count is zero.
unfoldable pub wait_returns : TrackingListener → Bool
wait_returns l = elim l.wg [ zero ↦ true | suc n ↦ false ]

-- What any of the program's goroutines does next; they come in any order.
pub data Step (l : TrackingListener) : TrackingListener → Type 0 where
  begin_accept : Step l (accept l)
  end_accept : {n : ℕ} → l.accepting ≡ suc n → Step l (accepted l)
  fail_accept :
      {n : ℕ} {l' : TrackingListener} → l.accepting ≡ suc n → accept_failed l ≡ some l' → Step l l'
  close_conn : (i : ℕ) {l' : TrackingListener} → close i l ≡ some l' → Step l l'

pub data Reach : TrackingListener → Type 0 where
  start : Reach idle
  next : {l l' : TrackingListener} → Reach l → Step l l' → Reach l'
