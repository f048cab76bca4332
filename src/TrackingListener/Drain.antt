-- ===== src/TrackingListener/Drain.antt =====
-- The end of the program: every connection of tracking_listener.go is closed.
use lfs_server_go.Prelude.{
  ℕ, zero, suc, ◌≡◌, refl, ◌∙◌, Bool, true, Option, none, some, List, [], ◌∷◌, arith, Bool-cases,
  inl, inr, length, ◌≤◌, eqb, eqb_iff,
}
use mathlib.Core.Path.{subst}
use lfs_server_go.TrackingListener.{TrackingListener, is_done, close, wait_returns, Reach}
use lfs_server_go.TrackingListener.Shutdown.{
  IsBalanced, IsClosed, close-IsClosed, Reach-IsBalanced, open_count_zero, wait_returns_zero,
}

-- Closing the connections below a number, the last first.
unfoldable pub close_down : ℕ → TrackingListener → Option TrackingListener
close_down zero l = some l
close_down (suc n) l = elim (close n l) [ none ↦ none | some l' ↦ close_down n l' ]

is_done-length : (i : ℕ) (bs : List Bool) → length bs ≤ i → is_done i bs ≡ true
is_done-length i [] h = refl
is_done-length zero (b ∷ bs) h = absurd (omega arith)
is_done-length (suc i) (b ∷ bs) h = is_done-length i bs (omega arith)

-- What `close_down` leaves of a listener whose other connections are closed.
record IsQuiet (l l' : TrackingListener) : Type 0 where
  pub balanced : IsBalanced l'
  pub closed : (j : ℕ) → is_done j l'.conns ≡ true
  pub same_accepting : l'.accepting ≡ l.accepting

close_down-IsQuiet :
    (n : ℕ) (l : TrackingListener)
    → IsBalanced l
    → ((j : ℕ) → n ≤ j → is_done j l.conns ≡ true)
    → (l' : TrackingListener) × (close_down n l ≡ some l') × IsQuiet l l'
unfolding close_down
close_down-IsQuiet zero l b h =
    (l, refl, record { balanced = b; closed = λ j. h j (omega arith); same_accepting = refl })
close_down-IsQuiet (suc n) l b h =
    let (l1, e1, c) = close-IsClosed n l b in
    let (l2, e2, q) = close_down-IsQuiet n l1 (IsClosed.balanced c) (closed_above l1 c) in
    (
      l2,
      rw (e1, close_down) e2,
      record {
        balanced = q.balanced;
        closed = q.closed;
        same_accepting = q.same_accepting ∙ c.same_accepting;
      },
    )
  where
    closed_above :
        (l1 : TrackingListener) → IsClosed n l l1 → (j : ℕ) → n ≤ j → is_done j l1.conns ≡ true
    closed_above l1 c j above = elim (Bool-cases (eqb n j)) [
      | inl here ↦ subst (λ k. is_done k l1.conns ≡ true) ((eqb_iff n j).0 here) c.closed
      | inr other ↦ c.others j (h j (ground arith))
    ]

-- A shutdown ends: once no call of Accept is in progress, closing each connection makes
-- WaitForChildren return, whatever was accepted and closed before.
pub close_down-wait_returns :
    (l : TrackingListener)
    → Reach l
    → l.accepting ≡ 0
    → (l' : TrackingListener) × (close_down (length l.conns) l ≡ some l') × (wait_returns l' ≡ true)
close_down-wait_returns l r quiet =
    let (l', e, q) =
      close_down-IsQuiet (length l.conns) l (Reach-IsBalanced l r)
        (λ j above. is_done-length j l.conns above) in
    let nothing = open_count_zero l'.conns q.closed in
    let balanced = q.balanced in
    let same = q.same_accepting in
    let empty : l'.wg ≡ 0 = omega arith in (l', e, wait_returns_zero l' empty)
