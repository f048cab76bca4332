-- ===== src/TrackingListener/Shutdown.antt =====
-- The count of tracking_listener.go, and when WaitForChildren returns.
use lfs_server_go.Prelude.{
  ℕ, zero, suc, ◌+◌, ◌-◌, ◌≡◌, ◌↔◌, refl, ap, Bool, true, false, some, List, [], ◌∷◌, ◌++◌, arith,
  Bool-cases, inl, inr, if◌then◌else◌, length, ◌⊎◌,
}
use mathlib.Core.Path.{subst}
use lfs_server_go.TrackingListener.{
  TrackingListener, done, accept, accepted, accept_failed, is_done, set_done, close, wait_returns,
  Step, begin_accept, end_accept, fail_accept, close_conn, Reach, start, next,
}

-- The connections that are not closed.
abbrev pub open_count : List Bool → ℕ
open_count [] = 0
open_count (b ∷ bs) = (if b then 0 else 1) + open_count bs

open_count-append : (bs : List Bool) → open_count (bs ++ false ∷ []) ≡ open_count bs + 1
open_count-append [] = refl
open_count-append (b ∷ bs) = omega (arith, open_count-append bs)

open_count-set_done :
    (i : ℕ) (bs : List Bool)
    → is_done i bs ≡ false
    → open_count bs ≡ suc (open_count (set_done i bs))
open_count-set_done i [] h = cc
open_count-set_done zero (b ∷ bs) h = ground arith
open_count-set_done (suc i) (b ∷ bs) h = ground (arith, open_count-set_done i bs h)

-- The count is that of the calls of Accept in progress and of the open connections.
abbrev pub IsBalanced : TrackingListener → Type 0
IsBalanced l = l.wg ≡ l.accepting + open_count l.conns

-- A call of `done` where the count is not zero.
done-suc : (n : ℕ) (l : TrackingListener) → l.wg ≡ suc n → done l ≡ some (record l { wg = n })
unfolding done
done-suc n l h = ground arith

is_done-set_done :
    (i j : ℕ) (bs : List Bool) → is_done j bs ≡ true → is_done j (set_done i bs) ≡ true
is_done-set_done i j [] h = refl
is_done-set_done zero zero (b ∷ bs) h = refl
is_done-set_done zero (suc j) (b ∷ bs) h = h
is_done-set_done (suc i) zero (b ∷ bs) h = h
is_done-set_done (suc i) (suc j) (b ∷ bs) h = is_done-set_done i j bs h

is_done_self : (i : ℕ) (bs : List Bool) → is_done i (set_done i bs) ≡ true
is_done_self i [] = refl
is_done_self zero (b ∷ bs) = refl
is_done_self (suc i) (b ∷ bs) = is_done_self i bs

length-set_done : (i : ℕ) (bs : List Bool) → length (set_done i bs) ≡ length bs
length-set_done i [] = refl
length-set_done zero (b ∷ bs) = refl
length-set_done (suc i) (b ∷ bs) = ap suc (length-set_done i bs)

ℕ-cases : (n : ℕ) → (n ≡ 0) ⊎ ((m : ℕ) × (n ≡ suc m))
ℕ-cases zero = inl refl
ℕ-cases (suc m) = inr (m, refl)

-- What a Close leaves.
pub record IsClosed (i : ℕ) (l l' : TrackingListener) : Type 0 where
  pub balanced : IsBalanced l'
  pub closed : is_done i l'.conns ≡ true
  pub others : (j : ℕ) → is_done j l.conns ≡ true → is_done j l'.conns ≡ true
  pub same_accepting : l'.accepting ≡ l.accepting
  pub same_length : length l'.conns ≡ length l.conns

-- Close does not panic.
pub close-IsClosed :
    (i : ℕ) (l : TrackingListener)
    → IsBalanced l
    → (l' : TrackingListener) × (close i l ≡ some l') × IsClosed i l l'
unfolding close
close-IsClosed i l b = elim (Bool-cases (is_done i l.conns)) [
  | inl before ↦ (
    l,
    rw before refl,
    record {
      balanced = b;
      closed = before;
      others = λ j h. h;
      same_accepting = refl;
      same_length = refl;
    },
  )
  | inr first ↦
      let n = l.accepting + open_count (set_done i l.conns) in
      let count : l.wg ≡ suc n = omega (arith, open_count-set_done i l.conns first) in
      (
        record l { conns = set_done i l.conns; wg = n },
        rw first (done-suc n (record l { conns = set_done i l.conns }) count),
        record {
          balanced = refl;
          closed = is_done_self i l.conns;
          others = λ j h. is_done-set_done i j l.conns h;
          same_accepting = refl;
          same_length = length-set_done i l.conns;
        },
      )
]

close-IsBalanced :
    (i : ℕ) (l l' : TrackingListener) → IsBalanced l → close i l ≡ some l' → IsBalanced l'
close-IsBalanced i l l' b h =
    let (l2, e, c) = close-IsClosed i l b in
    let same : l2 ≡ l' = ground arith in subst IsBalanced same (IsClosed.balanced c)

-- A failed Accept does not panic, and keeps the balance.
accept_failed-some :
    (n : ℕ) (l : TrackingListener)
    → IsBalanced l
    → l.accepting ≡ suc n
    → (l' : TrackingListener) × (accept_failed l ≡ some l') × IsBalanced l'
unfolding accept_failed
accept_failed-some n l b in_progress =
    let m = n + open_count l.conns in
    (
      record l { accepting = l.accepting - 1; wg = m },
      done-suc m (record l { accepting = l.accepting - 1 }) (omega arith),
      omega arith,
    )

Step-IsBalanced : {l l' : TrackingListener} → Step l l' → IsBalanced l → IsBalanced l'
unfolding accept accepted
Step-IsBalanced {l} begin_accept b = omega arith
Step-IsBalanced {l} (end_accept h) b = omega (arith, open_count-append l.conns)
Step-IsBalanced {l} {l'} (fail_accept {n} h e) b =
    let (l2, e2, c) = accept_failed-some n l b h in
    let same : l2 ≡ l' = ground arith in subst IsBalanced same c
Step-IsBalanced {l} {l'} (close_conn i e) b = close-IsBalanced i l l' b e

-- In whatever order the goroutines accept connections, fail to and close them (once or more), the
-- count of the WaitGroup is that of the calls of Accept in progress and of the open connections.
pub Reach-IsBalanced : (l : TrackingListener) → Reach l → IsBalanced l
Reach-IsBalanced _ start = refl
Reach-IsBalanced _ (next {l} r s) = Step-IsBalanced s (Reach-IsBalanced l r)

-- The count never goes below zero: in a state that the goroutines reach in any order, closing a
-- connection, again or for the first time, does not panic, nor does the failure of a call of Accept
-- that is in progress.
pub never_negative :
    (l : TrackingListener) (i : ℕ)
    → Reach l
    → ((l' : TrackingListener) × (close i l ≡ some l'))
      × ((l.accepting ≡ 0) ⊎ ((l' : TrackingListener) × (accept_failed l ≡ some l')))
never_negative l i r =
    let b = Reach-IsBalanced l r in
    let (l1, e1, c) = close-IsClosed i l b in
    (
      (l1, e1),
      elim (ℕ-cases l.accepting) [
        | inl nothing ↦ inl nothing
        | inr (n, some_accept) ↦
            let (l2, e2, c2) = accept_failed-some n l b some_accept in inr (l2, e2)
      ],
    )

pub open_count_zero : (bs : List Bool) → ((i : ℕ) → is_done i bs ≡ true) → open_count bs ≡ 0
open_count_zero [] h = refl
open_count_zero (b ∷ bs) h =
    let first = h 0 in let rest = open_count_zero bs (λ i. h (suc i)) in ground arith

zero-open_count : (bs : List Bool) → open_count bs ≡ 0 → (i : ℕ) → is_done i bs ≡ true
zero-open_count [] h i = refl
zero-open_count (b ∷ bs) h zero = ground arith
zero-open_count (b ∷ bs) h (suc i) = zero-open_count bs (omega arith) i

-- In a state that the goroutines reach, WaitForChildren returns exactly when no call of Accept is
-- in progress and every connection that was accepted is closed.
pub wait_returns_iff :
    (l : TrackingListener)
    → Reach l
    → (wait_returns l ≡ true) ↔ ((l.accepting ≡ 0) × ((i : ℕ) → is_done i l.conns ≡ true))
unfolding wait_returns
wait_returns_iff l r =
    let b = Reach-IsBalanced l r in
    (
      λ h.
          let empty : l.wg ≡ 0 = ground arith in
          (omega arith, zero-open_count l.conns (omega arith)),
      λ (quiet, closed).
          let nothing = open_count_zero l.conns closed in
          let empty : l.wg ≡ 0 = omega arith in rw empty refl,
    )

pub wait_returns_zero : (l : TrackingListener) → l.wg ≡ 0 → wait_returns l ≡ true
unfolding wait_returns
wait_returns_zero l empty = rw empty refl
