-- ===== src/Examples/Logging.antt =====
-- The theorem on kvlogger.go at two goroutines that log at the same time.
use lfs_server_go.Prelude.{ℕ, ◌≡◌, refl, ◌⊎◌, true, false, [], ◌∷◌, ◌++◌, none}
use lfs_server_go.Text.{Bytes, lit}
use lfs_server_go.KvLogger.{
  Pc, idle, waiting, writing, Logger, set_pc, Reach, fresh, call_log, lock, write_byte, unlock,
  log_line, position, join_spaces,
}
use lfs_server_go.KvLogger.Lines.{Written, log_in_order}

abbrev both_wait : ℕ → Pc
both_wait = set_pc (set_pc (λ j. idle) 0 (waiting (lit "a"))) 1 (waiting (lit "b"))

abbrev first_done : ℕ → Pc
first_done =
    set_pc (set_pc (set_pc both_wait 0 (writing (lit "a") (lit "a"))) 0 (writing (lit "a") [])) 0
      idle

-- The first has returned, and the second is about to write.
abbrev halfway : Logger
halfway = record {
  out = lit "a";
  locked = true;
  pcs = set_pc first_done 1 (writing (lit "b") (lit "b"));
}

halfway-Reach : Reach ((lit "a", []) ∷ []) halfway
halfway-Reach =
    lock 1 (lit "b")
      (unlock 0 (lit "a") []
        (write_byte 0 b'a' (lit "a") []
          (lock 0 (lit "a") (call_log 1 (lit "b") (call_log 0 (lit "a") fresh refl) refl) refl refl)
          refl)
        refl)
      refl refl

log_in_order_example :
    ((halfway.locked ≡ false) × Written ((lit "a", []) ∷ []) halfway.out)
    ⊎ ((i : ℕ) × (line : Bytes) × (left : Bytes) × (before : Bytes) × (part : Bytes)
        × (halfway.locked ≡ true)
        × (halfway.pcs i ≡ writing line left)
        × Written ((lit "a", []) ∷ []) before
        × (halfway.out ≡ before ++ part)
        × (part ++ left ≡ line))
log_in_order_example = log_in_order halfway-Reach

-- A line of `Log`.
line_of_log :
    log_line
      (record { pid = 7; hostname = lit "h" })
      (record { now = lit "2026"; caller = none; itoa = λ n. lit "7" })
      ((lit "fn", lit "main") ∷ (lit "msg", lit "x") ∷ [])
    ≡ lit "2026 h lfs[7] [???:7]: fn=main msg=x\n"
unfolding log_line position join_spaces
line_of_log = refl
