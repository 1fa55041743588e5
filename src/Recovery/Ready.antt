-- ===== src/Recovery/Ready.antt =====
-- `recovery_ready` of rpc/main.cc.
use fisslock_bmv2_java.Base.{ℕ, ◌≡◌, ◌≢◌, true, arith}
use fisslock_bmv2_java.Recovery.{Coordinator, set_bit, check_waiter, all_reported, recovery_ready}

some_bit : (x : ℕ) → set_bit 0 x ≢ 0
unfolding set_bit
some_bit x e = ground arith

-- Once the switch has signalled, the first machine that reports is told that all is ready, whoever
-- has not reported yet; and the coordinator goes on to refuse questions about waiters with 2.
pub ready_too_early :
    (ready_signal : ℕ) (s : Coordinator) (mid fault_code lid waiter : ℕ)
    → ready_signal ≢ 0
    → set_bit 0 (set_bit mid s.ready_bitmap) ≢ set_bit 0 fault_code
    → let (s', ready) = recovery_ready ready_signal s mid fault_code in
      (ready ≡ true) × (check_waiter s' lid waiter ≡ 2)
unfolding recovery_ready check_waiter all_reported
ready_too_early ready_signal s mid fault_code lid waiter signalled missing = ground (
  arith,
  some_bit (set_bit mid s.ready_bitmap),
  some_bit (set_bit 0 (set_bit mid s.ready_bitmap)),
)
