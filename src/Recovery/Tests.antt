-- ===== src/Recovery/Tests.antt =====
-- The theorems about rpc/main.cc at a concrete coordinator.
use fisslock_bmv2_java.Base.{
  ◌≡◌, ◌≢◌, true, false, [], ◌∷◌, none, some, refl, arith, length, lookup, assign, replicate,
}
use fisslock_bmv2_java.Recovery.{
  lock_register, Coordinator, data_of, set_bit, set_insert, set_contains, collect_holders,
  collect_waiters, check_waiter, CheckHolderReply, no_holders, check_holder, recovery_ready,
}
use fisslock_bmv2_java.Recovery.Registering.{empty_registry, register_all, lock_register-distinct}
use fisslock_bmv2_java.Recovery.Holders.{
  agent_restored_once, check_holder_overflows, check_waiter-collect_waiters,
}
use fisslock_bmv2_java.Recovery.Ready.{ready_too_early}

-- Hosts 1 and 2 live, and both have reported.
abbrev all_ready : Coordinator
all_ready = record { lm_state = []; fault_signal = 6; ready_bitmap = 6 }

lock_register-distinct_example :
    let first = lock_register (register_all empty_registry (9 ∷ 8 ∷ [])) 5 in
    let second = lock_register first.0 7 in
    (first.1 ≢ second.1) × (lock_register second.0 5 ≡ (second.0, first.1))
lock_register-distinct_example =
    lock_register-distinct (9 ∷ 8 ∷ []) 5 7 (omega arith) (λ e. omega (arith, e))

lost_agent : (data_of all_ready 4).has_agent ≡ false
unfolding lookup
lost_agent = refl

one_holder : length (data_of (collect_holders all_ready 4 77) 4).holders ≡ 1
unfolding collect_holders set_insert lookup assign
one_holder = refl

agent_restored_once_example :
    (s2 : Coordinator) × (reply : CheckHolderReply) × (check_holder
        (collect_holders all_ready 4 77)
        4
        0
        false
      ≡ some (s2, reply))
    × (reply.extra_holders ≡ (data_of (collect_holders all_ready 4 77) 4).holders)
    × (set_contains 77 reply.extra_holders ≡ true)
    × (check_holder s2 4 1 false ≡ some (s2, no_holders))
agent_restored_once_example =
    agent_restored_once all_ready 4 77 0 1 lost_agent (omega (arith, one_holder))

-- 300 holders. (A real set has no repetition; the theorem does not need that.)
abbrev crowd : Coordinator
crowd = record {
  lm_state = (4, record { has_agent = false; holders = replicate 300 77; waiters = [] }) ∷ [];
  fault_signal = 6;
  ready_bitmap = 6;
}

crowd_lost : (data_of crowd 4).has_agent ≡ false
unfolding lookup
crowd_lost = refl

crowd_size : length (data_of crowd 4).holders ≡ 300
unfolding lookup
crowd_size = refl

check_holder_overflows_example :
    (check_holder crowd 4 10 false ≡ none)
    × (check_holder crowd 4 10 true
        ≡ some (crowd, record { extra_num = length (data_of crowd 4).holders; extra_holders = [] }))
check_holder_overflows_example =
    check_holder_overflows crowd 4 10 crowd_lost (omega (arith, crowd_size))
      (omega (arith, crowd_size))

check_waiter-collect_waiters_example :
    (check_waiter (collect_waiters all_ready 4 77) 4 77 ≡ 1)
    × (check_waiter (collect_waiters all_ready 4 77) 4 78 ≡ 0)
unfolding lookup set_contains
check_waiter-collect_waiters_example =
    check_waiter-collect_waiters all_ready 4 77 78 (λ e. omega (arith, e)) refl
      (λ e. omega (arith, e))

-- Only host 1 reports, of hosts 1 and 2.
abbrev fresh : Coordinator
fresh = record { lm_state = []; fault_signal = 0; ready_bitmap = 0 }

host_two_missing : set_bit 0 (set_bit 1 fresh.ready_bitmap) ≢ set_bit 0 6
unfolding set_bit
host_two_missing e = omega (arith, e)

ready_too_early_example :
    let (s', ready) = recovery_ready 1 fresh 1 6 in (ready ≡ true) × (check_waiter s' 4 77 ≡ 2)
ready_too_early_example = ready_too_early 1 fresh 1 6 4 77 (λ e. omega (arith, e)) host_two_missing
