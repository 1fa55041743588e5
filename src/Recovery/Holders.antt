-- ===== src/Recovery/Holders.antt =====
-- The coordinator of rpc/main.cc: what it collects, it gives back.
use fisslock_bmv2_java.Base.{
  ℕ, ◌<◌, ◌≤◌, ◌≡◌, ◌≢◌, ◌==◌, ◌||◌, true, false, List, [], ◌∷◌, none, some, arith, refl, length,
  lookup-assign, ◌∙◌, if◌then◌else◌,
}
use fisslock_bmv2_java.Recovery.{
  set_insert, set_contains, LockData, Coordinator, data_of, with_data, set_bit, collect_holders,
  collect_waiters, check_waiter, max_holders, CheckHolderReply, no_holders, fill_holders,
  check_holder, check_holder_agent, check_holder_server,
}

pub contains-set_insert :
    (a b : ℕ) (xs : List ℕ) → set_contains b (set_insert a xs) ≡ ((b == a) || set_contains b xs)
unfolding set_contains set_insert
contains-set_insert a b [] = refl
contains-set_insert a b (x ∷ xs) = ground (arith, contains-set_insert a b xs)

data_of-with_data : (s : Coordinator) (lid : ℕ) (d : LockData) → data_of (with_data s lid d) lid ≡ d
data_of-with_data s lid d = ground (arith, lookup-assign lid lid d s.lm_state)

length-set_insert : (a : ℕ) (xs : List ℕ) → 1 ≤ length (set_insert a xs)
unfolding set_insert
length-set_insert a [] = omega arith
length-set_insert a (x ∷ xs) = ground arith

pub server_restores :
    (s : Coordinator) (lid : ℕ) (d : LockData)
    → data_of s lid ≡ d
    → d.has_agent ≡ false
    → 1 ≤ length d.holders
    → length d.holders ≤ max_holders
    → check_holder_server s lid
      ≡ some (
        with_data s lid (record d { has_agent = true }),
        record { extra_num = length d.holders; extra_holders = d.holders },
      )
unfolding check_holder_server fill_holders
server_restores s lid d e lost many fits = rw e (ground arith)

pub server_refuses :
    (s : Coordinator) (lid : ℕ) (d : LockData)
    → data_of s lid ≡ d
    → d.has_agent ≡ true
    → check_holder_server s lid ≡ some (s, no_holders)
unfolding check_holder_server
server_refuses s lid d e kept = rw e (ground arith)

-- A holder was collected for a lock that has no agent, and the holders fit into a reply: the first
-- server that asks gets all of them, that holder among them, to restore the agent; the next one gets
-- none.
pub agent_restored_once :
    (s : Coordinator) (lid holder n m : ℕ)
    → let s1 = collect_holders s lid holder in
      (data_of s lid).has_agent ≡ false
      → length (data_of s1 lid).holders ≤ max_holders
      → (s2 : Coordinator) × (reply : CheckHolderReply) × (check_holder s1 lid n false
          ≡ some (s2, reply))
        × (reply.extra_holders ≡ (data_of s1 lid).holders)
        × (set_contains holder reply.extra_holders ≡ true)
        × (check_holder s2 lid m false ≡ some (s2, no_holders))
unfolding collect_holders check_holder
agent_restored_once s lid holder n m lost fits =
    let d = data_of s lid in
    let d1 = record d { holders = set_insert holder d.holders } in
    let e1 : data_of (with_data s lid d1) lid ≡ d1 = data_of-with_data s lid d1 in
    let s2 = with_data (with_data s lid d1) lid (record d1 { has_agent = true }) in
    let e2 = data_of-with_data (with_data s lid d1) lid (record d1 { has_agent = true }) in
    (
      s2,
      record { extra_num = length d1.holders; extra_holders = d1.holders },
      server_restores (with_data s lid d1) lid d1 e1 lost (length-set_insert holder d.holders)
          (rw e1 at fits),
      rw e1 refl,
      ground (arith, contains-set_insert holder holder d.holders),
      server_refuses s2 lid (record d1 { has_agent = true }) e2 refl,
    )

-- With more holders than a reply has room for, a server that asks makes the coordinator write beyond
-- the reply, while an agent that knows of fewer is answered without any holder.
pub check_holder_overflows :
    (s : Coordinator) (lid n : ℕ)
    → (data_of s lid).has_agent ≡ false
    → max_holders < length (data_of s lid).holders
    → n < length (data_of s lid).holders
    → (check_holder s lid n false ≡ none)
      × (check_holder s lid n true
          ≡ some (s, record { extra_num = length (data_of s lid).holders; extra_holders = [] }))
unfolding check_holder check_holder_server check_holder_agent fill_holders
check_holder_overflows s lid n lost many few = ground arith

waiters_told :
    (s : Coordinator) (lid waiter : ℕ) (d : LockData)
    → data_of s lid ≡ d
    → d.has_agent ≡ true
    → s.fault_signal ≢ 0
    → set_bit 0 s.ready_bitmap ≡ set_bit 0 s.fault_signal
    → check_waiter s lid waiter ≡ (if set_contains waiter d.waiters then 1 else 0)
unfolding check_waiter
waiters_told s lid waiter d e kept fault all = rw e (ground arith)

-- Once all machines have reported, a waiter that was collected for a lock is found, and any
-- other is found if it was collected for that lock before.
pub check_waiter-collect_waiters :
    (s : Coordinator) (lid waiter other : ℕ)
    → s.fault_signal ≢ 0
    → set_bit 0 s.ready_bitmap ≡ set_bit 0 s.fault_signal
    → other ≢ waiter
    → (check_waiter (collect_waiters s lid waiter) lid waiter ≡ 1)
      × (check_waiter (collect_waiters s lid waiter) lid other
          ≡ (if set_contains other (data_of s lid).waiters then 1 else 0))
unfolding collect_waiters
check_waiter-collect_waiters s lid waiter other fault all ne =
    let d = data_of s lid in
    let d' = record d { has_agent = true; waiters = set_insert waiter d.waiters } in
    let s' = with_data s lid d' in
    let e = data_of-with_data s lid d' in
    (
      waiters_told s' lid waiter d' e refl fault all
          ∙ ground (arith, contains-set_insert waiter waiter d.waiters),
      waiters_told s' lid other d' e refl fault all
          ∙ ground (arith, contains-set_insert waiter other d.waiters),
    )
