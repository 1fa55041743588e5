-- ===== src/Lock/Tests/Switch.antt =====
-- The handlers of lib/lock.cc for a lock of the switch, at concrete packets.
use fisslock_bmv2_java.Base.{
  ◌+◌, ◌≡◌, ◌%◌, ◌^◌, [], ◌∷◌, ◌++◌, refl, arith, inr, map, true, false, none, some, contains,
  lookup, filter, take, replicate,
}
use fisslock_bmv2_java.Post.{
  lock_shared, lock_excl, post_lock_acquire, post_lock_release, Packet, Sent, make_wqe, mode,
  send_post_transfer,
}
use fisslock_bmv2_java.Lock.State.{
  InnetLock, lock_out_of_range, lock_holder, digest_grant, lock_digest_wq, lock_has_holder,
  lock_no_holders,
}
use fisslock_bmv2_java.Lock.Digest.{digested, wants_shared, lock_digest_wq_lem}
use fisslock_bmv2_java.Lock.Outcome.{goes_on}
use fisslock_bmv2_java.Lock.Acquire.{process_acquire}
use fisslock_bmv2_java.Lock.Release.{pass_on, process_release, remove_waiter}
use fisslock_bmv2_java.Lock.Packets.{process_push_back, lock_packet_process}
use fisslock_bmv2_java.Lock.Client.{lock_acquire_async}
use fisslock_bmv2_java.Lock.Unlock.{lock_release, give_up}
use fisslock_bmv2_java.Lock.Roles.{IsWellFormed}
use fisslock_bmv2_java.Lock.Roles.Packets.{lock_packet_process-IsWellFormed}
use fisslock_bmv2_java.Lock.Roles.Calls.{calls-IsWellFormed}
use fisslock_bmv2_java.Lock.PushBack.{
  MayGiveUp, IsPacked, process_push_back-pass_on, process_push_back-give_up,
}
use fisslock_bmv2_java.Lock.Delays.{
  IsEarly, IsLost, holder_in, forwards, acquire_after_release, repeat_acquire, repeat_acquire_ends,
}
use fisslock_bmv2_java.Lock.Tests.Data.{host_one, near_lock, agent_lock, waiter, reader, packet_of}

near : lock_out_of_range near_lock ≡ false
unfolding lock_out_of_range
near = refl

agent_near : lock_out_of_range (agent_lock (waiter ∷ [])) ≡ false
unfolding lock_out_of_range
agent_near = refl

agent-IsWellFormed : IsWellFormed (agent_lock (waiter ∷ []))
agent-IsWellFormed = record { role = inr refl; requests = (inr refl, tt) }

waiter-IsPacked : IsPacked waiter
waiter-IsPacked = record { task_fits = omega arith; host_fits = omega arith }

agent-MayGiveUp : MayGiveUp (agent_lock (waiter ∷ []))
agent-MayGiveUp = record {
  formed = agent-IsWellFormed;
  agent = refl;
  on_time = refl;
  short = omega arith;
  packed = (waiter-IsPacked, tt);
}

-- A release of the last holder, and an exclusive acquire.
abbrev rel : Packet
rel = packet_of post_lock_release 0 8

abbrev acq : Packet
acq = packet_of post_lock_acquire 1 8

lock_packet_process-IsWellFormed_example :
    IsWellFormed (lock_packet_process 1 none (agent_lock (waiter ∷ [])) acq).lock
lock_packet_process-IsWellFormed_example =
    lock_packet_process-IsWellFormed 1 none (agent_lock (waiter ∷ [])) acq agent_near tt
      agent-IsWellFormed

calls-IsWellFormed_example :
    IsWellFormed (lock_acquire_async host_one (agent_lock (waiter ∷ [])) 5 lock_shared).lock
    × IsWellFormed (lock_release host_one (agent_lock (waiter ∷ [])) 5).lock
calls-IsWellFormed_example =
    calls-IsWellFormed host_one (agent_lock (waiter ∷ [])) 5 lock_shared refl agent_near
      agent-IsWellFormed

process_push_back-pass_on_example :
    let o = pass_on 1 (agent_lock (waiter ∷ [])) rel (waiter ∷ []) in
    (process_push_back o.lock o.packet).lock
    ≡ record (agent_lock (waiter ∷ [])) { ncnt = 2 % 2 ^ 8 }
unfolding pass_on goes_on
process_push_back-pass_on_example =
    process_push_back-pass_on false 1 (agent_lock (waiter ∷ [])) rel agent-MayGiveUp (omega arith)
      refl

-- What goes out when `lock_release` gives the lock up for the waiter.
abbrev transfer : Sent
transfer = send_post_transfer none 1 lock_excl 5 2 9 0 [] (2 % 2 ^ 8) lock_excl

transfer_sent : (give_up host_one (agent_lock (waiter ∷ [])) (waiter ∷ [])).sent ≡ transfer ∷ []
unfolding give_up
transfer_sent = refl

process_push_back-give_up_example :
    (process_push_back
      (give_up host_one (agent_lock (waiter ∷ [])) (waiter ∷ [])).lock
      transfer.packet).lock
    ≡ record (agent_lock (waiter ∷ [])) { ncnt = 2 % 2 ^ 8 }
process_push_back-give_up_example =
    process_push_back-give_up host_one refl (agent_lock (waiter ∷ [])) agent-MayGiveUp transfer
      (omega arith) transfer_sent

lock_digest_wq_lem_example : lock_digest_wq near_lock (reader ∷ waiter ∷ []) 2 ≡ (
  digested near_lock (take 2 (reader ∷ waiter ∷ [])),
  map (digest_grant near_lock) (filter wants_shared (take 2 (reader ∷ waiter ∷ []))),
)
lock_digest_wq_lem_example = lock_digest_wq_lem near_lock (reader ∷ waiter ∷ []) 2 (omega arith)

-- The agent of task 3 of host 2, which holds the lock.
abbrev held_lock : InnetLock
held_lock = record (agent_lock []) { holders = lock_holder 2 3 ∷ [] }

rel-IsEarly : IsEarly held_lock rel
unfolding lock_out_of_range lock_has_holder lock_no_holders remove_waiter contains lock_holder
rel-IsEarly = record { near = refl; no_holder = refl; no_waiter = refl; others = refl }

acquire_after_release_example :
    let o = process_acquire (process_release 1 held_lock rel).lock acq in
    (o.ret ≡ 0)
    × (o.lock.holders ≡ lock_holder 2 3 ∷ [])
    × (o.lock.wqueue ≡ [])
    × (o.lock.mode ≡ lock_excl)
    × (o.lock.is_agent ≡ true)
    × (lookup (holder_in rel) o.lock.early_release ≡ some false)
acquire_after_release_example = acquire_after_release 1 held_lock rel acq rel-IsEarly refl refl

acq-IsLost : IsLost near_lock acq
unfolding lock_out_of_range mode lookup
acq-IsLost = record { near = refl; stranger = refl; exclusive = refl; no_note = refl }

no_forwards : forwards near_lock acq + 3 ≡ 3
unfolding lookup
no_forwards = refl

repeat_acquire_ends_example :
    let r = repeat_acquire 4 near_lock acq in
    (r.0 ≡ replicate 3 1 ++ 0 ∷ [])
    × (r.1.wqueue ≡ [] ++ make_wqe lock_excl 8 2 ∷ [])
    × (lookup (holder_in acq) r.1.fwd_back_cnt ≡ none)
repeat_acquire_ends_example = repeat_acquire_ends acq 3 near_lock acq-IsLost no_forwards
