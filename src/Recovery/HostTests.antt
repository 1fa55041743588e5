-- ===== src/Recovery/HostTests.antt =====
-- The theorems about a host's part in a recovery at concrete locks, and runs of it.
use fisslock_bmv2_java.Base.{
  ℕ, zero, suc, ◌<◌, ◌≡◌, ◌==◌, Bool, true, false, ◌||◌, List, [], ◌∷◌, ◌++◌, map, Option, none,
  some, arith, refl, if◌then◌else◌, ltb, length, contains, lookup, assign, insert,
}
use fisslock_bmv2_java.Post.{lock_shared, lock_excl, Wqe, swap32, send_post_acquire}
use fisslock_bmv2_java.Lock.State.{InnetLock, new_lock, lock_holder}
use fisslock_bmv2_java.Lock.Table.{LockTable}
use fisslock_bmv2_java.Recovery.{
  set_insert, set_contains, Coordinator, data_of, collect_holders, check_holder,
  check_holder_server, fill_holders,
}
use fisslock_bmv2_java.Recovery.Host.{
  Report, collect_holders_req, server_failed, erases_holder, erase_waiters, waiter_report,
  submit_lock, submit_all, await_ready, restore_all, restore_lock, restore_holder, become_agent,
  add_extra, insert_all,
}
use fisslock_bmv2_java.Recovery.Integrity.{
  task_for_restore, Checked, integrity_check, restore_table, restore_posts, check_error,
  await_waiter,
}
use fisslock_bmv2_java.Recovery.Restoring.{
  run_report, run_reports, holder_reports, lost_agent_restored,
}
use fisslock_bmv2_java.Recovery.Failed.{failed_host_stays}

abbrev nothing_known : Coordinator
nothing_known = record { lm_state = []; fault_signal = 251; ready_bitmap = 0 }

-- Tasks of two hosts share a lock whose agent is lost.
abbrev held_by : ℕ → InnetLock
held_by task = record (new_lock 3 3) { local_holders = task ∷ [] }

abbrev other_report : List Report
other_report = collect_holders_req 3 (lock_holder 4 9) ∷ []

abbrev all_ready : Coordinator
all_ready =
    run_reports (run_reports nothing_known (holder_reports 5 (held_by 8) (8 ∷ []))) other_report

lost_agent_restored_example :
    (submit_lock 5 251 (held_by 8) ≡ some (held_by 8, holder_reports 5 (held_by 8) (8 ∷ [])))
    × (asked : Coordinator) × (l' : InnetLock) × (restore_lock check_holder all_ready (held_by 8)
        ≡ some (asked, l', true))
    × (l'.is_agent ≡ true)
    × (contains (lock_holder 5 8) l'.holders ≡ true)
    × (contains 77 l'.holders
        ≡ (set_contains 77 (data_of all_ready 3).holders || contains 77 (held_by 8).holders))
    × (l'.mode ≡ (if ltb 1 (length (data_of all_ready 3).holders) then lock_shared else lock_excl))
    × (restore_lock check_holder asked (held_by 9) ≡ some (asked, held_by 9, false))
unfolding new_lock run_reports run_report collect_holders set_insert contains lookup assign
    lock_holder
lost_agent_restored_example =
    lost_agent_restored nothing_known 5 251 8 77 (held_by 8) (held_by 9) other_report refl refl refl
      refl refl refl (omega arith)

-- Only host 2 has failed.
fails_two : (k : ℕ) → k < 8 → server_failed 251 k ≡ (k == 2)
unfolding server_failed
fails_two zero h = refl
fails_two (suc zero) h = refl
fails_two (suc (suc zero)) h = refl
fails_two (suc (suc (suc zero))) h = refl
fails_two (suc (suc (suc (suc zero)))) h = refl
fails_two (suc (suc (suc (suc (suc zero))))) h = refl
fails_two (suc (suc (suc (suc (suc (suc zero)))))) h = refl
fails_two (suc (suc (suc (suc (suc (suc (suc zero))))))) h = refl
fails_two (suc (suc (suc (suc (suc (suc (suc (suc k)))))))) h = absurd (omega arith)

abbrev waiter : ℕ → ℕ → Wqe
waiter host task = record { op = lock_shared; task = task; host = host }

-- The agent on host 5, with two waiters of host 2.
abbrev agent_lock : InnetLock
agent_lock = record (new_lock 3 3) {
  is_agent = true;
  mode = lock_excl;
  holders = 21474836488 ∷ [];
  wqueue = waiter 4 1 ∷ waiter 2 6 ∷ waiter 2 7 ∷ [];
}

failed_host_stays_example :
    let kept = waiter 4 1 ∷ waiter 2 7 ∷ [] in
    submit_lock 5 251 agent_lock ≡ (
      if erases_holder 2 agent_lock.holders
      then none
      else some (record agent_lock { wqueue = kept }, [] ++ map (waiter_report agent_lock) kept))
unfolding new_lock erase_waiters
failed_host_stays_example =
    failed_host_stays 5 251 2 agent_lock (waiter 4 1 ∷ []) [] (waiter 2 6) (waiter 2 7)
      (omega arith) fails_two refl refl (omega arith) refl refl

-- A whole recovery on host 5, which has a lock without an agent: it becomes the agent and tells the
-- switch by one acquire. A daemon that is never ready keeps it waiting.
abbrev one_lock : LockTable
one_lock = record { store = held_by 8 ∷ []; lock_tbl = (3, 0) ∷ []; lock_id_map = (3, 0) ∷ [] }

abbrev run_check : List Bool → Option (Checked Coordinator)
run_check replies = integrity_check check_holder none 5 251 replies all_ready one_lock

abbrev agents : Option (Checked Coordinator) → List (ℕ × ℕ)
agents none = []
agents (some c) = map (λ m. (swap32 m.packet.hdr.lock_id, m.packet.hdr.task_id)) c.posts

restored : agents (run_check (false ∷ true ∷ [])) ≡ (3, task_for_restore) ∷ []
unfolding integrity_check submit_all submit_lock await_ready restore_table restore_all restore_lock
    restore_holder become_agent add_extra insert_all restore_posts new_lock run_reports run_report
    collect_holders set_insert lookup assign lock_holder check_holder check_holder_server
    fill_holders send_post_acquire insert contains swap32
restored = refl

never_ready : run_check (false ∷ false ∷ []) ≡ none
unfolding integrity_check submit_all submit_lock await_ready new_lock
never_ready = refl

-- A waiter whom the daemon does not know aborts, after two answers that the recovery is not over.
aborts : check_error 251 251 2 (2 ∷ 2 ∷ 0 ∷ []) ≡ some (record { runs_check = true; ret = 1 })
unfolding check_error await_waiter
aborts = refl

no_fault : check_error 0 0 2 [] ≡ some (record { runs_check = false; ret = 0 })
unfolding check_error
no_fault = refl
