-- ===== src/Recovery/Restoring.antt =====
-- A recovery on a host (`integrity_check` of lib/lock.cc) with the coordinator of rpc/main.cc: an agent
-- that is lost is restored from the reports of the holders.
use fisslock_bmv2_java.Base.{
  ℕ, ◌≤◌, ◌≡◌, ◌∙◌, ◌==◌, ◌||◌, true, false, List, [], ◌∷◌, map, some, arith, inl, inr, refl, ap,
  if◌then◌else◌, ltb, length, take-length, contains, contains-insert, insert, is_empty, Bool-cases,
  lookup-assign,
}
use fisslock_bmv2_java.Post.{lock_shared, lock_excl}
use fisslock_bmv2_java.Lock.State.{InnetLock, lock_holder}
use fisslock_bmv2_java.Recovery.{
  set_insert, set_contains, LockData, Coordinator, data_of, with_data, collect_holders,
  collect_waiters, max_holders, no_holders, check_holder, check_holder_server,
}
use fisslock_bmv2_java.Recovery.Holders.{contains-set_insert, server_restores, server_refuses}
use fisslock_bmv2_java.Recovery.Host.{
  Report, collect_holders_req, collect_waiters_req, holder_report, submit_lock, insert_all,
  add_extra, become_agent, restore_holder, restore_lock,
}

-- The daemon's handler for a report.
unfoldable pub run_report : Coordinator → Report → Coordinator
unfolding collect_holders collect_waiters
run_report s (collect_holders_req lid holder) = collect_holders s lid holder
run_report s (collect_waiters_req lid waiter) = collect_waiters s lid waiter

unfoldable pub run_reports : Coordinator → List Report → Coordinator
run_reports s [] = s
run_reports s (r ∷ rs) = run_reports (run_report s r) rs

abbrev pub Collected : Coordinator → ℕ → ℕ → Type 0
Collected s lid holder = set_contains holder (data_of s lid).holders ≡ true

data_of-with_data :
    (s : Coordinator) (k lid : ℕ) (d : LockData)
    → data_of (with_data s k d) lid ≡ (if k == lid then d else data_of s lid)
data_of-with_data s k lid d = ground (arith, lookup-assign k lid d s.lm_state)

report_keeps :
    (s : Coordinator) (lid holder : ℕ) (r : Report)
    → Collected s lid holder
    → Collected (run_report s r) lid holder
unfolding run_report
report_keeps s lid holder (collect_holders_req k h) c =
    let d = data_of s k in
    ground (
      arith,
      data_of-with_data s k lid (record d { holders = set_insert h d.holders }),
      contains-set_insert h holder d.holders,
    )
report_keeps s lid holder (collect_waiters_req k w) c =
    let d = data_of s k in
    ground (
      arith,
      data_of-with_data s k lid (record d { has_agent = true; waiters = set_insert w d.waiters }),
    )

reports_keep :
    (s : Coordinator) (lid holder : ℕ) (rs : List Report)
    → Collected s lid holder
    → Collected (run_reports s rs) lid holder
unfolding run_reports
reports_keep s lid holder [] c = c
reports_keep s lid holder (r ∷ rs) c =
    reports_keep (run_report s r) lid holder rs (report_keeps s lid holder r c)

report_collects :
    (s : Coordinator) (lid holder : ℕ)
    → Collected (run_report s (collect_holders_req lid holder)) lid holder
unfolding run_report
report_collects s lid holder =
    let d = data_of s lid in
    ground (
      arith,
      data_of-with_data s lid lid (record d { holders = set_insert holder d.holders }),
      contains-set_insert holder holder d.holders,
    )

abbrev pub holder_reports : ℕ → InnetLock → List ℕ → List Report
holder_reports host l tasks = map (holder_report host l) tasks

Collected-holder_reports :
    (s : Coordinator) (host : ℕ) (l : InnetLock) (tasks : List ℕ) (task : ℕ)
    → contains task tasks ≡ true
    → Collected (run_reports s (holder_reports host l tasks)) l.id (lock_holder host task)
unfolding run_reports contains
Collected-holder_reports s host l [] task c = cc
Collected-holder_reports s host l (t ∷ tasks) task c = elim (Bool-cases (t == task)) [
  | inl e ↦
      let same : t ≡ task = ground arith in
      rw same (
        reports_keep _ l.id (lock_holder host task) (holder_reports host l tasks)
          (report_collects s l.id (lock_holder host task)))
  | inr e ↦
      Collected-holder_reports (run_report s (holder_report host l t)) host l tasks task (rw e at c)
]

contains-insert_all :
    (h : ℕ) (lhs hs : List ℕ)
    → contains h (insert_all lhs hs) ≡ (set_contains h lhs || contains h hs)
unfolding insert_all set_contains
contains-insert_all h [] hs = refl
contains-insert_all h (lh ∷ lhs) hs =
    ground (arith, contains-insert_all h lhs (insert lh hs), contains-insert lh h hs)

not_empty : (task : ℕ) (tasks : List ℕ) → contains task tasks ≡ true → is_empty tasks ≡ false
unfolding contains
not_empty task [] c = cc
not_empty task (t ∷ tasks) c = refl

some_collected : (h : ℕ) (hs : List ℕ) → set_contains h hs ≡ true → 1 ≤ length hs
unfolding set_contains
some_collected h [] c = cc
some_collected h (x ∷ hs) c = omega arith

-- What an answer with all collected holders makes of the lock.
abbrev pub restored_lock : InnetLock → List ℕ → InnetLock
restored_lock l collected = record l {
  is_agent = true;
  mode = if ltb 1 (length collected) then lock_shared else lock_excl;
  holders = insert_all collected l.holders;
}

becomes_agent :
    (l : InnetLock) (collected : List ℕ)
    → 1 ≤ length collected
    → become_agent l (record { extra_num = length collected; extra_holders = collected })
      ≡ some (restored_lock l collected, true)
unfolding become_agent add_extra
becomes_agent l collected many = ground (arith, take-length collected)

asks_as_holder :
    (s : Coordinator) (l : InnetLock)
    → l.is_agent ≡ false
    → is_empty l.local_holders ≡ false
    → restore_lock check_holder s l ≡ restore_holder check_holder s l
unfolding restore_lock
asks_as_holder s l a e = rw (a, e) refl

refused_stays :
    (s : Coordinator) (m : InnetLock)
    → check_holder_server s m.id ≡ some (s, no_holders)
    → restore_holder check_holder s m ≡ some (s, m, false)
unfolding restore_holder become_agent check_holder
refused_stays s m e = rw (e, restore_holder) refl

-- A host without the agent's role, a task of which holds a lock, reports it in a recovery. Whatever is
-- reported after that, if the coordinator then knows no agent of the lock and no more holders than an
-- answer has room for, the host's question makes it the agent: the task is among its holders, which are
-- those that were collected and those that the lock had, and its mode is shared exactly if more than
-- one was collected. And any other host
-- that asks after it, with a lock of that number, does not become an agent.
pub lost_agent_restored :
    (s : Coordinator) (host code task h : ℕ) (l m : InnetLock) (others : List Report)
    → l.is_agent ≡ false
    → contains task l.local_holders ≡ true
    → m.id ≡ l.id
    → m.is_agent ≡ false
    → is_empty m.local_holders ≡ false
    → let reports = holder_reports host l l.local_holders in
      let ready = run_reports (run_reports s reports) others in
      let collected = (data_of ready l.id).holders in
      (data_of ready l.id).has_agent ≡ false
      → length collected ≤ max_holders
      → (submit_lock host code l ≡ some (l, reports))
        × (asked : Coordinator) × (l' : InnetLock) × (restore_lock check_holder ready l
            ≡ some (asked, l', true))
        × (l'.is_agent ≡ true)
        × (contains (lock_holder host task) l'.holders ≡ true)
        × (contains h l'.holders ≡ (set_contains h collected || contains h l.holders))
        × (l'.mode ≡ (if ltb 1 (length collected) then lock_shared else lock_excl))
        × (restore_lock check_holder asked m ≡ some (asked, m, false))
unfolding submit_lock restore_holder check_holder
lost_agent_restored s host code task h l m others a c same am hm lost fits =
    let reports = holder_reports host l l.local_holders in
    let ready = run_reports (run_reports s reports) others in
    let d = data_of ready l.id in
    let mine =
      reports_keep (run_reports s reports) l.id (lock_holder host task) others
        (Collected-holder_reports s host l l.local_holders task c) in
    let many = some_collected (lock_holder host task) d.holders mine in
    let told = server_restores ready l.id d refl lost many fits in
    let became = becomes_agent l d.holders many in
    let asked = with_data ready l.id (record d { has_agent = true }) in
    let known : data_of asked l.id ≡ record d { has_agent = true } =
      ground (arith, data_of-with_data ready l.id l.id (record d { has_agent = true })) in
    let refused =
      server_refuses asked m.id (record d { has_agent = true }) (ap (data_of asked) same ∙ known)
        refl in
    (
      rw a refl,
      asked,
      restored_lock l d.holders,
      asks_as_holder ready l a (not_empty task l.local_holders c) ∙ ground (arith, told, became),
      refl,
      ground (arith, contains-insert_all (lock_holder host task) d.holders l.holders, mine),
      contains-insert_all h d.holders l.holders,
      refl,
      asks_as_holder asked m am hm ∙ refused_stays asked m refused,
    )
