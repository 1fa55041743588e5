-- ===== src/Recovery/Host.antt =====
-- A host's part in a recovery: `integrity_check` of lib/lock.cc, and lib/fault.cc. What it sends to
-- the RPC daemon is a report; the daemon's answer to RPC_CHECK_HOLDER is a parameter, a function on
-- the daemon's state, and its answers to the repeated questions are a list. Logs and sleeps are left
-- out. An undefined step gives `none`.
use fisslock_bmv2_java.Base.{
  ℕ, zero, suc, ◌+◌, ◌/◌, ◌%◌, ◌^◌, Bool, true, false, ◌||◌, List, [], ◌∷◌, ◌++◌, map, Option, none,
  some, if◌then◌else◌, ◌==◌, ltb, length, take, get_elem?, set, insert, is_empty,
}
use fisslock_bmv2_java.Post.{lock_shared, lock_excl, Wqe}
use fisslock_bmv2_java.Lock.State.{InnetLock, lock_holder, lock_holder_host, host_num}
use fisslock_bmv2_java.Recovery.{CheckHolderReply}

-- `SERVER_FAILED(code, mid)`
unfoldable pub server_failed : ℕ → ℕ → Bool
server_failed code mid = code / 2 ^ mid % 2 == 0

-- RPC_COLLECT_HOLDERS and RPC_COLLECT_WAITERS.
pub data Report : Type 0 where
  collect_holders_req : ℕ → ℕ → Report
  collect_waiters_req : ℕ → ℕ → Report

-- Whether the loop over the holders erases one: `erase` makes the loop's iterator invalid, and its
-- next step is undefined.
unfoldable pub erases_holder : ℕ → List ℕ → Bool
unfolding lock_holder_host
erases_holder i [] = false
erases_holder i (lh ∷ lhs) = let rest = erases_holder i lhs in (lock_holder_host lh == i) || rest

-- The loop over the wait queue: after an `erase`, `w` stands at the next entry, which `w++` skips.
unfoldable pub erase_waiters : ℕ → List Wqe → List Wqe
erase_waiters i [] = []
erase_waiters i (w ∷ []) = if w.host == i then [] else w ∷ []
erase_waiters i (w ∷ x ∷ ws) = elim (w.host == i) [
  | true ↦ x ∷ erase_waiters i ws
  | false ↦ w ∷ erase_waiters i (x ∷ ws)
]

unfoldable pub remove_host : ℕ → InnetLock → Option InnetLock
unfolding erases_holder erase_waiters
remove_host i l =
    if erases_holder i l.holders
    then none
    else some (record l { wqueue = erase_waiters i l.wqueue })

-- The loop over the hosts from `i` on, `n` of them.
unfoldable pub remove_failed : ℕ → ℕ → ℕ → InnetLock → Option InnetLock
unfolding server_failed
remove_failed code i zero l = some l
remove_failed code i (suc n) l = elim (server_failed code i) [
  | false ↦ remove_failed code (i + 1) n l
  | true ↦ elim (remove_host i l) [ none ↦ none | some l' ↦ remove_failed code (i + 1) n l' ]
]

abbrev pub waiter_report : InnetLock → Wqe → Report
waiter_report l w = collect_waiters_req l.id (lock_holder w.host w.task)

abbrev pub holder_report : ℕ → InnetLock → ℕ → Report
holder_report host l task = collect_holders_req l.id (lock_holder host task)

-- One round of the first scan of the lock table.
unfoldable pub submit_lock : ℕ → ℕ → InnetLock → Option (InnetLock × List Report)
submit_lock host code l =
    let held = map (holder_report host l) l.local_holders in
    if l.is_agent
    then (elim (remove_failed code 0 host_num l) [
      | none ↦ none
      | some l' ↦ some (l', held ++ map (waiter_report l') l'.wqueue)
    ])
    else some (l, held)

-- The scan, over the places of the locks of the table.
unfoldable pub submit_all : ℕ → ℕ → List ℕ → List InnetLock → Option (List InnetLock × List Report)
submit_all host code [] store = some (store, [])
submit_all host code (ptr ∷ ptrs) store = elim (get_elem? store ptr) [
  | none ↦ none
  | some l ↦ elim (submit_lock host code l) [
    | none ↦ none
    | some (l', reports) ↦ elim (submit_all host code ptrs (set store ptr l')) [
      | none ↦ none
      | some (store', rest) ↦ some (store', reports ++ rest)
    ]
  ]
]

-- The loop that asks RPC_RECOVERY_READY until the answer is 1: whether it ends with these answers.
unfoldable pub await_ready : List Bool → Bool
await_ready [] = false
await_ready (ready ∷ replies) = ready || await_ready replies

unfoldable pub insert_all : List ℕ → List ℕ → List ℕ
insert_all [] holders = holders
insert_all (lh ∷ lhs) holders = insert_all lhs (insert lh holders)

-- The loop over `extra_holders`: one that the daemon has not written is undefined.
unfoldable pub add_extra : CheckHolderReply → List ℕ → Option (List ℕ)
unfolding insert_all
add_extra reply holders =
    if ltb (length reply.extra_holders) reply.extra_num
    then none
    else some (insert_all (take reply.extra_num reply.extra_holders) holders)

-- What the answer to a host without the agent's role makes of the lock, and whether it is the agent
-- now. `holder_num` of the request is 0.
unfoldable pub become_agent : InnetLock → CheckHolderReply → Option (InnetLock × Bool)
unfolding add_extra
become_agent l reply =
    if reply.extra_num == 0 then some (l, false) else (elim (add_extra reply l.holders) [
      | none ↦ none
      | some holders ↦ some (
        record l {
          is_agent = true;
          mode = if ltb 1 reply.extra_num then lock_shared else lock_excl;
          holders = holders;
        },
        true,
      )
    ])

module _ {S : Type 0} (rpc_check_holder : S → ℕ → ℕ → Bool → Option (S × CheckHolderReply)) where
  -- An agent compares its number of holders. (A set has no more than 2^32 of them.)
  unfoldable pub restore_agent : S → InnetLock → Option (S × InnetLock)
  unfolding add_extra
  restore_agent s l = elim (rpc_check_holder s l.id (length l.holders % 2 ^ 32) true) [
    | none ↦ none
    | some (s', reply) ↦ elim (add_extra reply l.holders) [
      | none ↦ none
      | some holders ↦ some (s', record l { holders = holders })
    ]
  ]

  unfoldable pub restore_holder : S → InnetLock → Option (S × InnetLock × Bool)
  unfolding become_agent
  restore_holder s l = elim (rpc_check_holder s l.id 0 false) [
    | none ↦ none
    | some (s', reply) ↦ elim (become_agent l reply) [
      | none ↦ none
      | some (l', agent) ↦ some (s', l', agent)
    ]
  ]

  -- One round of the second scan: the lock, and whether this host is its agent.
  unfoldable pub restore_lock : S → InnetLock → Option (S × InnetLock × Bool)
  restore_lock s l =
      if l.is_agent
      then (elim (restore_agent s l) [ none ↦ none | some (s', l') ↦ some (s', l', true) ])
      else if is_empty l.local_holders
      then some (s, l, false)
      else restore_holder s l

  -- The scan, which collects the places of the locks with an agent here (`lks_w_agt`).
  unfoldable pub restore_all : S → List ℕ → List InnetLock → Option (S × List InnetLock × List ℕ)
  restore_all s [] store = some (s, store, [])
  restore_all s (ptr ∷ ptrs) store = elim (get_elem? store ptr) [
    | none ↦ none
    | some l ↦ elim (restore_lock s l) [
      | none ↦ none
      | some (s', l', agent) ↦ elim (restore_all s' ptrs (set store ptr l')) [
        | none ↦ none
        | some (s'', store', agents) ↦ some (s'', store', (if agent then ptr ∷ agents else agents))
      ]
    ]
  ]
