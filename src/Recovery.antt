-- ===== src/Recovery.antt =====
-- rpc/main.cc and the messages of lib/rpc.h: the registry of locks, and the coordinator that hosts
-- ask after a fault of the switch. A message that does not unmarshal changes nothing; only whole
-- messages are modelled. The file that the switch writes its ready signal to is an argument.
pub mod Registering
pub mod Holders
pub mod Ready
pub mod Host
pub mod Integrity
pub mod Restoring
pub mod Failed
pub mod HostTests
pub mod Tests
use fisslock_bmv2_java.Base.{
  ℕ, ◌+◌, ◌*◌, ◌/◌, ◌%◌, ◌^◌, Bool, true, false, ◌&&◌, ◌||◌, not, List, [], ◌∷◌, Option, none, some,
  if◌then◌else◌, ◌==◌, ltb, length, lookup, assign, emplace, get_or,
}

-- `rpc_server`'s lock table.
pub record Registry : Type 0 where
  pub lock_tbl : List (ℕ × ℕ)
  pub lid_pool : ℕ  -- uint32_t

-- The reply is the lock's number.
unfoldable pub lock_register : Registry → ℕ → Registry × ℕ
lock_register r lock = elim (lookup lock r.lock_tbl) [
  | some lid ↦ (r, lid)
  | none ↦
      let lid = (r.lid_pool + 1) % 2 ^ 32 in
      (record { lock_tbl = emplace lock lid r.lock_tbl; lid_pool = lid }, lid)
]

-- `std::set`: ascending, without repetition.
unfoldable pub set_insert : ℕ → List ℕ → List ℕ
set_insert a [] = a ∷ []
set_insert a (b ∷ bs) =
    let rest = set_insert a bs in
    if ltb a b then a ∷ b ∷ bs else if a == b then b ∷ bs else b ∷ rest

unfoldable pub set_contains : ℕ → List ℕ → Bool
set_contains a [] = false
set_contains a (b ∷ bs) = let rest = set_contains a bs in (a == b) || rest

-- `lock_data`
pub record LockData : Type 0 where
  pub has_agent : Bool
  pub holders : List ℕ
  pub waiters : List ℕ

-- What `lm_state[lid]` makes of a lock that is not there. (A `bool` of a new entry is false.)
abbrev pub no_data : LockData
no_data = record { has_agent = false; holders = []; waiters = [] }

-- The coordinator's state. `ready_bitmap` and `fault_signal` are uint64_t.
pub record Coordinator : Type 0 where
  pub lm_state : List (ℕ × LockData)
  pub fault_signal : ℕ
  pub ready_bitmap : ℕ

abbrev pub data_of : Coordinator → ℕ → LockData
data_of s lid = get_or no_data (lookup lid s.lm_state)

abbrev pub with_data : Coordinator → ℕ → LockData → Coordinator
with_data s lid d = record s { lm_state = assign lid d s.lm_state }

-- `x | (1 << i)`, for a machine number `i` below 31.
unfoldable pub set_bit : ℕ → ℕ → ℕ
set_bit i x = if x / 2 ^ i % 2 == 1 then x else x + 2 ^ i

unfoldable pub recovery_start : ℕ → ℕ
recovery_start ready_signal = ready_signal

unfoldable pub collect_holders : Coordinator → ℕ → ℕ → Coordinator
collect_holders s lid holder =
    let d = data_of s lid in with_data s lid (record d { holders = set_insert holder d.holders })

unfoldable pub collect_waiters : Coordinator → ℕ → ℕ → Coordinator
collect_waiters s lid waiter =
    let d = data_of s lid in
    with_data s lid (record d { has_agent = true; waiters = set_insert waiter d.waiters })

-- 2: some machine has not reported yet. 1: the waiter is known. A read by `lm_state[lid]` leaves the
-- map as it is, but for an entry that says nothing.
unfoldable pub check_waiter : Coordinator → ℕ → ℕ → ℕ
unfolding set_bit
check_waiter s lid waiter =
    if (s.fault_signal == 0) || not (set_bit 0 s.ready_bitmap == set_bit 0 s.fault_signal)
    then 2
    else if (data_of s lid).has_agent && set_contains waiter (data_of s lid).waiters
    then 1
    else 0

abbrev pub max_holders : ℕ
max_holders = 256

-- `check_holder_reply`: `extra_num`, and the holders that are written to its array.
pub record CheckHolderReply : Type 0 where
  pub extra_num : ℕ
  pub extra_holders : List ℕ

abbrev pub no_holders : CheckHolderReply
no_holders = record { extra_num = 0; extra_holders = [] }

-- The loop over the holders; a write beyond the array is undefined.
unfoldable pub fill_holders : List ℕ → Option CheckHolderReply
fill_holders holders =
    if ltb max_holders (length holders)
    then none
    else some (record { extra_num = length holders; extra_holders = holders })

-- The agent compares the number of holders that it knows.
unfoldable pub check_holder_agent : Coordinator → ℕ → ℕ → Option (Coordinator × CheckHolderReply)
unfolding fill_holders
check_holder_agent s lid holder_num =
    let holders = (data_of s lid).holders in
    if ltb holder_num (length holders)
    then (if ltb max_holders (length holders)
        then some (s, record { extra_num = length holders; extra_holders = [] })
        else (elim (fill_holders holders) [ none ↦ none | some reply ↦ some (s, reply) ]))
    else some (s, no_holders)

-- A server asks whether it has to restore a lost agent.
unfoldable pub check_holder_server : Coordinator → ℕ → Option (Coordinator × CheckHolderReply)
check_holder_server s lid =
    let d = data_of s lid in
    if not d.has_agent && ltb 0 (length d.holders)
    then (elim (fill_holders d.holders) [
      | none ↦ none
      | some reply ↦ some (with_data s lid (record d { has_agent = true }), reply)
    ])
    else some (s, no_holders)

unfoldable pub check_holder : Coordinator → ℕ → ℕ → Bool → Option (Coordinator × CheckHolderReply)
check_holder s lid holder_num is_agent =
    if is_agent then check_holder_agent s lid holder_num else check_holder_server s lid

-- `ready_bitmap | 1 == fault_signal | 1`, where `==` binds tighter than `|`.
unfoldable pub all_reported : Coordinator → ℕ
unfolding set_bit
all_reported s =
    if 1 == s.fault_signal then set_bit 0 (set_bit 0 s.ready_bitmap) else set_bit 0 s.ready_bitmap

-- The reply's `ready` is a Boolean.
unfoldable pub recovery_ready : ℕ → Coordinator → ℕ → ℕ → Coordinator × Bool
recovery_ready ready_signal s mid fault_code =
    let s' = record s { ready_bitmap = set_bit mid s.ready_bitmap; fault_signal = fault_code } in
    (s', not (ready_signal == 0) && not (all_reported s' == 0))
