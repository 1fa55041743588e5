-- ===== src/Tpcc/Ownership.antt =====
-- Whose locks the transactions of a machine ask for
-- (experiments/trace_gen/tpcc_trace_gen/tpcc_lock_gen.cc), beside the test by which a host treats a
-- lock as its own (lib/lock.cc).
use fisslock_bmv2_java.Base.{
  ℕ, ◌+◌, ◌-◌, ◌*◌, ◌/◌, ◌%◌, ◌≤◌, ◌<◌, ◌≡◌, ◌⊎◌, inl, inr, false, List, [], ◌∷◌, ◌++◌, arith, All,
  All-append,
}
use fisslock_bmv2_java.Lock.State.{new_lock, lock_out_of_range}
use fisslock_bmv2_java.Lock.Client.{is_tpcc_local}
use fisslock_bmv2_java.Tpcc.Draws.{
  machine_num, wpm, lock_per_warehouse, warehouse_start_idx, customer_start_idx, LockRequest,
  TpccLockGen, Run, finished, stuck,
}

-- A request by machine `mid`: its lock is one of the switch, and it stands in a warehouse of the
-- machine, or it is none of the locks that a host built for TPCC treats as its own.
unfoldable pub IsAllowed : ℕ → LockRequest → Type 0
IsAllowed mid r =
    let l = new_lock r.obj_index r.obj_index in
    (lock_out_of_range l ≡ false)
    × ((r.obj_index / lock_per_warehouse / wpm ≡ mid) ⊎ (is_tpcc_local l ≡ false))

abbrev pub state_of : Run → TpccLockGen
state_of (finished s) = s
state_of (stuck s) = s

module _ (mid : ℕ) (small : mid < machine_num) where
  abbrev pub Inv : TpccLockGen → Type 0
  Inv s = (s.tpcc_machine_id ≡ mid) × All (IsAllowed mid) s.requests

  own_lock :
      (r : LockRequest) (wid off : ℕ)
      → mid * wpm ≤ wid
      → wid < mid * wpm + wpm
      → off < lock_per_warehouse
      → r.obj_index ≡ wid * lock_per_warehouse + off
      → IsAllowed mid r
  unfolding IsAllowed lock_out_of_range new_lock
  own_lock r wid off low high fits e =
      let w : r.obj_index / lock_per_warehouse ≡ wid = omega (arith, e) in
      (ground (arith, e), inl (omega (arith, w)))

  customer_lock :
      (r : LockRequest) (wid cid : ℕ)
      → wid < machine_num * wpm
      → cid < 30
      → r.obj_index ≡ customer_start_idx wid + cid
      → IsAllowed mid r
  unfolding IsAllowed lock_out_of_range new_lock is_tpcc_local
  customer_lock r wid cid known fits e =
      let off : r.obj_index % lock_per_warehouse ≡ 11 + cid = omega (arith, e) in
      (ground (arith, e), inr (rw off (ground arith)))

  -- A request for a lock of a warehouse of the machine.
  abbrev pub IsOwn : ℕ → Type 0
  IsOwn wid = (mid * wpm ≤ wid) × (wid < mid * wpm + wpm)

  pub add_own :
      (xs : List LockRequest) (r : LockRequest) (wid : ℕ)
      → IsOwn wid
      → warehouse_start_idx wid ≤ r.obj_index
      → r.obj_index < warehouse_start_idx wid + lock_per_warehouse
      → All (IsAllowed mid) xs
      → All (IsAllowed mid) (xs ++ r ∷ [])
  add_own xs r wid own low high v = All-append (IsAllowed mid) xs (r ∷ []) v (
    own_lock r wid (r.obj_index - warehouse_start_idx wid) own.0 own.1 (omega (arith, low, high))
        (omega (arith, low)),
    tt,
  )

  pub add_customer :
      (xs : List LockRequest) (r : LockRequest) (wid cid : ℕ)
      → wid < machine_num * wpm
      → cid < 30
      → r.obj_index ≡ customer_start_idx wid + cid
      → All (IsAllowed mid) xs
      → All (IsAllowed mid) (xs ++ r ∷ [])
  add_customer xs r wid cid known fits e v =
      All-append (IsAllowed mid) xs (r ∷ []) v (customer_lock r wid cid known fits e, tt)
