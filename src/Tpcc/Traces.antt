-- ===== src/Tpcc/Traces.antt =====
-- New orders, and traces of any number of transactions
-- (experiments/trace_gen/tpcc_trace_gen/tpcc_lock_gen.cc, main.cc).
use fisslock_bmv2_java.Base.{
  ℕ, zero, suc, ◌%◌, ◌<◌, inl, inr, List, [], ltb, arith, refl, All, Bool-cases, contains,
}
use fisslock_bmv2_java.Tpcc.Draws.{
  machine_num, TpccLockGen, Run, and_then, Drawn, urand, nurand, own_wid, unused_iid, new_generator,
  finished, stuck,
}
use fisslock_bmv2_java.Tpcc.Generator.{
  lock_stock, order_lines, end_new_order, generate_new_order, generate, run_txns,
}
use fisslock_bmv2_java.Tpcc.Ownership.{IsAllowed, state_of, Inv, IsOwn, add_own}
use fisslock_bmv2_java.Tpcc.Transactions.{
  IsOwn-own_wid, generate_stock_level-Inv, generate_delivery-Inv, generate_order_status-Inv,
  generate_payment-Inv,
}

module _ (mid : ℕ) (small : mid < machine_num) (rand_r : ℕ → ℕ) where
  unused_iid-Inv :
      (fuel : ℕ) (used : List ℕ) (s : TpccLockGen) (k : Drawn → Run)
      → Inv mid small s
      → ((d : Drawn) → Inv mid small d.after → Inv mid small (state_of (k d)))
      → Inv mid small (state_of (unused_iid rand_r fuel used s k))
  unfolding unused_iid
  unused_iid-Inv zero used s k v h = v
  unused_iid-Inv (suc fuel) used s k v h =
      let n = nurand rand_r 8192 100000 s in
      elim (Bool-cases (contains (n.value % 10) used)) [
        | inl e ↦ rw e (unused_iid-Inv fuel used n.after k v h)
        | inr e ↦ rw e (h (record { value = n.value % 10; after = n.after }) v)
      ]

  lock_stock-Inv :
      (wid sid : ℕ) (sids : List ℕ) (s : TpccLockGen)
      → IsOwn mid small wid
      → sid < 30
      → Inv mid small s
      → Inv mid small (lock_stock rand_r wid sids sid s)
  lock_stock-Inv wid sid sids s own fits v = elim (Bool-cases (contains sid sids)) [
    | inl e ↦ rw e v
    | inr e ↦ rw e (v.0, add_own mid small _ _ wid own (omega arith) (omega (arith, fits)) v.1)
  ]

  order_lines-Inv :
      (fuel wid i : ℕ) (iids sids : List ℕ) (s : TpccLockGen) (k : TpccLockGen → Run)
      → IsOwn mid small wid
      → Inv mid small s
      → ((t : TpccLockGen) → Inv mid small t → Inv mid small (state_of (k t)))
      → Inv mid small (state_of (order_lines rand_r fuel wid i iids sids s k))
  unfolding order_lines
  order_lines-Inv fuel wid zero iids sids s k own v h = h s v
  order_lines-Inv fuel wid (suc i) iids sids s k own v h = unused_iid-Inv fuel iids s _ v (λ iid v'.
      order_lines-Inv fuel wid i _ _ _ k own (lock_stock-Inv wid _ sids _ own (omega arith) v') h)

  generate_new_order-Inv :
      (fuel : ℕ) (s : TpccLockGen)
      → Inv mid small s
      → Inv mid small (state_of (generate_new_order rand_r fuel s))
  unfolding generate_new_order end_new_order
  generate_new_order-Inv fuel s v =
      let wid = (own_wid rand_r s).value in
      let own = IsOwn-own_wid mid small rand_r s v in
      order_lines-Inv fuel wid 10 [] [] _ _ own
        (
          v.0,
          add_own mid small _ _ wid own (omega arith) (omega arith) (
              add_own mid small _ _ wid own (omega arith) (omega arith) (
                add_own mid small _ _ wid own (omega arith) (omega arith) (
                  add_own mid small _ _ wid own (omega arith) (omega arith)
                    (add_own mid small _ _ wid own (omega arith) (omega arith) v.1)))),
        )
        (λ t u. (u.0, add_own mid small _ _ wid own (omega arith) (omega arith) u.1))

  generate-Inv :
      (fuel txn_id : ℕ) (s : TpccLockGen)
      → Inv mid small s
      → Inv mid small (state_of (generate rand_r fuel txn_id s))
  unfolding generate
  generate-Inv fuel txn_id s v =
      let val = urand rand_r 100 (record s { tpcc_txn_id = txn_id }) in
      elim (Bool-cases (ltb val.value 45)) [
        | inl a ↦ rw a (generate_new_order-Inv fuel val.after v)
        | inr a ↦ elim (Bool-cases (ltb val.value 88)) [
          | inl b ↦ rw (a, b) (generate_payment-Inv mid small rand_r fuel val.after v)
          | inr b ↦ elim (Bool-cases (ltb val.value 92)) [
            | inl c ↦ rw (a, b, c) (generate_order_status-Inv mid small rand_r val.after v)
            | inr c ↦ elim (Bool-cases (ltb val.value 96)) [
              | inl d ↦ rw (a, b, c, d) (generate_delivery-Inv mid small rand_r val.after v)
              | inr d ↦ elim (Bool-cases (ltb val.value 100)) [
                | inl e ↦ rw (a, b, c, d, e) (generate_stock_level-Inv mid small rand_r val.after v)
                | inr e ↦ rw (a, b, c, d, e) v
              ]
            ]
          ]
        ]
      ]

  and_then-Inv :
      (r : Run) (k : TpccLockGen → Run)
      → Inv mid small (state_of r)
      → ((s : TpccLockGen) → Inv mid small s → Inv mid small (state_of (k s)))
      → Inv mid small (state_of (and_then r k))
  and_then-Inv (finished s) k v h = h s v
  and_then-Inv (stuck s) k v h = v

  run_txns-Inv :
      (fuel txn_id count : ℕ) (s : TpccLockGen)
      → Inv mid small s
      → Inv mid small (state_of (run_txns rand_r fuel txn_id count s))
  unfolding run_txns
  run_txns-Inv fuel txn_id zero s v = v
  run_txns-Inv fuel txn_id (suc count) s v =
      and_then-Inv (generate rand_r fuel txn_id s) _ (generate-Inv fuel txn_id s v)
        (λ s' v'. run_txns-Inv fuel (suc txn_id) count s' v')

-- A trace of a machine asks only for locks of the switch, and for a lock of another machine's
-- warehouse only if a host that is built for TPCC does not treat that lock as its own: the calls that
-- settle such locks without a packet never meet another machine's locks. That holds for any random
-- numbers, any first transaction, any number of transactions, and also for what was asked when a loop
-- that draws again has not ended.
pub run_txns-IsAllowed :
    (rand_r : ℕ → ℕ) (mid fuel txn_start txn_count : ℕ)
    → mid < machine_num
    → All
        (IsAllowed mid)
        (state_of (run_txns rand_r fuel txn_start txn_count (new_generator mid))).requests
run_txns-IsAllowed rand_r mid fuel txn_start txn_count small =
    (run_txns-Inv mid small rand_r fuel txn_start txn_count (new_generator mid) (refl, tt)).1
