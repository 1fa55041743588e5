-- ===== src/Tpcc/Generator.antt =====
-- experiments/trace_gen/tpcc_trace_gen/tpcc_lock_gen.cc and main.cc: the transactions, each of which
-- asks for its locks.
use fisslock_bmv2_java.Base.{
  ℕ, zero, suc, ◌+◌, ◌*◌, ◌/◌, ◌%◌, List, [], if◌then◌else◌, ltb, insert, contains,
}
use fisslock_bmv2_java.Tpcc.Draws.{
  new_order, payment, order_status, delivery, stock_level, shared, exclusive, cpd,
  customers_per_lock, warehouse_start_idx, district_start_idx, customer_start_idx, order_start_idx,
  history_start_idx, new_order_start_idx, order_line_start_idx, stock_start_idx, TpccLockGen,
  gen_request, Run, and_then, Drawn, urand, nurand, own_wid, remote_wid, unused_iid, finished,
}

module _ (rand_r : ℕ → ℕ) where
  -- The lock of a stock partition, unless this order has it.
  abbrev pub lock_stock : ℕ → List ℕ → ℕ → TpccLockGen → TpccLockGen
  lock_stock wid sids sid s =
      if contains sid sids
      then s
      else gen_request wid new_order exclusive (stock_start_idx wid + sid) s

  -- The loop over the order lines, from `i` lines before its end, and what comes after it.
  unfoldable pub order_lines : ℕ → ℕ → ℕ → List ℕ → List ℕ → TpccLockGen → (TpccLockGen → Run) → Run
  order_lines fuel wid zero iids sids s k = k s
  order_lines fuel wid (suc i) iids sids s k = unused_iid rand_r fuel iids s (λ iid.
      let n = urand rand_r 100000 iid.after in
      let sid = n.value % 30 in
      order_lines fuel wid i (insert iid.value iids) (insert sid sids)
        (lock_stock wid sids sid n.after) k)

  unfoldable pub end_new_order : ℕ → TpccLockGen → Run
  end_new_order wid s = finished (
      gen_request wid new_order exclusive (order_line_start_idx wid + s.order_line_num % 10)
        (record s { order_line_num = suc s.order_line_num }))

  unfoldable pub generate_new_order : ℕ → TpccLockGen → Run
  generate_new_order fuel s =
      let w = own_wid rand_r s in
      let wid = w.value in
      let s1 = gen_request wid new_order shared (warehouse_start_idx wid) w.after in
      let did = urand rand_r 10 s1 in
      let s2 = gen_request wid new_order exclusive (district_start_idx wid + did.value) did.after in
      let n = nurand rand_r 1024 cpd s2 in
      let cid = (n.value + did.value * cpd) / customers_per_lock in
      let s3 = gen_request wid new_order shared (customer_start_idx wid + cid) n.after in
      let s4 =
        gen_request wid new_order exclusive (order_start_idx wid + s3.order_num % 10)
          (record s3 { order_num = suc s3.order_num }) in
      let s5 =
        gen_request wid new_order exclusive (new_order_start_idx wid + s4.new_order_num % 10)
          (record s4 { new_order_num = suc s4.new_order_num }) in
      order_lines fuel wid 10 [] [] s5 (end_new_order wid)

  unfoldable pub end_payment : ℕ → TpccLockGen → Run
  end_payment wid s = finished (
      gen_request wid payment exclusive (history_start_idx wid + s.history_num % 10)
        (record s { history_num = suc s.history_num }))

  -- The customer of a payment, of this warehouse or of another machine's.
  unfoldable pub pay : ℕ → ℕ → ℕ → ℕ → TpccLockGen → Run
  pay fuel wid x cid s =
      let remote = remote_wid rand_r fuel s (λ swid.
        end_payment wid
          (gen_request wid payment exclusive (customer_start_idx swid.value + cid) swid.after)) in
      if ltb x 85
      then end_payment wid (gen_request wid payment exclusive (customer_start_idx wid + cid) s)
      else remote

  -- The customer by last name or by number.
  abbrev pub draw_customer : ℕ → TpccLockGen → Drawn
  draw_customer y s = if ltb y 60 then nurand rand_r 256 1000 s else nurand rand_r 1024 3000 s

  unfoldable pub generate_payment : ℕ → TpccLockGen → Run
  generate_payment fuel s =
      let w = own_wid rand_r s in
      let wid = w.value in
      let x = urand rand_r 100 w.after in
      let y = urand rand_r 100 x.after in
      let s1 = gen_request wid payment exclusive (warehouse_start_idx wid) y.after in
      let did = urand rand_r 10 s1 in
      let s2 = gen_request wid payment exclusive (district_start_idx wid + did.value) did.after in
      let n = draw_customer y.value s2 in pay fuel wid x.value (n.value % 30) n.after

  unfoldable pub generate_order_status : TpccLockGen → Run
  generate_order_status s =
      let w = own_wid rand_r s in
      let wid = w.value in
      let y = urand rand_r 100 w.after in
      let n = draw_customer y.value y.after in
      let s1 =
        gen_request wid order_status shared (customer_start_idx wid + n.value % 30) n.after in
      let olk = urand rand_r 10 s1 in
      let s2 = gen_request wid order_status shared (order_start_idx wid + olk.value) olk.after in
      let ollk = urand rand_r 10 s2 in
      finished
        (gen_request wid order_status shared (order_line_start_idx wid + ollk.value) ollk.after)

  unfoldable pub generate_delivery : TpccLockGen → Run
  generate_delivery s =
      let w = own_wid rand_r s in
      let wid = w.value in
      let nolk = urand rand_r 10 w.after in
      let s1 =
        gen_request wid delivery exclusive (new_order_start_idx wid + nolk.value) nolk.after in
      let olk = urand rand_r 10 s1 in
      let s2 = gen_request wid delivery exclusive (order_start_idx wid + olk.value) olk.after in
      let ollk = urand rand_r 10 s2 in
      let s3 = gen_request wid delivery shared (order_line_start_idx wid + ollk.value) ollk.after in
      let n = nurand rand_r 1024 3000 s3 in
      finished (gen_request wid delivery exclusive (customer_start_idx wid + n.value % 30) n.after)

  unfoldable pub generate_stock_level : TpccLockGen → Run
  generate_stock_level s =
      let w = own_wid rand_r s in
      let wid = w.value in
      let did = urand rand_r 10 w.after in
      let s1 = gen_request wid stock_level shared (district_start_idx wid + did.value) did.after in
      let ollk = urand rand_r 10 s1 in
      let s2 =
        gen_request wid stock_level shared (order_line_start_idx wid + ollk.value) ollk.after in
      let sid = urand rand_r 30 s2 in
      finished (gen_request wid stock_level shared (stock_start_idx wid + sid.value) sid.after)

  -- By the standard mix of transactions.
  unfoldable pub generate : ℕ → ℕ → TpccLockGen → Run
  generate fuel txn_id s =
      let val = urand rand_r 100 (record s { tpcc_txn_id = txn_id }) in
      if ltb val.value 45
      then generate_new_order fuel val.after
      else if ltb val.value 88
      then generate_payment fuel val.after
      else if ltb val.value 92
      then generate_order_status val.after
      else if ltb val.value 96
      then generate_delivery val.after
      else if ltb val.value 100
      then generate_stock_level val.after
      else finished val.after

  -- The loop of `main`: one transaction after another, whose requests are printed.
  unfoldable pub run_txns : ℕ → ℕ → ℕ → TpccLockGen → Run
  run_txns fuel txn_id zero s = finished s
  run_txns fuel txn_id (suc count) s =
      and_then (generate fuel txn_id s) (λ s'. run_txns fuel (suc txn_id) count s')
