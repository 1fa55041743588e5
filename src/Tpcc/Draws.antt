-- ===== src/Tpcc/Draws.antt =====
-- experiments/trace_gen/tpcc_trace_gen/tpcc_lock_gen.h and tpcc_lock_gen.cc: the numbers of locks, the
-- state of the generator, its requests and its random numbers. What `rand_r` gives, draw by draw, is
-- a function of the number of the draw. A loop that draws until something is new runs on fuel.
use Prim.Native.Nat.{bit_or}
use fisslock_bmv2_java.Base.{
  ℕ, zero, suc, ◌+◌, ◌*◌, ◌%◌, List, [], ◌∷◌, ◌++◌, if◌then◌else◌, ◌==◌, contains,
}

abbrev pub machine_num : ℕ
machine_num = 8

-- `WPM`, the warehouses per machine.
abbrev pub wpm : ℕ
wpm = 1200

abbrev pub new_order : ℕ
new_order = 1

abbrev pub payment : ℕ
payment = 2

abbrev pub order_status : ℕ
order_status = 3

abbrev pub delivery : ℕ
delivery = 4

abbrev pub stock_level : ℕ
stock_level = 5

abbrev pub shared : ℕ
shared = 1

abbrev pub exclusive : ℕ
exclusive = 2

-- `CPD`, the customers per district, and the size of a region of customers with one lock.
abbrev pub cpd : ℕ
cpd = 3000

abbrev pub customers_per_lock : ℕ
customers_per_lock = 1000

-- `LOCK_PER_WAREHOUSE`, and the first lock of each table in a warehouse.
abbrev pub lock_per_warehouse : ℕ
lock_per_warehouse = 121

abbrev pub warehouse_start_idx : ℕ → ℕ
warehouse_start_idx i = i * lock_per_warehouse

abbrev pub district_start_idx : ℕ → ℕ
district_start_idx i = warehouse_start_idx i + 1

abbrev pub customer_start_idx : ℕ → ℕ
customer_start_idx i = district_start_idx i + 10

abbrev pub order_start_idx : ℕ → ℕ
order_start_idx i = customer_start_idx i + 30

abbrev pub history_start_idx : ℕ → ℕ
history_start_idx i = order_start_idx i + 10

abbrev pub new_order_start_idx : ℕ → ℕ
new_order_start_idx i = history_start_idx i + 10

abbrev pub order_line_start_idx : ℕ → ℕ
order_line_start_idx i = new_order_start_idx i + 10

abbrev pub stock_start_idx : ℕ → ℕ
stock_start_idx i = order_line_start_idx i + 10

-- `LockRequest`, whose `seq_no` the generator does not set; `task` is always LOCK.
pub record LockRequest : Type 0 where
  pub user_id : ℕ
  pub lm_id : ℕ
  pub txn_type : ℕ
  pub lock_type : ℕ
  pub obj_index : ℕ

-- The generator, the counters of the file, the number of the next draw, and the requests so far.
pub record TpccLockGen : Type 0 where
  pub tpcc_machine_id : ℕ
  pub tpcc_txn_id : ℕ
  pub order_num : ℕ
  pub new_order_num : ℕ
  pub history_num : ℕ
  pub order_line_num : ℕ
  pub next_draw : ℕ
  pub requests : List LockRequest

-- `GEN_REQUEST`
abbrev pub gen_request : ℕ → ℕ → ℕ → ℕ → TpccLockGen → TpccLockGen
gen_request wid tt_ lt lid s = record s {
  requests =
      s.requests
      ++ record {
        user_id = s.tpcc_txn_id;
        lm_id = wid;
        txn_type = tt_;
        lock_type = lt;
        obj_index = lid;
      }
        ∷ [];
}

-- A run that has ended, or one in which a loop goes on when the fuel is spent.
pub data Run : Type 0 where
  finished stuck : TpccLockGen → Run

-- What comes after a call that has ended.
abbrev pub and_then : Run → (TpccLockGen → Run) → Run
and_then (finished s) k = k s
and_then (stuck s) k = stuck s

pub record Drawn : Type 0 where
  pub value : ℕ
  pub after : TpccLockGen

module _ (rand_r : ℕ → ℕ) where
  -- `URAND(range)` and `NURAND(A, range)`, the left operand of `|` first.
  abbrev pub urand : ℕ → TpccLockGen → Drawn
  urand range s = record {
    value = rand_r s.next_draw % range;
    after = record s { next_draw = suc s.next_draw };
  }

  abbrev pub nurand : ℕ → ℕ → TpccLockGen → Drawn
  nurand a range s =
      let x = urand a s in
      let y = urand range x.after in
      record { value = bit_or x.value y.value % range; after = y.after }

  -- `tpcc_machine_id * WPM + URAND(WPM)`
  abbrev pub own_wid : TpccLockGen → Drawn
  own_wid s =
      let w = urand wpm s in record { value = s.tpcc_machine_id * wpm + w.value; after = w.after }

  -- `REMOTE_WID(tpcc_machine_id)`, and what comes after it.
  unfoldable pub remote_wid : ℕ → TpccLockGen → (Drawn → Run) → Run
  remote_wid zero s k = stuck s
  remote_wid (suc fuel) s k =
      let smid = urand machine_num s in
      let again = remote_wid fuel smid.after k in
      let w = urand wpm smid.after in
      if smid.value == s.tpcc_machine_id
      then again
      else k (record { value = smid.value * wpm + w.value; after = w.after })

  -- The loop that draws an item lock which is not used yet, and what comes after it.
  unfoldable pub unused_iid : ℕ → List ℕ → TpccLockGen → (Drawn → Run) → Run
  unused_iid zero used s k = stuck s
  unused_iid (suc fuel) used s k =
      let n = nurand 8192 100000 s in
      let iid = n.value % 10 in
      let again = unused_iid fuel used n.after k in
      if contains iid used then again else k (record { value = iid; after = n.after })

-- `TPCCLockGen generator(machine_id - 1)`, before the first draw.
abbrev pub new_generator : ℕ → TpccLockGen
new_generator mid = record {
  tpcc_machine_id = mid;
  tpcc_txn_id = 0;
  order_num = 0;
  new_order_num = 0;
  history_num = 0;
  order_line_num = 0;
  next_draw = 0;
  requests = [];
}
