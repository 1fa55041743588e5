-- ===== src/Tpcc/Transactions.antt =====
-- The transactions of the TPCC trace generator, one by one
-- (experiments/trace_gen/tpcc_trace_gen/tpcc_lock_gen.cc, main.cc).
use fisslock_bmv2_java.Base.{
  ℕ, zero, suc, ◌+◌, ◌*◌, ◌<◌, inl, inr, ◌==◌, ltb, arith, refl, Bool-cases,
}
use fisslock_bmv2_java.Tpcc.Draws.{
  machine_num, wpm, TpccLockGen, Run, Drawn, urand, own_wid, remote_wid,
}
use fisslock_bmv2_java.Tpcc.Generator.{
  end_payment, pay, draw_customer, generate_payment, generate_order_status, generate_delivery,
  generate_stock_level,
}
use fisslock_bmv2_java.Tpcc.Ownership.{state_of, Inv, IsOwn, add_own, add_customer}

module _ (mid : ℕ) (small : mid < machine_num) (rand_r : ℕ → ℕ) where
  pub IsOwn-own_wid : (s : TpccLockGen) → Inv mid small s → IsOwn mid small (own_wid rand_r s).value
  IsOwn-own_wid s v = (omega (arith, v.0), omega (arith, v.0))

  pub generate_stock_level-Inv :
      (s : TpccLockGen) → Inv mid small s → Inv mid small (state_of (generate_stock_level rand_r s))
  unfolding generate_stock_level
  generate_stock_level-Inv s v =
      let wid = (own_wid rand_r s).value in
      let own = IsOwn-own_wid s v in
      (
        v.0,
        add_own mid small _ _ wid own (omega arith) (omega arith) (
            add_own mid small _ _ wid own (omega arith) (omega arith)
              (add_own mid small _ _ wid own (omega arith) (omega arith) v.1)),
      )

  pub generate_delivery-Inv :
      (s : TpccLockGen) → Inv mid small s → Inv mid small (state_of (generate_delivery rand_r s))
  unfolding generate_delivery
  generate_delivery-Inv s v =
      let wid = (own_wid rand_r s).value in
      let own = IsOwn-own_wid s v in
      (
        v.0,
        add_own mid small _ _ wid own (omega arith) (omega arith) (
            add_own mid small _ _ wid own (omega arith) (omega arith) (
              add_own mid small _ _ wid own (omega arith) (omega arith)
                (add_own mid small _ _ wid own (omega arith) (omega arith) v.1))),
      )

  pub draw_customer-Inv :
      (y : ℕ) (s : TpccLockGen) → Inv mid small s → Inv mid small (draw_customer rand_r y s).after
  draw_customer-Inv y s v = elim (Bool-cases (ltb y 60)) [ inl e ↦ rw e v | inr e ↦ rw e v ]

  pub generate_order_status-Inv :
      (s : TpccLockGen)
      → Inv mid small s
      → Inv mid small (state_of (generate_order_status rand_r s))
  unfolding generate_order_status
  generate_order_status-Inv s v =
      let w = own_wid rand_r s in
      let y = urand rand_r 100 w.after in
      let own = IsOwn-own_wid s v in
      let drawn = draw_customer-Inv y.value y.after v in
      (
        drawn.0,
        add_own mid small _ _ w.value own (omega arith) (omega arith) (
            add_own mid small _ _ w.value own (omega arith) (omega arith)
              (add_own mid small _ _ w.value own (omega arith) (omega arith) drawn.1)),
      )

  pub end_payment-Inv :
      (wid : ℕ) (s : TpccLockGen)
      → IsOwn mid small wid
      → Inv mid small s
      → Inv mid small (state_of (end_payment rand_r wid s))
  unfolding end_payment
  end_payment-Inv wid s own v = (v.0, add_own mid small _ _ wid own (omega arith) (omega arith) v.1)

  pub remote_wid-Inv :
      (fuel : ℕ) (s : TpccLockGen) (k : Drawn → Run)
      → Inv mid small s
      → ((d : Drawn)
          → d.value < machine_num * wpm
          → Inv mid small d.after
          → Inv mid small (state_of (k d)))
      → Inv mid small (state_of (remote_wid rand_r fuel s k))
  unfolding remote_wid
  remote_wid-Inv zero s k v h = v
  remote_wid-Inv (suc fuel) s k v h =
      let smid = urand rand_r machine_num s in
      let w = urand rand_r wpm smid.after in
      elim (Bool-cases (smid.value == s.tpcc_machine_id)) [
        | inl e ↦ rw e (remote_wid-Inv fuel smid.after k v h)
        | inr e ↦
            rw e
              (h (record { value = smid.value * wpm + w.value; after = w.after }) (omega arith) v)
      ]

  pub pay-Inv :
      (fuel wid x cid : ℕ) (s : TpccLockGen)
      → IsOwn mid small wid
      → cid < 30
      → Inv mid small s
      → Inv mid small (state_of (pay rand_r fuel wid x cid s))
  unfolding pay
  pay-Inv fuel wid x cid s own fits v = elim (Bool-cases (ltb x 85)) [
    | inl e ↦ rw e (
        end_payment-Inv wid _ own
          (v.0, add_own mid small _ _ wid own (omega arith) (omega arith) v.1))
    | inr e ↦ rw e (
        remote_wid-Inv fuel s _ v (λ swid known v'.
          end_payment-Inv wid _ own
            (v'.0, add_customer mid small _ _ swid.value cid known fits refl v'.1)))
  ]

  pub generate_payment-Inv :
      (fuel : ℕ) (s : TpccLockGen)
      → Inv mid small s
      → Inv mid small (state_of (generate_payment rand_r fuel s))
  unfolding generate_payment
  generate_payment-Inv fuel s v =
      let w = own_wid rand_r s in
      let own = IsOwn-own_wid s v in
      pay-Inv fuel w.value _ _ _ own (omega arith) (
        draw_customer-Inv _ _ (
          v.0,
          add_own mid small _ _ w.value own (omega arith) (omega arith)
              (add_own mid small _ _ w.value own (omega arith) (omega arith) v.1),
        ))
