-- ===== src/Tpcc/Tests.antt =====
-- A trace of a few transactions.
use fisslock_bmv2_java.Base.{
  ℕ, ◌*◌, ◌/◌, ◌≡◌, List, [], ◌∷◌, map, length, All, get_or, get_elem?, arith, refl, contains,
  insert,
}
use fisslock_bmv2_java.Tpcc.Draws.{Run, remote_wid, unused_iid, new_generator}
use fisslock_bmv2_java.Tpcc.Generator.{
  order_lines, end_new_order, generate_new_order, end_payment, pay, generate_payment, generate,
  run_txns,
}
use fisslock_bmv2_java.Tpcc.Ownership.{IsAllowed, state_of}
use fisslock_bmv2_java.Tpcc.Traces.{run_txns-IsAllowed}

-- Numbers that are not random.
abbrev steps : ℕ → ℕ
steps n = n * 31 / 4

run_txns-IsAllowed_example :
    All (IsAllowed 2) (state_of (run_txns steps 20 1 3 (new_generator 2))).requests
run_txns-IsAllowed_example = run_txns-IsAllowed steps 2 20 1 3 (omega arith)

-- A payment of machine 2 for a customer of another machine; the first number drawn for that
-- machine is 2 again.
abbrev drawn : ℕ → ℕ
drawn n = get_or 0 (get_elem? (50 ∷ 7 ∷ 90 ∷ 10 ∷ 3 ∷ 1 ∷ 2 ∷ 2 ∷ 5 ∷ 4 ∷ []) n)

abbrev objects : Run → List ℕ
objects r = map (λ q. q.obj_index) (state_of r).requests

pays_elsewhere :
    objects (generate drawn 2 1 (new_generator 2)) ≡ 291247 ∷ 291251 ∷ 726498 ∷ 291298 ∷ []
unfolding generate generate_payment pay end_payment remote_wid
pays_elsewhere = refl

-- Without a second try the loop has not ended.
draws_again : objects (generate drawn 1 1 (new_generator 2)) ≡ 291247 ∷ 291251 ∷ []
unfolding generate generate_payment pay end_payment remote_wid
draws_again = refl

-- A new order with ten items, two of which have the same stock lock.
orders : length (objects (generate_new_order steps 20 (new_generator 2))) ≡ 15
unfolding generate_new_order order_lines unused_iid end_new_order contains insert
orders = refl
