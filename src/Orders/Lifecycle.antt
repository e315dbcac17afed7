-- ===== src/Orders/Lifecycle.antt =====
-- The life of an order over several calls.
use mathlib.Core.Path.{subst}
use software_engineering_car.Common.{
  ℕ, String, ◌≡◌, refl, some, List, map, arith, inl, inr, Option-cases, ==_refl,
}
use software_engineering_car.Common.Int.{int_laws}
use software_engineering_car.Common.Table.{row_at, key-row_at}
use software_engineering_car.Orders.Model.{
  OrderStatus, Order, OrderCreate, Result, ok, err, state_conflict, order_id,
}
use software_engineering_car.Orders.Client.{ServiceClient, Contract}
use software_engineering_car.Orders.{
  Faults, create_order, cancel_order, confirm_order, require_order,
}
use software_engineering_car.Orders.Creation.{Booked, create_order-Booked, requested_line}
use software_engineering_car.Orders.Cancellation.{
  Released, cancel_order-Released, row_at-set_status,
}

-- With a client that keeps the stock contract: when the cancellation of a RESERVED order has
-- succeeded, cancelling it again answers with the same order and changes nothing, so that no stock
-- is released twice.
pub cancel_order_repeat :
    {World : Type 0} (client : ServiceClient World) (contract : Contract client)
    (faults faults' : Faults) (db db' : List Order) (world world' : World) (o c : Order)
    → row_at order_id o.id db ≡ some o
    → o.status ≡ OrderStatus.reserved
    → cancel_order client o.id faults db world ≡ (ok c, db', world')
    → cancel_order client o.id faults' db' world' ≡ (ok c, db', world')
unfolding cancel_order
cancel_order_repeat {World} client contract faults faults' db db' world world' o c found status h =
    let (is_cancelled, stored, _) =
      subst
        (λ (t : Result × List Order × World).
          Released o db t.1 (contract.held world) (contract.held t.2) t.0)
        h (cancel_order-Released client contract faults db world o found status) in
    let there : row_at order_id o.id db' ≡ some c =
      rw (stored, is_cancelled) (row_at-set_status o.id OrderStatus.cancelled db o found) in
    let final : c.status ≡ OrderStatus.cancelled = rw is_cancelled refl in
    ground (arith, there, final)

-- With a client that keeps the stock contract: after a creation that succeeds and a cancellation of
-- that order that succeeds next, every reference holds at every place what it held before the
-- creation.
pub create_then_cancel :
    {World : Type 0} (client : ServiceClient World) (contract : Contract client)
    (number_of : ℕ → String) (request : OrderCreate) (new_id : ℕ) (faults faults' : Faults)
    (db db' db'' : List Order) (world world' world'' : World) (o c : Order)
    → create_order client number_of request new_id faults db world ≡ (ok o, db', world')
    → cancel_order client o.id faults' db' world' ≡ (ok c, db'', world'')
    → (p w : ℕ) (r : String) → contract.held world'' p w r ≡ contract.held world p w r
unfolding row_at
create_then_cancel {World} client contract number_of request new_id faults faults' db db' db'' world
      world' world'' o c h k p w r =
    let (stored, reserved, booked) =
      subst
        (λ (t : Result × List Order × World).
          Booked request.warehouse_id (number_of new_id) (map requested_line request.items) db t.1
            (contract.held world) (contract.held t.2) t.0)
        h (create_order-Booked client contract number_of request new_id faults db world) in
    let there : row_at order_id o.id db' ≡ some o = rw stored (ground (arith, ==_refl o.id)) in
    let (_, _, released) =
      subst
        (λ (t : Result × List Order × World).
          Released o db' t.1 (contract.held world') (contract.held t.2) t.0)
        k (cancel_order-Released client contract faults' db' world' o there reserved) in
    let more = booked p w r in let less = released p w r in grind int_laws

confirm_order-row :
    (k : ℕ) (faults : Faults) (db db' : List Order) (o c : Order) (status : OrderStatus)
    → row_at order_id k db ≡ some o
    → o.status ≡ status
    → confirm_order k faults db ≡ (ok c, db')
    → (row_at order_id k db' ≡ some c) × (c.status ≡ OrderStatus.confirmed)
unfolding confirm_order require_order
confirm_order-row k faults db db' o c OrderStatus.pending found s h = absurd (ground arith)
confirm_order-row k faults db db' o c OrderStatus.cancelled found s h = absurd (ground arith)
confirm_order-row k faults db db' o c OrderStatus.confirmed found s h =
    (ground (arith, found, s), ground (arith, found, s))
confirm_order-row k faults db db' o c OrderStatus.reserved found s h =
    let key = key-row_at order_id k db o found in
    ground (arith, found, s, key, row_at-set_status k OrderStatus.confirmed db o found)

-- After a confirmation that succeeded, confirming the order again answers with it and changes
-- nothing, and cancelling it is a state conflict that changes nothing and calls no other service.
pub confirm_order_final :
    {World : Type 0} (client : ServiceClient World) (k : ℕ) (faults faults' : Faults)
    (db db' : List Order) (world : World) (c : Order)
    → confirm_order k faults db ≡ (ok c, db')
    → (confirm_order k faults' db' ≡ (ok c, db'))
      × (cancel_order client k faults' db' world
          ≡ (err (state_conflict k OrderStatus.confirmed), db', world))
unfolding confirm_order cancel_order
confirm_order_final client k faults faults' db db' world c h =
    elim (Option-cases (row_at order_id k db)) [
      | inl none_there ↦ absurd (ground (arith, none_there))
      | inr (o, found) ↦
          let (there, final) = confirm_order-row k faults db db' o c o.status found refl h in
          let key = key-row_at order_id k db' c there in
          (ground (arith, there, final), ground (arith, there, final, key))
    ]
