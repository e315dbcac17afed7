-- ===== src/Orders/Cancellation.antt =====
-- The cancellation and the confirmation of an order.
use mathlib.Core.Path.{subst}
use software_engineering_car.Common.{
  ℕ, ◌+◌, String, ◌≡◌, refl, sym, ◌∙◌, Option, none, some, List, [], ◌∷◌, map, arith, ◌==◌,
}
use software_engineering_car.Common.Int.{ℤ, pos, ◌+ℤ◌, int_laws}
use software_engineering_car.Common.Table.{row_at, row_at-update_where, key-row_at}
use software_engineering_car.Orders.Model.{
  OrderStatus, Order, OrderError, compensation_error, downstream_error, database_error, Result, ok,
  err, Failures, ReservationLine, order_id,
}
use software_engineering_car.Orders.Client.{ServiceClient, Contract}
use software_engineering_car.Orders.{
  Faults, line_of, with_status, set_status, after_compensation, undo_cancel, reserve_lines,
  release_all, finish_cancel, cancel_order, require_order,
}
use software_engineering_car.Orders.Lines.{
  quantity_at, release_all-Loop, Loop, IsWithinLine, held-reserve_lines, release_all-done,
}
use software_engineering_car.Orders.Creation.{order_quantity, no_place}

abbrev pub lines_of : Order → List ReservationLine
lines_of o = map line_of o.items

-- How the cancellation of a RESERVED order may end, by its result: the order is CANCELLED and its
-- lines are no longer held; or its row is as before. Then the same is held where the database
-- failed; where a call failed, at most one of the order's lines may be held no longer; where a
-- compensation failed too, nothing is said of what is held.
abbrev pub Released :
    Order → List Order → List Order → (ℕ → ℕ → String → ℤ) → (ℕ → ℕ → String → ℤ) → Result → Type 0
Released o db db' before after (ok c) =
    (c ≡ with_status OrderStatus.cancelled o)
    × (db' ≡ set_status o.id OrderStatus.cancelled db)
    × ((p w : ℕ) (r : String) → after p w r +ℤ pos (order_quantity o p w r) ≡ before p w r)
Released o db db' before after (err (compensation_error failures)) = db' ≡ db
Released o db db' before after (err (downstream_error e)) =
    (db' ≡ db) × IsWithinLine o.warehouse_id o.order_number (lines_of o) before after
Released o db db' before after (err e) =
    (db' ≡ db) × ((p w : ℕ) (r : String) → after p w r ≡ before p w r)

pub row_at-set_status :
    (k : ℕ) (status : OrderStatus) (db : List Order) (o : Order)
    → row_at order_id k db ≡ some o
    → row_at order_id k (set_status k status db) ≡ some (with_status status o)
unfolding set_status
row_at-set_status k status db o h = ground (
  arith,
  row_at-update_where order_id (λ o. o.id == k) (with_status status) k db (λ j. refl),
  key-row_at order_id k db o h,
)

put_back :
    (final after before : ℤ) (done lost : ℕ)
    → final ≡ after +ℤ pos done
    → before +ℤ pos 0 ≡ after +ℤ pos (done + lost)
    → before ≡ final +ℤ pos lost
put_back final after before done lost h k = grind int_laws

fallen_whole :
    (after before : ℤ) (done lost : ℕ)
    → before +ℤ pos 0 ≡ after +ℤ pos (done + lost)
    → lost ≡ 0
    → after +ℤ pos done ≡ before
fallen_whole after before done lost h k = grind int_laws

module _ {World : Type 0} (client : ServiceClient World) (contract : Contract client)
    (before : ℕ → ℕ → String → ℤ) (db : List Order) (o : Order)
    (found : row_at order_id o.id db ≡ some o) where
  abbrev Ends : Result × List Order × World → Type 0
  Ends t = Released o db t.1 before (contract.held t.2) t.0

  undone_call :
      (e : String) (failures : Failures) (world : World)
      → (failures ≡ []
          → IsWithinLine o.warehouse_id o.order_number (lines_of o) before (contract.held world))
      → Ends (after_compensation (downstream_error e) failures, db, world)
  undone_call e [] world k = (refl, k refl)
  undone_call e (f ∷ failures) world k = refl

  undone_database :
      (e : String) (failures : Failures) (world : World)
      → (failures ≡ [] → (p w : ℕ) (r : String) → contract.held world p w r ≡ before p w r)
      → Ends (after_compensation (database_error e) failures, db, world)
  undone_database e [] world k = (refl, k refl)
  undone_database e (f ∷ failures) world k = refl

  abbrev Undone : OrderError → List ReservationLine → World → Type 0
  Undone error done world' =
      let (result, final) = undo_cancel client o.warehouse_id o.order_number error done world' in
      Ends (result, db, final)

  abbrev Fallen : Option String → List ReservationLine → World → Type 0
  Fallen error done world' =
      Loop o.warehouse_id o.order_number (lines_of o) error before (contract.held world') [] done

  undo_cancel-call :
      (e : String) (done : List ReservationLine) (world' : World)
      → Fallen (some e) done world'
      → Undone (downstream_error e) done world'
  unfolding undo_cancel quantity_at
  undo_cancel-call e done world' l =
      let undo = reserve_lines client o.warehouse_id o.order_number done world' in
      undone_call e undo.0 undo.1 (λ none_failed. record {
        product = l.product;
        quantity = l.quantity;
        of_line = l.of_line;
        gap = λ p w r.
            put_back _ _ _ _ _
              (held-reserve_lines client contract o.warehouse_id o.order_number p w r done world'
                none_failed)
              (l.moved p w r);
      })

  -- A loop that no error has ended has moved what its lines say.
  ended_whole :
      (done : List ReservationLine) (world' : World)
      → Fallen none done world'
      → (p w : ℕ) (r : String)
      → contract.held world' p w r +ℤ pos (quantity_at o.warehouse_id o.order_number done p w r)
        ≡ before p w r
  unfolding quantity_at
  ended_whole done world' l p w r =
      fallen_whole _ _ _ _ (l.moved p w r)
        (rw (l.whole refl) (no_place l.product o.warehouse_id o.order_number p w r))

  undo_cancel-database :
      (e : String) (done : List ReservationLine) (world' : World)
      → Fallen none done world'
      → Undone (database_error e) done world'
  unfolding undo_cancel
  undo_cancel-database e done world' l =
      let undo = reserve_lines client o.warehouse_id o.order_number done world' in
      undone_database e undo.0 undo.1 (λ none_failed p w r.
        let back =
          held-reserve_lines client contract o.warehouse_id o.order_number p w r done world'
            none_failed in
        let fallen = ended_whole done world' l p w r in back ∙ fallen)

  require_cancelled :
      require_order o.id (set_status o.id OrderStatus.cancelled db)
      ≡ ok (with_status OrderStatus.cancelled o)
  unfolding require_order
  require_cancelled = ground (arith, row_at-set_status o.id OrderStatus.cancelled db o found)

  finish_cancel-Ends :
      (commit_error : Option String) (x : (Option String × List ReservationLine) × World)
      → Fallen x.0.0 x.0.1 x.1
      → (x.0.0 ≡ none
          → (p w : ℕ) (r : String)
          → quantity_at o.warehouse_id o.order_number x.0.1 p w r ≡ order_quantity o p w r)
      → Ends (finish_cancel client o.warehouse_id o.order_number commit_error o.id db x)
  unfolding finish_cancel
  finish_cancel-Ends commit_error ((some e, done), world') k l = undo_cancel-call e done world' k
  finish_cancel-Ends (some e) ((none, done), world') k l = undo_cancel-database e done world' k
  finish_cancel-Ends none ((none, done), world') k l =
      subst (Released o db (set_status o.id OrderStatus.cancelled db) before (contract.held world'))
        (sym require_cancelled)
        (refl, refl, λ p w r. rw (sym (l refl p w r)) (ended_whole done world' k p w r))

-- With a client that keeps the stock contract, where a call that raises may have been served:
-- cancelling a stored RESERVED order marks it CANCELLED and takes the quantities of its lines away
-- from what its reference holds; or it raises and the table stays, and what every reference holds
-- is as before where the database failed, and where a call failed, as before up to the quantity of
-- one of the order's lines that may be released; of the holdings after `OrderCompensationError`
-- nothing is said.
pub cancel_order-Released :
    {World : Type 0} (client : ServiceClient World) (contract : Contract client) (faults : Faults)
    (db : List Order) (world : World) (o : Order)
    → row_at order_id o.id db ≡ some o
    → o.status ≡ OrderStatus.reserved
    → Released o db
        (cancel_order client o.id faults db world).1
        (contract.held world)
        (contract.held (cancel_order client o.id faults db world).2)
        (cancel_order client o.id faults db world).0
unfolding quantity_at
cancel_order-Released {World} client contract faults db world o found reserved =
    let x = release_all client o.warehouse_id o.order_number (map line_of o.items) [] world in
    let start : cancel_order client o.id faults db world
        ≡ finish_cancel client o.warehouse_id o.order_number faults.commit_error o.id db x =
      unfold cancel_order in ground (arith, found, reserved) in
    subst (Ends client contract (contract.held world) db o found) (sym start) (
      finish_cancel-Ends client contract (contract.held world) db o found faults.commit_error x
        (release_all-Loop client contract o.warehouse_id o.order_number (map line_of o.items) []
          world)
        (λ h p w r.
          let whole =
            release_all-done client contract o.warehouse_id o.order_number p w r
              (map line_of o.items) [] world h in
          omega arith))
