-- ===== src/Orders.antt =====
-- The order service (production-warehouse-microservices/services/order-service/app/services/
-- order.py). `number_of` stands for the text `f"ORD-{order_id.hex.upper()}"`, `new_id` is what
-- `uuid4()` returns, and `Faults` says which statements the database fails.
pub mod Model
pub mod Client
pub mod Lines
pub mod Drafts
pub mod Prices
pub mod Creation
pub mod Cancellation
pub mod Lifecycle
pub mod Stock
mod Tests
use software_engineering_car.Common.{
  ℕ, zero, suc, ◌+◌, ◌*◌, String, Bool, true, false, Option, none, some, List, [], ◌∷◌, ◌++◌, map,
  reverse, ◌==◌, if◌then◌else◌,
}
use software_engineering_car.Common.Table.{row_at, update_where}
use software_engineering_car.Orders.Model.{
  OrderStatus, Order, OrderItem, OrderCreate, OrderItemCreate, ReservationLine, order_id, Decimal,
  is_negative, to_cents, Failures, OrderError, downstream_error, database_error, order_not_found,
  state_conflict, compensation_error, Result, ok, err,
}
use software_engineering_car.Orders.Client.{Reply, returned, raised, ServiceClient}

-- Which statements the database fails, with the text of its error.
pub record Faults : Type 0 where
  pub flush_error : Option String
  pub commit_error : Option String

-- What `_build_order` has collected so far.
pub record Draft : Type 0 where
  pub order_items : List OrderItem
  pub reservation_lines : List ReservationLine
  pub total_amount : ℕ

unfoldable pub add_item : Draft → OrderItemCreate → Decimal → Draft
add_item d requested price =
    let unit_price = to_cents price in
    let line_total = unit_price * requested.quantity in
    record {
      order_items =
          d.order_items
          ++ (record {
            product_id = requested.product_id;
            quantity = requested.quantity;
            unit_price = unit_price;
            line_total = line_total;
          }
              ∷ []);
      reservation_lines =
          d.reservation_lines
          ++ (record { product_id = requested.product_id; quantity = requested.quantity } ∷ []);
      total_amount = d.total_amount + line_total;
    }

unfoldable pub new_order : (ℕ → String) → OrderCreate → ℕ → Draft → Order
new_order number_of request new_id d = record {
  id = new_id;
  order_number = number_of new_id;
  customer_name = request.customer_name;
  customer_email = request.customer_email;
  warehouse_id = request.warehouse_id;
  status = OrderStatus.pending;
  total_amount = d.total_amount;
  items = d.order_items;
}

abbrev pub with_status : OrderStatus → Order → Order
with_status status o = record o { status = status }

unfoldable pub set_status : ℕ → OrderStatus → List Order → List Order
set_status k status = update_where (λ o. o.id == k) (with_status status)

abbrev pub line_of : OrderItem → ReservationLine
line_of item = record { product_id = item.product_id; quantity = item.quantity }

-- `_require_order` after a commit.
unfoldable pub require_order : ℕ → List Order → Result
require_order k db = elim (row_at order_id k db) [ none ↦ err (order_not_found k) | some o ↦ ok o ]

unfoldable pub get_order : ℕ → List Order → Result
unfolding require_order
get_order = require_order

-- `raise` of the first error, unless the compensation failed too.
abbrev pub after_compensation : OrderError → Failures → Result
after_compensation error [] = err error
after_compensation error failures = err (compensation_error failures)

module _ {World : Type 0} (client : ServiceClient World) where
  -- One round of the loop over the requested items: the draft with the item, unless its price
  -- cannot be had.
  unfoldable pub price_item : Draft → OrderItemCreate → Reply Decimal × World → Reply Draft × World
  price_item d requested (raised e, world) = (raised e, world)
  price_item d requested (returned price, world) =
      if is_negative price
      then (raised "Inventory Service returned a negative product price", world)
      else (returned (add_item d requested price), world)

  unfoldable pub build_items : List OrderItemCreate → Draft → World → Reply Draft × World
  unfolding price_item
  build_items [] d world = (returned d, world)
  build_items (i ∷ is) d world =
      let (reply, world') = price_item d i (client.get_product i.product_id world) in
      elim reply [ raised e ↦ (raised e, world') | returned d' ↦ build_items is d' world' ]

  -- `_build_order`, up to the row itself
  unfoldable pub build_order : OrderCreate → World → Reply Draft × World
  unfolding build_items
  build_order request world =
      let (reply, world') = client.verify_warehouse request.warehouse_id world in
      elim reply [
        | raised e ↦ (raised e, world')
        | returned u ↦
            build_items request.items
              (record { order_items = []; reservation_lines = []; total_amount = 0 }) world'
      ]

  module _ (warehouse : ℕ) (reference : String) where
    -- The loop of `_release_lines` on lines in the order in which it visits them.
    unfoldable pub release_each : List ReservationLine → World → Failures × World
    release_each [] world = ([], world)
    release_each (l ∷ ls) world =
        let (reply, world') =
          client.release_stock l.product_id warehouse l.quantity reference world in
        elim reply [
          | returned u ↦ release_each ls world'
          | raised e ↦
              let (failures, world'') = release_each ls world' in
              ((l.product_id, e) ∷ failures, world'')
        ]

    unfoldable pub release_lines : List ReservationLine → World → Failures × World
    unfolding release_each
    release_lines lines = release_each (reverse lines)

    unfoldable pub reserve_lines : List ReservationLine → World → Failures × World
    reserve_lines [] world = ([], world)
    reserve_lines (l ∷ ls) world =
        let (reply, world') =
          client.reserve_stock l.product_id warehouse l.quantity reference world in
        elim reply [
          | returned u ↦ reserve_lines ls world'
          | raised e ↦
              let (failures, world'') = reserve_lines ls world' in
              ((l.product_id, e) ∷ failures, world'')
        ]

    -- The loop in the `try` of `_create_order`: the error that ended it, if any, with the lines
    -- that were reserved.
    unfoldable pub reserve_all :
        List ReservationLine
        → List ReservationLine
        → World
        → (Option String × List ReservationLine) × World
    reserve_all [] done world = ((none, done), world)
    reserve_all (l ∷ ls) done world =
        let (reply, world') =
          client.reserve_stock l.product_id warehouse l.quantity reference world in
        elim reply [
          | returned u ↦ reserve_all ls (done ++ (l ∷ [])) world'
          | raised e ↦ ((some e, done), world')
        ]

    -- The loop in the `try` of `_cancel_order`.
    unfoldable pub release_all :
        List ReservationLine
        → List ReservationLine
        → World
        → (Option String × List ReservationLine) × World
    release_all [] done world = ((none, done), world)
    release_all (l ∷ ls) done world =
        let (reply, world') =
          client.release_stock l.product_id warehouse l.quantity reference world in
        elim reply [
          | returned u ↦ release_all ls (done ++ (l ∷ [])) world'
          | raised e ↦ ((some e, done), world')
        ]

    -- The `except` branch of `_create_order`, on what it has reserved.
    unfoldable pub undo_create : OrderError → List ReservationLine → World → Result × World
    unfolding release_lines
    undo_create error done world =
        let (failures, world') = release_lines done world in
        (after_compensation error failures, world')

    -- The `except` branch of `_cancel_order`, on what it has released.
    unfoldable pub undo_cancel : OrderError → List ReservationLine → World → Result × World
    unfolding reserve_lines
    undo_cancel error done world =
        let (failures, world') = reserve_lines done world in
        (after_compensation error failures, world')

    -- From the end of the reservation loop on.
    unfoldable pub finish_create :
        Option String
        → Order
        → List Order
        → (Option String × List ReservationLine) × World
        → Result × List Order × World
    unfolding undo_create require_order
    finish_create commit_error order db ((some e, done), world) =
        let (result, world') = undo_create (downstream_error e) done world in (result, db, world')
    finish_create (some e) order db ((none, done), world) =
        let (result, world') = undo_create (database_error e) done world in (result, db, world')
    finish_create none order db ((none, done), world) =
        let db' = with_status OrderStatus.reserved order ∷ db in
        (require_order order.id db', db', world)

    unfoldable pub finish_cancel :
        Option String
        → ℕ
        → List Order
        → (Option String × List ReservationLine) × World
        → Result × List Order × World
    unfolding undo_cancel require_order
    finish_cancel commit_error k db ((some e, done), world) =
        let (result, world') = undo_cancel (downstream_error e) done world in (result, db, world')
    finish_cancel (some e) k db ((none, done), world) =
        let (result, world') = undo_cancel (database_error e) done world in (result, db, world')
    finish_cancel none k db ((none, done), world) =
        let db' = set_status k OrderStatus.cancelled db in (require_order k db', db', world)

  -- From `database.add(order)` on.
  unfoldable pub store_order :
      Faults → Order → List ReservationLine → List Order → World → Result × List Order × World
  unfolding finish_create reserve_all
  store_order faults order lines db world = elim faults.flush_error [
    | some e ↦
        let (result, world') =
          undo_create order.warehouse_id order.order_number (database_error e) [] world in
        (result, db, world')
    | none ↦
        finish_create order.warehouse_id order.order_number faults.commit_error order db
          (reserve_all order.warehouse_id order.order_number lines [] world)
  ]

  unfoldable pub create_order :
      (ℕ → String) → OrderCreate → ℕ → Faults → List Order → World → Result × List Order × World
  unfolding build_order store_order
  create_order number_of request new_id faults db world =
      let (reply, world') = build_order request world in
      elim reply [
        | raised e ↦ (err (downstream_error e), db, world')
        | returned d ↦
            store_order faults (new_order number_of request new_id d) d.reservation_lines db world'
      ]

  -- The body of `_cancel_order` for the row that it locked, by the row's status.
  unfoldable pub cancel_found :
      Faults → Order → OrderStatus → List Order → World → Result × List Order × World
  unfolding finish_cancel release_all
  cancel_found faults o OrderStatus.cancelled db world = (ok o, db, world)
  cancel_found faults o OrderStatus.reserved db world =
      finish_cancel o.warehouse_id o.order_number faults.commit_error o.id db
        (release_all o.warehouse_id o.order_number (map line_of o.items) [] world)
  cancel_found faults o status db world = (err (state_conflict o.id status), db, world)

  unfoldable pub cancel_order : ℕ → Faults → List Order → World → Result × List Order × World
  unfolding cancel_found
  cancel_order k faults db world = elim (row_at order_id k db) [
    | none ↦ (err (order_not_found k), db, world)
    | some o ↦ cancel_found faults o o.status db world
  ]

-- The body of `confirm_order`, by the row's status.
unfoldable pub confirm_found : Faults → Order → OrderStatus → List Order → Result × List Order
unfolding require_order
confirm_found faults o OrderStatus.confirmed db = (ok o, db)
confirm_found faults o OrderStatus.reserved db = elim faults.commit_error [
  | some e ↦ (err (database_error e), db)
  | none ↦ let db' = set_status o.id OrderStatus.confirmed db in (require_order o.id db', db')
]
confirm_found faults o status db = (err (state_conflict o.id status), db)

unfoldable pub confirm_order : ℕ → Faults → List Order → Result × List Order
unfolding confirm_found
confirm_order k faults db = elim (row_at order_id k db) [
  | none ↦ (err (order_not_found k), db)
  | some o ↦ confirm_found faults o o.status db
]
