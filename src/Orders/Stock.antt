-- ===== src/Orders/Stock.antt =====
-- The inventory service as the order service reaches it: the two stock calls of `ServiceClient` on
-- the inventory's own operations, and the contract that they keep. What the routes turn into HTTP
-- responses and the client back into exceptions is the text `detail` of the error.
use software_engineering_car.Common.{
  ℕ, String, ◌≡◌, refl, sym, true, some, ◌∷◌, arith, inl, inr, Option-cases, ◌⊎◌,
}
use software_engineering_car.Common.Int.{ℤ, pos, ◌+ℤ◌, negate, int_laws}
use software_engineering_car.Inventory.Model.{
  Db, StockError, StockOrderRequest, StockMovement, reference_reserved_quantity,
  is_reference_movement, is_order_movement,
}
use software_engineering_car.Inventory.Transaction as T
use software_engineering_car.Inventory.Balances.{
  ensure_product_exists, get_balance_for_update, require_available, require_releasable,
  commit_change, find_balance,
}
use software_engineering_car.Inventory.Stock.{
  StockOperationResult, reserve_stock, release_stock, reserve_body, release_body,
}
use software_engineering_car.Orders.Model.{Decimal}
use software_engineering_car.Orders.Client.{
  Reply, returned, raised, ServiceClient, Contract, at_place,
}

abbrev pub stock_request : ℕ → ℕ → ℕ → String → String → StockOrderRequest
stock_request p w q r reason = record {
  product_id = p;
  warehouse_id = w;
  quantity = pos q;
  reference_id = r;
  reason = some reason;
}

pub Outcome-cases :
    {A : Type 0} (x : T.Result A × Db)
    → ((a : A) × (db : Db) × (x ≡ (T.ok a, db)))
      ⊎ ((e : StockError) × (db : Db) × (x ≡ (T.err e, db)))
Outcome-cases (T.ok a, db) = inl (a, db, refl)
Outcome-cases (T.err e, db) = inr (e, db, refl)

-- The movement by which a request that succeeded changes what its order holds.
record Logged (q : StockOrderRequest) (delta : ℤ) (db db' : Db) (m : StockMovement) : Type 0 where
  pub logged : db'.movements ≡ m ∷ db.movements
  pub of_product : m.product_id ≡ q.product_id
  pub of_warehouse : m.warehouse_id ≡ q.warehouse_id
  pub of_order : m.reference_id ≡ some q.reference_id
  pub of_type : is_order_movement m.movement_type ≡ true
  pub reserves : m.reserved_delta ≡ delta

reserve_stock-Logged :
    (q : StockOrderRequest) (db db' : Db) (x : StockOperationResult)
    → reserve_stock q db ≡ (T.ok x, db')
    → Logged q q.quantity db db' x.movement
unfolding reserve_stock ensure_product_exists get_balance_for_update require_available commit_change
reserve_stock-Logged q db db' x h =
    elim (Option-cases (find_balance q.product_id q.warehouse_id db.balances)) [
      | inl e ↦ absurd (ground (arith, e))
      | inr (b, e) ↦ record {
        logged = ground (arith, e);
        of_product = ground (arith, e);
        of_warehouse = ground (arith, e);
        of_order = ground (arith, e);
        of_type = ground (arith, e);
        reserves = ground (arith, e);
      }
    ]

release_stock-Logged :
    (q : StockOrderRequest) (db db' : Db) (x : StockOperationResult)
    → release_stock q db ≡ (T.ok x, db')
    → Logged q (negate q.quantity) db db' x.movement
unfolding release_stock ensure_product_exists get_balance_for_update require_releasable
    commit_change
release_stock-Logged q db db' x h =
    elim (Option-cases (find_balance q.product_id q.warehouse_id db.balances)) [
      | inl e ↦ absurd (ground (arith, e))
      | inr (b, e) ↦ record {
        logged = ground (arith, e);
        of_product = ground (arith, e);
        of_warehouse = ground (arith, e);
        of_order = ground (arith, e);
        of_type = ground (arith, e);
        reserves = ground (arith, e);
      }
    ]

-- How the network treats a request: it is delivered and answered, it is not sent, or it is served
-- and the answer is lost. The last two raise `httpx.RequestError`.
pub data Delivery : Type 0 where
  delivered unsent unanswered : Delivery

-- The state that a stock operation leaves, at a delivery of its request.
abbrev pub after_delivery : {A : Type 0} → Delivery → T.Result A × Db → Db → Db
after_delivery delivered (x, db') db = db'
after_delivery unsent x db = db
after_delivery unanswered (x, db') db = db'

module _ (detail : StockError → String) (network : StockOrderRequest → Db → Delivery)
    (prices : ℕ → Reply Decimal) (warehouses : ℕ → Reply (Unit {0})) where
  abbrev pub reply_of : {A : Type 0} → Delivery → T.Result A → Reply (Unit {0})
  reply_of delivered (T.ok x) = returned tt
  reply_of delivered (T.err e) = raised (detail e)
  reply_of unsent result = raised "Inventory Service is unavailable"
  reply_of unanswered result = raised "Inventory Service is unavailable"

  abbrev pub served : {A : Type 0} → Delivery → T.Result A × Db → Db → Reply (Unit {0}) × Db
  served d y db = (reply_of d y.0, after_delivery d y db)

  -- `_request`, and the test of the response.
  abbrev pub request_stock :
      {A : Type 0} → (StockOrderRequest → T.Tx A) → StockOrderRequest → Db → Reply (Unit {0}) × Db
  request_stock operation request db = served (network request db) (operation request db) db

  abbrev pub inventory_client : ServiceClient Db
  inventory_client = record {
    get_product = λ p db. (prices p, db);
    verify_warehouse = λ w db. (warehouses w, db);
    reserve_stock = λ p w q r db.
        request_stock reserve_stock (stock_request p w q r "Order inventory reservation") db;
    release_stock = λ p w q r db.
        request_stock release_stock (stock_request p w q r "Order inventory reservation release")
          db;
  }

abbrev pub stock_held : Db → ℕ → ℕ → String → ℤ
stock_held db p w r = reference_reserved_quantity p w r db.movements

held-added :
    (q : StockOrderRequest) (db db' : Db) (m : StockMovement) (n : ℕ)
    → Logged q (pos n) db db' m
    → (p w : ℕ) (r : String)
    → stock_held db' p w r
      ≡ stock_held db p w r +ℤ pos (at_place q.product_id q.warehouse_id q.reference_id p w r n)
unfolding reference_reserved_quantity is_reference_movement
held-added q db db' m n l p w r =
    grind (int_laws, l.logged, l.of_product, l.of_warehouse, l.of_order, l.of_type, l.reserves)

held-taken :
    (q : StockOrderRequest) (db db' : Db) (m : StockMovement) (n : ℕ)
    → Logged q (negate (pos n)) db db' m
    → (p w : ℕ) (r : String)
    → stock_held db' p w r +ℤ pos (at_place q.product_id q.warehouse_id q.reference_id p w r n)
      ≡ stock_held db p w r
unfolding reference_reserved_quantity is_reference_movement
held-taken q db db' m n l p w r =
    grind (int_laws, l.logged, l.of_product, l.of_warehouse, l.of_order, l.of_type, l.reserves)

add_zero : (i : ℤ) → i +ℤ pos 0 ≡ i
add_zero i = omega int_laws

no_place : (p w : ℕ) (r : String) (p' w' : ℕ) (r' : String) → at_place p w r p' w' r' 0 ≡ 0
no_place p w r p' w' r' = ground arith

module _ (detail : StockError → String) (network : StockOrderRequest → Db → Delivery)
    (prices : ℕ → Reply Decimal) (warehouses : ℕ → Reply (Unit {0})) where
  returned_ok :
      (d : Delivery) (y : T.Result StockOperationResult × Db) (db db' : Db)
      → served detail network prices warehouses d y db ≡ (returned tt, db')
      → (x : StockOperationResult) × (y ≡ (T.ok x, db'))
  returned_ok delivered (T.ok x, db) before db' h = (x, ground (arith, h))
  returned_ok delivered (T.err e, db) before db' h = absurd (ground (arith, h))
  returned_ok unsent y before db' h = absurd (ground (arith, h))
  returned_ok unanswered y before db' h = absurd (ground (arith, h))

  -- A request that raised was not served, or was served and changed the tables as it does.
  raised_cases :
      (d : Delivery) (y : T.Result StockOperationResult × Db) (db db' : Db) (text : String)
      → served detail network prices warehouses d y db ≡ (raised text, db')
      → ((e : StockError) → y.0 ≡ T.err e → y.1 ≡ db)
      → (db' ≡ db) ⊎ ((x : StockOperationResult) × (y ≡ (T.ok x, db')))
  raised_cases delivered (T.ok x, later) db db' text h k = absurd (ground (arith, h))
  raised_cases delivered (T.err e, later) db db' text h k =
      let p : later ≡ db = k e refl in inl (ground (arith, h, p))
  raised_cases unsent y db db' text h k = inl (ground (arith, h))
  raised_cases unanswered (T.ok x, later) db db' text h k = inr (x, ground (arith, h))
  raised_cases unanswered (T.err e, later) db db' text h k =
      let p : later ≡ db = k e refl in inl (ground (arith, h, p))

  undone :
      (m : T.Tx StockOperationResult) (db : Db) (e : StockError)
      → (T.atomic m db).0 ≡ T.err e
      → (T.atomic m db).1 ≡ db
  undone m db e h = elim (Outcome-cases (m db)) [
    | inl (a, later, k) ↦ absurd (ground (arith, h, k))
    | inr (e', later, k) ↦ ground (arith, k)
  ]

  -- The inventory keeps the contract that the order service relies on, for what the movements say
  -- that a reference has reserved.
  pub inventory_contract : Contract (inventory_client detail network prices warehouses)
  unfolding reserve_stock release_stock
  inventory_contract = record {
    held = stock_held;
    get_product_keeps = λ p db p' w' r'. refl;
    verify_warehouse_keeps = λ w db p' w' r'. refl;
    reserve_adds = λ p w q r db db' h.
        let request = stock_request p w q r "Order inventory reservation" in
        let (x, e) = returned_ok (network request db) (reserve_stock request db) db db' h in
        held-added request db db' x.movement q (reserve_stock-Logged request db db' x e);
    reserve_raised = λ p w q r text db db' h.
        let request = stock_request p w q r "Order inventory reservation" in
        elim (raised_cases (network request db) (reserve_stock request db) db db' text h
          (undone (reserve_body request) db)) [
            | inl e ↦ (
              0,
              inl refl,
              λ p' w' r'. rw (e, no_place p w r p' w' r') (sym (add_zero (stock_held db p' w' r'))),
            )
            | inr (x, e) ↦ (
              q,
              inr refl,
              held-added request db db' x.movement q (reserve_stock-Logged request db db' x e),
            )
          ];
    release_takes = λ p w q r db db' h.
        let request = stock_request p w q r "Order inventory reservation release" in
        let (x, e) = returned_ok (network request db) (release_stock request db) db db' h in
        held-taken request db db' x.movement q (release_stock-Logged request db db' x e);
    release_raised = λ p w q r text db db' h.
        let request = stock_request p w q r "Order inventory reservation release" in
        elim (raised_cases (network request db) (release_stock request db) db db' text h
          (undone (release_body request) db)) [
            | inl e ↦ (
              0,
              inl refl,
              λ p' w' r'. rw (e, no_place p w r p' w' r') (add_zero (stock_held db p' w' r')),
            )
            | inr (x, e) ↦ (
              q,
              inr refl,
              held-taken request db db' x.movement q (release_stock-Logged request db db' x e),
            )
          ];
  }
