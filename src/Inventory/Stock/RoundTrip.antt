-- ===== src/Inventory/Stock/RoundTrip.antt =====
-- What reservations and releases of one order do to each other.
use software_engineering_car.Common.{
  ℕ, String, ◌≡◌, refl, sym, ap, ◌∙◌, Bool, true, false, Option, none, some, arith, eq_iff,
  if◌then◌else◌,
}
use software_engineering_car.Common.Int.{ℤ, pos, ◌+ℤ◌, ◌-ℤ◌, ◌<ℤ◌, ltb_ℤ, min_ℤ, int_laws}
use software_engineering_car.Inventory.Model.{
  InventoryBalance, Db, StockOrderRequest, reservation_already_exists, reference_reserved_quantity,
  is_reference_movement, is_at,
}
use software_engineering_car.Inventory.Transaction.{ok, err}
use software_engineering_car.Inventory.Balances.{contains_product, find_balance}
use software_engineering_car.Inventory.Stock.{StockOperationResult, reserve_stock, release_stock}
use software_engineering_car.Inventory.Stock.Rows.{find_balance-key}
use software_engineering_car.Inventory.Stock.Ledger.{IsSound, changed, change-find, change-IsSound}
use software_engineering_car.Inventory.Stock.Reserve.{
  reserved_for, reservation_movement, outstanding, reserve_outcome, reserve_stock_exact,
  reserve-IsChange,
}
use software_engineering_car.Inventory.Stock.Release.{
  released_for, release_movement, release_stock_exact, release-IsChange,
}

-- What holds when a reservation has succeeded.
pub record Reserved (r : StockOrderRequest) (db : Db) (db' : Db) (b : InventoryBalance)
    : Type 0 where
  pub known : contains_product r.product_id db.products ≡ true
  pub found : find_balance r.product_id r.warehouse_id db.balances ≡ some b
  pub free : ltb_ℤ (pos 0) (outstanding r db) ≡ false
  pub covered : ltb_ℤ (b.quantity_on_hand -ℤ b.quantity_reserved) r.quantity ≡ false
  pub left : db' ≡ changed db (reserved_for r b) (reservation_movement r b)

pub reserve_stock-Reserved :
    (r : StockOrderRequest) (db db' : Db) (x : StockOperationResult)
    → IsSound db
    → pos 0 <ℤ r.quantity
    → reserve_stock r db ≡ (ok x, db')
    → (b : InventoryBalance) × Reserved r db db' b
reserve_stock-Reserved r db db' x s q h =
    go (contains_product r.product_id db.products) refl
      (find_balance r.product_id r.warehouse_id db.balances) refl
      (sym (reserve_stock_exact r db s q) ∙ h)
  where
    go :
        (known : Bool)
        → contains_product r.product_id db.products ≡ known
        → (o : Option InventoryBalance) → find_balance r.product_id r.warehouse_id db.balances ≡ o
        → reserve_outcome r db known o ≡ (ok x, db')
        → (b : InventoryBalance) × Reserved r db db' b
    go false k o e h' = absurd (ground arith)
    go true k none e h' = absurd (ground arith)
    go true k (some b) e h' = (
      b,
      record {
        known = k;
        found = e;
        free = ground arith;
        covered = ground arith;
        left = ground arith;
      },
    )

-- After a reservation the order holds exactly its quantity.
outstanding-reserved :
    (r : StockOrderRequest) (db : Db) (b : InventoryBalance)
    → IsSound db
    → ltb_ℤ (pos 0) (outstanding r db) ≡ false
    → outstanding r (changed db (reserved_for r b) (reservation_movement r b)) ≡ r.quantity
unfolding reference_reserved_quantity is_reference_movement
outstanding-reserved r db b s free = grind (
  int_laws,
  s.references r.product_id r.warehouse_id r.reference_id,
  eq_iff r.reference_id r.reference_id,
)

module _ (r : StockOrderRequest) (db db' : Db) (b : InventoryBalance) (s : IsSound db)
    (q : pos 0 <ℤ r.quantity) (done : Reserved r db db' b) where
  abbrev after : Db
  after = changed db (reserved_for r b) (reservation_movement r b)

  abbrev held : InventoryBalance
  held = reserved_for r b

  after-IsSound : IsSound after
  after-IsSound = change-IsSound s (reserve-IsChange r db b s q done.found done.covered)

  after-find :
      (p w : ℕ)
      → find_balance p w after.balances
        ≡ (if is_at p w b then some held else find_balance p w db.balances)
  after-find = change-find s (reserve-IsChange r db b s q done.found done.covered)

  after-found : find_balance r.product_id r.warehouse_id after.balances ≡ some held
  after-found = ground (
    arith,
    after-find r.product_id r.warehouse_id,
    find_balance-key r.product_id r.warehouse_id db.balances b done.found,
  )

  after-twice :
      (quantity : ℤ)
      → pos 0 <ℤ quantity
      → reserve_stock (record r { quantity = quantity }) after
        ≡ (err (reservation_already_exists r.reference_id r.quantity), after)
  after-twice quantity q' =
      reserve_stock_exact (record r { quantity = quantity }) after after-IsSound q'
      ∙ ground (arith, done.known, after-found, outstanding-reserved r db b s done.free)

  abbrev freed : InventoryBalance
  freed = released_for r held

  freed-eq : freed ≡ b
  freed-eq =
      let back : b.quantity_reserved +ℤ r.quantity -ℤ r.quantity ≡ b.quantity_reserved =
        omega int_laws in
      ap (λ (x : ℤ). record b { quantity_reserved = x }) back

  enough : ltb_ℤ (min_ℤ (outstanding r after) held.quantity_reserved) r.quantity ≡ false
  enough =
      rw (outstanding-reserved r db b s done.free)
        (grind (int_laws, s.within r.product_id r.warehouse_id, done.found))

  after-release : release_stock r after ≡ (
    ok (record { balance = freed; movement = release_movement r held }),
    changed after freed (release_movement r held),
  )
  after-release =
      release_stock_exact r after after-IsSound q ∙ ground (arith, done.known, after-found, enough)

  released-find :
      (p w : ℕ)
      → find_balance p w (changed after freed (release_movement r held)).balances
        ≡ find_balance p w db.balances
  released-find p w =
      change-find after-IsSound (release-IsChange r after held after-IsSound q after-found enough) p
        w
      ∙ ground (
        arith,
        after-find p w,
        freed-eq,
        done.found,
        find_balance-key r.product_id r.warehouse_id db.balances b done.found,
      )

  released-reference :
      (p w : ℕ) (reference : String)
      → reference_reserved_quantity p w reference
          (changed after freed (release_movement r held)).movements
        ≡ reference_reserved_quantity p w reference db.movements
  unfolding reference_reserved_quantity is_reference_movement
  released-reference p w reference = grind int_laws

-- On a sound database, an order whose reservation succeeded cannot reserve that product there
-- again, whatever the quantity: it is told what it holds, and nothing changes.
pub reserve_twice :
    (r : StockOrderRequest) (quantity : ℤ) (db db' : Db) (x : StockOperationResult)
    → IsSound db
    → pos 0 <ℤ r.quantity
    → pos 0 <ℤ quantity
    → reserve_stock r db ≡ (ok x, db')
    → reserve_stock (record r { quantity = quantity }) db'
      ≡ (err (reservation_already_exists r.reference_id r.quantity), db')
reserve_twice r quantity db db' x s q q' h =
    let (b, done) = reserve_stock-Reserved r db db' x s q h in
    rw done.left (after-twice r db db' b s q done quantity q')

-- On a sound database, after a reservation that succeeded, releasing the same request succeeds, and
-- gives back every balance, and what every reference holds, as it was before the reservation.
pub release-reserve :
    (r : StockOrderRequest) (db db' : Db) (x : StockOperationResult)
    → IsSound db
    → pos 0 <ℤ r.quantity
    → reserve_stock r db ≡ (ok x, db')
    → (y : StockOperationResult) × (db'' : Db) × (release_stock r db' ≡ (ok y, db''))
      × ((p w : ℕ) → find_balance p w db''.balances ≡ find_balance p w db.balances)
      × ((p w : ℕ) (reference : String)
          → reference_reserved_quantity p w reference db''.movements
            ≡ reference_reserved_quantity p w reference db.movements)
release-reserve r db db' x s q h =
    let (b, done) = reserve_stock-Reserved r db db' x s q h in
    (
      record {
        balance = freed r db db' b s q done;
        movement = release_movement r (held r db db' b s q done);
      },
      changed (after r db db' b s q done) (freed r db db' b s q done)
          (release_movement r (held r db db' b s q done)),
      rw done.left (after-release r db db' b s q done),
      released-find r db db' b s q done,
      released-reference r db db' b s q done,
    )
