-- ===== src/Inventory/Model.antt =====
-- The inventory service's tables and requests (production-warehouse-microservices/services/
-- inventory-service/app: models/inventory_balance.py, models/stock_movement.py, schemas/stock.py and
-- the errors of services/stock.py). UUIDs are only compared and ordered, so they are numbers;
-- quantities are Python's signed integers. Creation times are left out.
use software_engineering_car.Common.{
  ℕ, String, Bool, true, false, not, ◌&&◌, ◌||◌, Option, List, [], ◌∷◌, ◌==◌, opt_str_eq,
  if◌then◌else◌,
}
use software_engineering_car.Common.Int.{ℤ, pos, ◌+ℤ◌, leb_ℤ, ltb_ℤ, eq_ℤ}

pub record InventoryBalance : Type 0 where
  pub product_id : ℕ
  pub warehouse_id : ℕ
  pub quantity_on_hand : ℤ
  pub quantity_reserved : ℤ

-- The largest value of the column type Integer.
abbrev pub max_integer : ℤ
max_integer = pos 2147483647

-- The CHECK constraints of the table of balances, and the range of its columns' type. With them what
-- is reserved is in range where what is on hand is, and so are the columns of a movement, which are
-- differences and values of such quantities.
unfoldable pub valid_balance : InventoryBalance → Bool
valid_balance b =
    leb_ℤ (pos 0) b.quantity_on_hand
    && leb_ℤ (pos 0) b.quantity_reserved
    && leb_ℤ b.quantity_reserved b.quantity_on_hand
    && leb_ℤ b.quantity_on_hand max_integer

pub data MovementType : Type 0 where
  receipt issue adjustment reservation release transfer_out transfer_in : MovementType

pub record StockMovement : Type 0 where
  pub product_id : ℕ
  pub warehouse_id : ℕ
  pub movement_type : MovementType
  pub on_hand_delta : ℤ
  pub reserved_delta : ℤ
  pub on_hand_balance_after : ℤ
  pub reserved_balance_after : ℤ
  pub reference_id : Option String
  pub reason : Option String
  pub transfer_id : Option ℕ

-- The CHECK constraints of the table of movements; the type's own is met by every `MovementType`.
unfoldable pub valid_movement : StockMovement → Bool
valid_movement m =
    (not (eq_ℤ m.on_hand_delta (pos 0)) || not (eq_ℤ m.reserved_delta (pos 0)))
    && leb_ℤ (pos 0) m.on_hand_balance_after
    && leb_ℤ (pos 0) m.reserved_balance_after

pub record Db : Type 0 where
  pub products : List ℕ
  pub balances : List InventoryBalance
  pub movements : List StockMovement

-- A receipt or an issue.
pub record StockChangeRequest : Type 0 where
  pub product_id : ℕ
  pub warehouse_id : ℕ
  pub quantity : ℤ
  pub reference_id : Option String
  pub reason : Option String

-- A reservation or a release, which must name its order.
pub record StockOrderRequest : Type 0 where
  pub product_id : ℕ
  pub warehouse_id : ℕ
  pub quantity : ℤ
  pub reference_id : String
  pub reason : Option String

pub record StockTransferRequest : Type 0 where
  pub product_id : ℕ
  pub source_warehouse_id : ℕ
  pub destination_warehouse_id : ℕ
  pub quantity : ℤ
  pub reference_id : Option String
  pub reason : Option String

-- `validate_different_warehouses`, and the schema's `quantity > 0`.
unfoldable pub valid_transfer : StockTransferRequest → Bool
valid_transfer r =
    not (r.source_warehouse_id == r.destination_warehouse_id) && ltb_ℤ (pos 0) r.quantity

pub data StockError : Type 0 where
  product_not_found : ℕ → StockError
  insufficient_stock : ℤ → ℤ → StockError
  reservation_already_exists : String → ℤ → StockError
  insufficient_reserved_stock : ℤ → ℤ → String → StockError
  balance_not_created : StockError
  -- IntegrityError of a constraint, or DataError of a value out of range, at the commit.
  refused_at_commit : StockError

abbrev pub is_at : ℕ → ℕ → InventoryBalance → Bool
is_at product warehouse b = b.product_id == product && b.warehouse_id == warehouse

abbrev pub is_order_movement : MovementType → Bool
is_order_movement reservation = true
is_order_movement release = true
is_order_movement _ = false

-- The WHERE test of `_get_reference_reserved_quantity`.
unfoldable pub is_reference_movement : ℕ → ℕ → String → StockMovement → Bool
is_reference_movement product warehouse reference m =
    m.product_id == product
    && m.warehouse_id == warehouse
    && opt_str_eq m.reference_id reference
    && is_order_movement m.movement_type

-- SELECT COALESCE(SUM(reserved_delta), 0)
unfoldable pub reference_reserved_quantity : ℕ → ℕ → String → List StockMovement → ℤ
reference_reserved_quantity product warehouse reference [] = pos 0
reference_reserved_quantity product warehouse reference (m ∷ ms) =
    let rest = reference_reserved_quantity product warehouse reference ms in
    if is_reference_movement product warehouse reference m then m.reserved_delta +ℤ rest else rest
