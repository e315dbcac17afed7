-- ===== src/Orders/Model.antt =====
-- The order service's tables and requests (production-warehouse-microservices/services/order-service/
-- app: models/order.py, schemas/order.py, the errors and `ReservationLine` of services/order.py).
-- Amounts of money are whole numbers of cents, which is what `quantize(Decimal("0.01"))` leaves;
-- the precision of the `Numeric` columns, creation times and the request schema's checks (lengths of
-- texts, distinct products) are left out.
use software_engineering_car.Common.{ℕ, ◌+◌, ◌*◌, ◌/◌, ◌^◌, String, Bool, true, false, List}
use software_engineering_car.Common.Int.{ℤ, pos, pos_part, ltb_ℤ}

pub data OrderStatus : Type 0 where
  pending reserved confirmed cancelled : OrderStatus

pub record OrderItem : Type 0 where
  pub product_id : ℕ
  pub quantity : ℕ
  pub unit_price : ℕ
  pub line_total : ℕ

pub record Order : Type 0 where
  pub id : ℕ
  pub order_number : String
  pub customer_name : String
  pub customer_email : String
  pub warehouse_id : ℕ
  pub status : OrderStatus
  pub total_amount : ℕ
  pub items : List OrderItem

pub record OrderItemCreate : Type 0 where
  pub product_id : ℕ
  pub quantity : ℕ

pub record OrderCreate : Type 0 where
  pub customer_name : String
  pub customer_email : String
  pub warehouse_id : ℕ
  pub items : List OrderItemCreate

pub record ReservationLine : Type 0 where
  pub product_id : ℕ
  pub quantity : ℕ

abbrev pub order_id : Order → ℕ
order_id o = o.id

-- A finite `Decimal`: coefficient / 10 ^ scale.
pub record Decimal : Type 0 where
  pub coefficient : ℤ
  pub scale : ℕ

unfoldable pub is_negative : Decimal → Bool
is_negative d = ltb_ℤ d.coefficient (pos 0)

-- `quantize(MONEY_QUANTUM, rounding=ROUND_HALF_UP)` of a price that is not negative, in cents.
unfoldable pub to_cents : Decimal → ℕ
to_cents d = (2 * 100 * pos_part d.coefficient + 10 ^ d.scale) / (2 * 10 ^ d.scale)

-- What a compensation could not do: the product of each line, and the text of the error.
abbrev pub Failures : Type 0
Failures = List (ℕ × String)

pub data OrderError : Type 0 where
  downstream_error database_error : String → OrderError
  order_not_found : ℕ → OrderError
  state_conflict : ℕ → OrderStatus → OrderError
  compensation_error : Failures → OrderError

-- What an operation returns or raises.
pub data Result : Type 0 where
  ok : Order → Result
  err : OrderError → Result

abbrev pub is_compensation_error : Result → Bool
is_compensation_error (err (compensation_error failures)) = true
is_compensation_error _ = false
