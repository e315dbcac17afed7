-- ===== src/Warehouses.antt =====
-- The warehouse service (production-warehouse-microservices/services/warehouse-service/app):
-- models/warehouse.py, schemas/warehouse.py, services/warehouse.py, api/routes/warehouses.py.
pub mod Codes
pub mod Kept
pub mod Nulls
mod Tests
use software_engineering_car.Common.{
  ℕ, String, Bool, true, false, not, ◌&&◌, ◌||◌, Option, none, some, List, [], ◌∷◌, ◌++◌, ◌==◌,
  str_eq, if◌then◌else◌, take, drop,
}
use software_engineering_car.Common.Sorting.{order_by}
use software_engineering_car.Common.Table.{row_at, has_key, select_where, update_where, scalar}

pub record Warehouse : Type 0 where
  pub id : ℕ
  pub code : String
  pub name : String
  pub address_line_1 : String
  pub address_line_2 : Option String
  pub city : String
  pub state : String
  pub postal_code : String
  pub country_code : String
  pub is_active : Bool
  pub created_at : ℕ
  pub updated_at : ℕ

pub record WarehouseCreate : Type 0 where
  pub code : String
  pub name : String
  pub address_line_1 : String
  pub address_line_2 : Option String
  pub city : String
  pub state : String
  pub postal_code : String
  pub country_code : String

-- A field of a PATCH body: left out, null, or a value.
pub data Patch (A : Type 0) : Type 0 where
  unset null : Patch A
  given : A → Patch A

pub record WarehouseUpdate : Type 0 where
  pub code : Patch String
  pub name : Patch String
  pub address_line_1 : Patch String
  pub address_line_2 : Patch String
  pub city : Patch String
  pub state : Patch String
  pub postal_code : Patch String
  pub country_code : Patch String
  pub is_active : Patch Bool

pub data WarehouseError : Type 0 where
  not_found : (warehouse_id : ℕ) → WarehouseError
  code_conflict : (code : String) → WarehouseError
  storage_error : WarehouseError

pub data Result (A : Type 0) : Type 0 where
  ok : A → Result A
  err : WarehouseError → Result A

-- How a commit ends where no constraint is violated.
pub data Commit : Type 0 where
  committed failed : Commit

unfoldable pub find_warehouse_by_code : String → List Warehouse → Option Warehouse
find_warehouse_by_code code rows = scalar (select_where (λ w. str_eq w.code code) rows)

abbrev pub or_not_found : ℕ → Option Warehouse → Result Warehouse
or_not_found k none = err (not_found k)
or_not_found k (some w) = ok w

unfoldable pub get_warehouse : ℕ → List Warehouse → Result Warehouse
get_warehouse k rows = or_not_found k (row_at Warehouse.id k rows)

-- `collate` is the database's order of texts.
unfoldable pub list_warehouses :
    (String → String → Bool) → Bool → ℕ → ℕ → List Warehouse → List Warehouse
list_warehouses collate include_inactive offset limit rows =
    let shown = if include_inactive then rows else select_where Warehouse.is_active rows in
    take limit (drop offset (order_by (λ a b. collate a.code b.code) shown))

abbrev pub new_warehouse : ℕ → ℕ → WarehouseCreate → Warehouse
new_warehouse uuid now d = record {
  id = uuid;
  code = d.code;
  name = d.name;
  address_line_1 = d.address_line_1;
  address_line_2 = d.address_line_2;
  city = d.city;
  state = d.state;
  postal_code = d.postal_code;
  country_code = d.country_code;
  is_active = true;
  created_at = now;
  updated_at = now;
}

unfoldable pub has_code : String → List Warehouse → Bool
has_code c [] = false
has_code c (w ∷ rows) = str_eq w.code c || has_code c rows

-- The commit of an insert: IntegrityError where the id or the code is there.
abbrev pub insert_warehouse :
    Commit → Warehouse → List Warehouse → Result Warehouse × List Warehouse
insert_warehouse committed w rows =
    if has_key Warehouse.id w.id rows || has_code w.code rows
    then (err (code_conflict w.code), rows)
    else (ok w, rows ++ (w ∷ []))
insert_warehouse failed w rows = (err storage_error, rows)

-- `seen` is the table that the look-up of the code reads; others may write before the commit.
unfoldable pub create_warehouse :
    ℕ
    → ℕ
    → Commit
    → WarehouseCreate
    → List Warehouse
    → List Warehouse
    → Result Warehouse × List Warehouse
create_warehouse uuid now c d seen rows = elim (find_warehouse_by_code d.code seen) [
  | some existing ↦ (err (code_conflict d.code), rows)
  | none ↦ insert_warehouse c (new_warehouse uuid now d) rows
]

-- `setattr`, of a value that the column takes.
abbrev pub assign : {A : Type 0} → Patch A → A → A
assign unset a = a
assign null a = a
assign (given b) a = b

abbrev pub assign_optional : {A : Type 0} → Patch A → Option A → Option A
assign_optional unset o = o
assign_optional null o = none
assign_optional (given b) o = some b

abbrev pub is_null : {A : Type 0} → Patch A → Bool
is_null unset = false
is_null null = true
is_null (given b) = false

-- The columns that are NOT NULL.
unfoldable pub violates_not_null : WarehouseUpdate → Bool
violates_not_null u =
    is_null u.code
    || is_null u.name
    || is_null u.address_line_1
    || is_null u.city
    || is_null u.state
    || is_null u.postal_code
    || is_null u.country_code
    || is_null u.is_active

abbrev pub same_flag : Bool → Bool → Bool
same_flag true b = b
same_flag false b = not b

abbrev pub same_option : Option String → Option String → Bool
same_option none none = true
same_option none (some t) = false
same_option (some s) none = false
same_option (some s) (some t) = str_eq s t

abbrev pub same_warehouse : Warehouse → Warehouse → Bool
same_warehouse v w =
    str_eq v.code w.code
    && str_eq v.name w.name
    && str_eq v.address_line_1 w.address_line_1
    && same_option v.address_line_2 w.address_line_2
    && str_eq v.city w.city
    && str_eq v.state w.state
    && str_eq v.postal_code w.postal_code
    && str_eq v.country_code w.country_code
    && same_flag v.is_active w.is_active

abbrev pub patched : WarehouseUpdate → Warehouse → Warehouse
patched u w = record w {
  code = assign u.code w.code;
  name = assign u.name w.name;
  address_line_1 = assign u.address_line_1 w.address_line_1;
  address_line_2 = assign_optional u.address_line_2 w.address_line_2;
  city = assign u.city w.city;
  state = assign u.state w.state;
  postal_code = assign u.postal_code w.postal_code;
  country_code = assign u.country_code w.country_code;
  is_active = assign u.is_active w.is_active;
}

-- `onupdate`: the flush writes a row, and its time, where a column has changed.
abbrev pub flushed : ℕ → Warehouse → Warehouse → Warehouse
flushed now v w = record v { updated_at = if same_warehouse v w then w.updated_at else now }

-- The row, written.
abbrev pub write : Warehouse → List Warehouse → List Warehouse
write v rows = update_where (λ r. r.id == v.id) (λ r. v) rows

-- `update_values.get("code")`, and `new_code or warehouse.code`.
abbrev pub given_code : Patch String → Option String
given_code unset = none
given_code null = none
given_code (given s) = some s

abbrev pub conflict_code : Option String → Warehouse → String
conflict_code none w = w.code
conflict_code (some s) w = if str_eq s "" then w.code else s

-- The unique constraint, on a code that changes.
unfoldable pub violates_code : Warehouse → Warehouse → List Warehouse → Bool
violates_code v w rows = not (str_eq v.code w.code) && has_code v.code rows

abbrev pub commit_update :
    ℕ → Commit → WarehouseUpdate → Warehouse → List Warehouse → Result Warehouse × List Warehouse
commit_update now committed u w rows =
    if violates_not_null u || violates_code (patched u w) w rows
    then (err (code_conflict (conflict_code (given_code u.code) w)), rows)
    else (ok (flushed now (patched u w) w), write (flushed now (patched u w) w) rows)
commit_update now failed u w rows = (err storage_error, rows)

abbrev pub is_taken : Option String → Warehouse → List Warehouse → Option String
is_taken none w rows = none
is_taken (some new_code) w rows =
    if str_eq new_code w.code then none else elim (find_warehouse_by_code new_code rows) [
      | none ↦ none
      | some conflicting ↦ some new_code
    ]

abbrev pub unless_taken :
    Option String
    → Result Warehouse × List Warehouse
    → List Warehouse
    → Result Warehouse × List Warehouse
unless_taken none result rows = result
unless_taken (some new_code) result rows = (err (code_conflict new_code), rows)

-- The row is the one that the commit finds; `seen` is the table that the look-up of the code reads.
unfoldable pub update_warehouse :
    ℕ
    → ℕ
    → Commit
    → WarehouseUpdate
    → List Warehouse
    → List Warehouse
    → Result Warehouse × List Warehouse
update_warehouse k now c u seen rows = elim (row_at Warehouse.id k rows) [
  | none ↦ (err (not_found k), rows)
  | some w ↦ unless_taken (is_taken (given_code u.code) w seen) (commit_update now c u w rows) rows
]

abbrev pub commit_write : Commit → Warehouse → List Warehouse → Result (Unit {0}) × List Warehouse
commit_write committed v rows = (ok tt, write v rows)
commit_write failed v rows = (err storage_error, rows)

unfoldable pub deactivate_warehouse :
    ℕ → ℕ → Commit → List Warehouse → Result (Unit {0}) × List Warehouse
deactivate_warehouse k now c rows = elim (row_at Warehouse.id k rows) [
  | none ↦ (err (not_found k), rows)
  | some w ↦ commit_write c (flushed now (record w { is_active = false }) w) rows
]

-- The routes: a body with its status, an HTTPException with its detail, or another exception.
pub data Response (A : Type 0) : Type 0 where
  answered : (status : ℕ) → A → Response A
  refused : (status : ℕ) → (detail : WarehouseError) → Response A
  raised : Response A

abbrev pub respond : {A : Type 0} → ℕ → Result A → Response A
respond status (ok a) = answered status a
respond status (err (not_found k)) = refused 404 (not_found k)
respond status (err (code_conflict s)) = refused 409 (code_conflict s)
respond status (err storage_error) = raised

unfoldable pub create_warehouse_endpoint :
    ℕ
    → ℕ
    → Commit
    → WarehouseCreate
    → List Warehouse
    → List Warehouse
    → Response Warehouse × List Warehouse
create_warehouse_endpoint uuid now c d seen rows =
    let (result, rows') = create_warehouse uuid now c d seen rows in (respond 201 result, rows')

unfoldable pub get_warehouse_endpoint : ℕ → List Warehouse → Response Warehouse
get_warehouse_endpoint k rows = respond 200 (get_warehouse k rows)

unfoldable pub update_warehouse_endpoint :
    ℕ
    → ℕ
    → Commit
    → WarehouseUpdate
    → List Warehouse
    → List Warehouse
    → Response Warehouse × List Warehouse
update_warehouse_endpoint k now c u seen rows =
    let (result, rows') = update_warehouse k now c u seen rows in (respond 200 result, rows')

unfoldable pub deactivate_warehouse_endpoint :
    ℕ → ℕ → Commit → List Warehouse → Response (Unit {0}) × List Warehouse
deactivate_warehouse_endpoint k now c rows =
    let (result, rows') = deactivate_warehouse k now c rows in (respond 204 result, rows')
