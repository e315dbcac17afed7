-- ===== src/Inventory/Transaction.antt =====
-- A service function as an action on the database: it returns or raises, and `atomic` is the shared
-- `try ... except Exception: database.rollback(); raise`.
use software_engineering_car.Common.{Bool, true, false}
use software_engineering_car.Inventory.Model.{Db, StockError}

pub data Result (A : Type 0) : Type 0 where
  ok : A → Result A
  err : StockError → Result A

abbrev pub Tx : Type 0 → Type 0
Tx A = Db → Result A × Db

module _ {A : Type 0} where
  abbrev pub pure : A → Tx A
  pure a db = (ok a, db)

  abbrev pub raise : StockError → Tx A
  raise e db = (err e, db)

  -- Whatever was written before a raise is undone.
  abbrev pub atomic : Tx A → Tx A
  atomic m db = let (r, db') = m db in elim r [ ok a ↦ (ok a, db') | err e ↦ (err e, db) ]

infixl 5 ◌>>=◌ ◌>>◌
abbrev pub ◌>>=◌ : {A B : Type 0} → Tx A → (A → Tx B) → Tx B
◌>>=◌ m f db = let (r, db') = m db in elim r [ ok a ↦ f a db' | err e ↦ (err e, db') ]

abbrev pub ◌>>◌ : {A B : Type 0} → Tx A → Tx B → Tx B
m >> k = m >>= λ _. k

-- Raises unless the test holds.
abbrev pub require : Bool → StockError → Tx (Unit {0})
require true e db = (ok tt, db)
require false e db = (err e, db)
