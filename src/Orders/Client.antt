-- ===== src/Orders/Client.antt =====
-- What the order service uses of its `ServiceClient` (production-warehouse-microservices/services/
-- order-service/app/services/external.py): four calls to other services, whose state is a `World`,
-- each of which answers or raises; and what the compensation relies on.
use software_engineering_car.Common.{ℕ, String, ◌≡◌, ◌&&◌, ◌==◌, ◌⊎◌, str_eq, if◌then◌else◌}
use software_engineering_car.Common.Int.{ℤ, pos, ◌+ℤ◌}
use software_engineering_car.Orders.Model.{Decimal}

pub data Reply (A : Type 0) : Type 0 where
  returned : A → Reply A
  raised : String → Reply A

pub record ServiceClient (World : Type 0) : Type 0 where
  -- the price of the product
  pub get_product : ℕ → World → Reply Decimal × World
  pub verify_warehouse : ℕ → World → Reply (Unit {0}) × World
  -- product, warehouse, quantity, reference
  pub reserve_stock : ℕ → ℕ → ℕ → String → World → Reply (Unit {0}) × World
  pub release_stock : ℕ → ℕ → ℕ → String → World → Reply (Unit {0}) × World

-- The quantity, if two places are one: product, warehouse and reference.
abbrev pub at_place : ℕ → ℕ → String → ℕ → ℕ → String → ℕ → ℕ
at_place p w r p' w' r' quantity = if p == p' && w == w' && str_eq r r' then quantity else 0

-- What a call that raised may have left: either nothing has changed, or the other service has done
-- all of its work and only the answer was lost (`httpx.RequestError`, as on a timeout).
abbrev pub IsLost : ℕ → ℕ → Type 0
IsLost quantity lost = (lost ≡ 0) ⊎ (lost ≡ quantity)

-- The contract of the inventory: what a reference holds grows by a reservation that returns and
-- falls by a release that returns; one that raises has had that effect, or none; all other calls
-- leave it.
pub record Contract {World : Type 0} (client : ServiceClient World) : Type 0 where
  pub held : World → ℕ → ℕ → String → ℤ
  pub get_product_keeps :
      (p : ℕ) (world : World) (p' w' : ℕ) (r' : String)
      → held (client.get_product p world).1 p' w' r' ≡ held world p' w' r'
  pub verify_warehouse_keeps :
      (w : ℕ) (world : World) (p' w' : ℕ) (r' : String)
      → held (client.verify_warehouse w world).1 p' w' r' ≡ held world p' w' r'
  pub reserve_adds :
      (p w q : ℕ) (r : String) (world world' : World)
      → client.reserve_stock p w q r world ≡ (returned tt, world')
      → (p' w' : ℕ) (r' : String)
      → held world' p' w' r' ≡ held world p' w' r' +ℤ pos (at_place p w r p' w' r' q)
  pub reserve_raised :
      (p w q : ℕ) (r e : String) (world world' : World)
      → client.reserve_stock p w q r world ≡ (raised e, world')
      → (lost : ℕ) × IsLost q lost
        × ((p' w' : ℕ) (r' : String)
            → held world' p' w' r' ≡ held world p' w' r' +ℤ pos (at_place p w r p' w' r' lost))
  pub release_takes :
      (p w q : ℕ) (r : String) (world world' : World)
      → client.release_stock p w q r world ≡ (returned tt, world')
      → (p' w' : ℕ) (r' : String)
      → held world' p' w' r' +ℤ pos (at_place p w r p' w' r' q) ≡ held world p' w' r'
  pub release_raised :
      (p w q : ℕ) (r e : String) (world world' : World)
      → client.release_stock p w q r world ≡ (raised e, world')
      → (lost : ℕ) × IsLost q lost
        × ((p' w' : ℕ) (r' : String)
            → held world' p' w' r' +ℤ pos (at_place p w r p' w' r' lost) ≡ held world p' w' r')
