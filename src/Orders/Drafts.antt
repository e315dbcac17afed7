-- ===== src/Orders/Drafts.antt =====
-- What `_build_order` collects, and that it reserves nothing.
use mathlib.Core.Path.{subst}
use software_engineering_car.Common.{
  ℕ, ◌+◌, ◌*◌, String, ◌≡◌, refl, ap, List, [], ◌∷◌, ◌++◌, map, arith, inl, inr, Bool-cases,
}
use software_engineering_car.Orders.Model.{
  OrderItem, OrderItemCreate, OrderCreate, Decimal, is_negative, to_cents,
}
use software_engineering_car.Orders.Client.{Reply, returned, raised, ServiceClient, Contract}
use software_engineering_car.Orders.{Draft, add_item, line_of, price_item, build_items, build_order}
use software_engineering_car.Orders.Lines.{Reply-cases}

-- The sum of the line totals.
unfoldable pub items_total : List OrderItem → ℕ
items_total [] = 0
items_total (i ∷ is) = i.line_total + items_total is

abbrev pub requested_of : OrderItem → OrderItemCreate
requested_of i = record { product_id = i.product_id; quantity = i.quantity }

-- Every line total is the unit price times the quantity.
abbrev pub AllPriced : List OrderItem → Type 0
AllPriced [] = Unit
AllPriced (i ∷ is) = (i.line_total ≡ i.unit_price * i.quantity) × AllPriced is

-- A draft accounts for the requested items.
pub record IsDraft (requested : List OrderItemCreate) (d : Draft) : Type 0 where
  pub lines : d.reservation_lines ≡ map line_of d.order_items
  pub requests : map requested_of d.order_items ≡ requested
  pub total : d.total_amount ≡ items_total d.order_items
  pub priced : AllPriced d.order_items

items_total-++ : (xs ys : List OrderItem) → items_total (xs ++ ys) ≡ items_total xs + items_total ys
unfolding items_total
items_total-++ [] ys = omega arith
items_total-++ (x ∷ xs) ys = omega (arith, items_total-++ xs ys)

AllPriced-++ : (xs ys : List OrderItem) → AllPriced xs → AllPriced ys → AllPriced (xs ++ ys)
AllPriced-++ [] ys h k = k
AllPriced-++ (x ∷ xs) ys h k = (h.0, AllPriced-++ xs ys h.1 k)

map-++ : {A B : Type 0} (f : A → B) (xs ys : List A) → map f (xs ++ ys) ≡ map f xs ++ map f ys
map-++ f [] ys = refl
map-++ f (x ∷ xs) ys = ap (λ zs. f x ∷ zs) (map-++ f xs ys)

append_nil : {A : Type 0} (xs : List A) → xs ++ [] ≡ xs
append_nil [] = refl
append_nil (x ∷ xs) = ap (λ us. x ∷ us) (append_nil xs)

append_assoc : {A : Type 0} (xs ys zs : List A) → (xs ++ ys) ++ zs ≡ xs ++ (ys ++ zs)
append_assoc [] ys zs = refl
append_assoc (x ∷ xs) ys zs = ap (λ us. x ∷ us) (append_assoc xs ys zs)

add_item-IsDraft :
    (requested : List OrderItemCreate) (d : Draft) (i : OrderItemCreate) (price : Decimal)
    → IsDraft requested d
    → IsDraft (requested ++ (i ∷ [])) (add_item d i price)
unfolding add_item items_total
add_item-IsDraft requested d i price h =
    let item : OrderItem = record {
      product_id = i.product_id;
      quantity = i.quantity;
      unit_price = to_cents price;
      line_total = to_cents price * i.quantity;
    } in
    record {
      lines = rw (map-++ line_of d.order_items (item ∷ []), h.lines) refl;
      requests = rw (map-++ requested_of d.order_items (item ∷ []), h.requests) refl;
      total = rw (items_total-++ d.order_items (item ∷ []), h.total) (omega arith);
      priced = AllPriced-++ d.order_items (item ∷ []) h.priced (refl, tt);
    }

module _ {World : Type 0} (client : ServiceClient World) where
  price_item-IsDraft :
      (requested : List OrderItemCreate) (i : OrderItemCreate) (d d' : Draft) (world' : World)
      → IsDraft requested d
      → (x : Reply Decimal × World) → price_item client d i x ≡ (returned d', world')
      → IsDraft (requested ++ (i ∷ [])) d'
  unfolding price_item
  price_item-IsDraft requested i d d' world' h (raised text, world) e = absurd (ground arith)
  price_item-IsDraft requested i d d' world' h (returned price, world) e =
      elim (Bool-cases (is_negative price)) [
        | inl n ↦ absurd (ground arith)
        | inr n ↦
            let same : add_item d i price ≡ d' = ground arith in
            subst (IsDraft (requested ++ (i ∷ []))) same (add_item-IsDraft requested d i price h)
      ]

  build_items-IsDraft :
      (is requested : List OrderItemCreate) (d d' : Draft) (world world' : World)
      → IsDraft requested d
      → build_items client is d world ≡ (returned d', world')
      → IsDraft (requested ++ is) d'
  unfolding build_items
  build_items-IsDraft [] requested d d' world world' h e =
      let same : d ≡ d' = ground arith in
      rw (append_nil requested) (subst (IsDraft requested) same h)
  build_items-IsDraft (i ∷ is) requested d d' world world' h e =
      elim (Reply-cases (price_item client d i (client.get_product i.product_id world))) [
        | inl (d2, world2, k) ↦
            let h2 =
              price_item-IsDraft requested i d d2 world2 h (client.get_product i.product_id world)
                k in
            let rest : build_items client is d2 world2 ≡ (returned d', world') =
              ground (arith, k) in
            subst (λ us. IsDraft us d') (append_assoc requested (i ∷ []) is)
              (build_items-IsDraft is (requested ++ (i ∷ [])) d2 d' world2 world' h2 rest)
        | inr (text, world2, k) ↦ absurd (ground (arith, k))
      ]

  -- An order that could be built has one item and one reservation line for each requested item,
  -- in the request's order; each line total is the unit price times the quantity, and the total
  -- is their sum.
  pub build_order-IsDraft :
      (request : OrderCreate) (d : Draft) (world world' : World)
      → build_order client request world ≡ (returned d, world')
      → IsDraft request.items d
  unfolding build_order items_total
  build_order-IsDraft request d world world' e =
      let empty : Draft = record { order_items = []; reservation_lines = []; total_amount = 0 } in
      elim (Reply-cases (client.verify_warehouse request.warehouse_id world)) [
        | inl (u, world2, k) ↦
            build_items-IsDraft request.items [] empty d world2 world'
              (record { lines = refl; requests = refl; total = refl; priced = tt })
              (ground (arith, k))
        | inr (text, world2, k) ↦ absurd (ground (arith, k))
      ]

  module _ (contract : Contract client) (p w : ℕ) (r : String) where
    held-build_items :
        (is : List OrderItemCreate) (d : Draft) (world : World)
        → contract.held (build_items client is d world).1 p w r ≡ contract.held world p w r
    unfolding build_items price_item
    held-build_items [] d world = refl
    held-build_items (i ∷ is) d world = elim (Reply-cases (client.get_product i.product_id world)) [
      | inl (price, world', e) ↦ ground (
        arith,
        e,
        contract.get_product_keeps i.product_id world p w r,
        held-build_items is (add_item d i price) world',
      )
      | inr (text, world', e) ↦
          ground (arith, e, contract.get_product_keeps i.product_id world p w r)
    ]

    pub held-build_order :
        (request : OrderCreate) (world : World)
        → contract.held (build_order client request world).1 p w r ≡ contract.held world p w r
    unfolding build_order
    held-build_order request world =
        let empty : Draft = record { order_items = []; reservation_lines = []; total_amount = 0 } in
        elim (Reply-cases (client.verify_warehouse request.warehouse_id world)) [
          | inl (u, world', e) ↦ ground (
            arith,
            e,
            contract.verify_warehouse_keeps request.warehouse_id world p w r,
            held-build_items request.items empty world',
          )
          | inr (text, world', e) ↦
              ground (arith, e, contract.verify_warehouse_keeps request.warehouse_id world p w r)
        ]
