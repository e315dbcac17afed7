-- ===== src/Orders/Creation.antt =====
-- The creation of an order: all of its lines are reserved and its row is stored, or nothing is.
use mathlib.Core.Path.{subst}
use software_engineering_car.Common.{
  ℕ, ◌+◌, String, ◌≡◌, refl, sym, ap, ◌∙◌, Option, none, some, List, [], ◌∷◌, map, arith, ◌⊎◌,
  Option-cases, inl, inr, ==_refl,
}
use software_engineering_car.Common.Int.{ℤ, pos, ◌+ℤ◌, int_laws}
use software_engineering_car.Common.Table.{row_at}
use software_engineering_car.Orders.Model.{
  OrderStatus, Order, OrderItem, OrderItemCreate, OrderCreate, OrderError, compensation_error,
  downstream_error, database_error, Result, ok, err, Failures, ReservationLine,
}
use software_engineering_car.Orders.Client.{
  Reply, returned, raised, ServiceClient, Contract, at_place,
}
use software_engineering_car.Orders.{
  Faults, Draft, line_of, with_status, after_compensation, undo_create, release_lines, reserve_all,
  finish_create, store_order, create_order, new_order, build_order, require_order,
}
use software_engineering_car.Orders.Lines.{
  quantity_at, Reply-cases, held-release_lines, reserve_all-done, IsWithinLine, Loop,
  reserve_all-Loop,
}
use software_engineering_car.Orders.Drafts.{build_order-IsDraft, held-build_order, requested_of}

-- What the order's reference holds at a place for its lines.
abbrev pub order_quantity : Order → ℕ → ℕ → String → ℕ
order_quantity o = quantity_at o.warehouse_id o.order_number (map line_of o.items)

abbrev pub requested_line : OrderItemCreate → ReservationLine
requested_line item = record { product_id = item.product_id; quantity = item.quantity }

-- How a creation may end, by its result: the order is stored as RESERVED and its lines are held; or
-- nothing is stored. Then nothing more is held where the database failed; where a call failed, at
-- most one of the requested lines may still be held, by this order; where a compensation failed
-- too, nothing is said of what is held.
abbrev pub Booked :
    ℕ
    → String
    → List ReservationLine
    → List Order
    → List Order
    → (ℕ → ℕ → String → ℤ)
    → (ℕ → ℕ → String → ℤ)
    → Result
    → Type 0
Booked warehouse reference lines db db' before after (ok o) =
    (db' ≡ o ∷ db)
    × (o.status ≡ OrderStatus.reserved)
    × ((p w : ℕ) (r : String) → after p w r ≡ before p w r +ℤ pos (order_quantity o p w r))
Booked warehouse reference lines db db' before after (err (compensation_error failures)) = db' ≡ db
Booked warehouse reference lines db db' before after (err (downstream_error e)) =
    (db' ≡ db) × IsWithinLine warehouse reference lines after before
Booked warehouse reference lines db db' before after (err e) =
    (db' ≡ db) × ((p w : ℕ) (r : String) → after p w r ≡ before p w r)

pub List-cases : {A : Type 0} (xs : List A) → (xs ≡ []) ⊎ ((x : A) × (ys : List A) × (xs ≡ x ∷ ys))
List-cases [] = inl refl
List-cases (x ∷ xs) = inr (x, xs, refl)

pub no_place : (p w : ℕ) (r : String) (p' w' : ℕ) (r' : String) → at_place p w r p' w' r' 0 ≡ 0
no_place p w r p' w' r' = ground arith

taken_back :
    (final after before : ℤ) (done lost : ℕ)
    → final +ℤ pos done ≡ after
    → after +ℤ pos 0 ≡ before +ℤ pos (done + lost)
    → final ≡ before +ℤ pos lost
taken_back final after before done lost h k = grind int_laws

moved_whole :
    (after before : ℤ) (done lost : ℕ)
    → after +ℤ pos 0 ≡ before +ℤ pos (done + lost)
    → lost ≡ 0
    → after ≡ before +ℤ pos done
moved_whole after before done lost h k = grind int_laws

-- A loop from a state in which all is held that was held before.
started :
    (warehouse : ℕ) (reference : String) (lines : List ReservationLine) (error : Option String)
    (more less before : ℕ → ℕ → String → ℤ) (xs done : List ReservationLine)
    → ((p w : ℕ) (r : String) → less p w r ≡ before p w r)
    → Loop warehouse reference lines error more less xs done
    → Loop warehouse reference lines error more before xs done
started warehouse reference lines error more less before xs done same l = record {
  product = l.product;
  quantity = l.quantity;
  of_line = l.of_line;
  whole = l.whole;
  moved = λ p w r. rw (sym (same p w r)) (l.moved p w r);
}

module _ {World : Type 0} (client : ServiceClient World) (contract : Contract client)
    (warehouse : ℕ) (reference : String) (lines : List ReservationLine)
    (before : ℕ → ℕ → String → ℤ) (db : List Order) where
  abbrev Ends : Result × List Order × World → Type 0
  Ends t = Booked warehouse reference lines db t.1 before (contract.held t.2) t.0

  -- Nothing more is held than before.
  nothing_lost :
      (world : World)
      → ((p w : ℕ) (r : String) → contract.held world p w r ≡ before p w r)
      → IsWithinLine warehouse reference lines (contract.held world) before
  nothing_lost world k = record {
    product = 0;
    quantity = 0;
    of_line = inl refl;
    gap = λ p w r. k p w r ∙ grind int_laws;
  }

  undone_call :
      (e : String) (failures : Failures) (world : World)
      → (failures ≡ [] → IsWithinLine warehouse reference lines (contract.held world) before)
      → Ends (after_compensation (downstream_error e) failures, db, world)
  undone_call e [] world k = (refl, k refl)
  undone_call e (f ∷ failures) world k = refl

  undone_database :
      (e : String) (failures : Failures) (world : World)
      → (failures ≡ [] → (p w : ℕ) (r : String) → contract.held world p w r ≡ before p w r)
      → Ends (after_compensation (database_error e) failures, db, world)
  undone_database e [] world k = (refl, k refl)
  undone_database e (f ∷ failures) world k = refl

  abbrev Undone : OrderError → List ReservationLine → World → Type 0
  Undone error done world' =
      let (result, final) = undo_create client warehouse reference error done world' in
      Ends (result, db, final)

  undo_create-call :
      (e : String) (done : List ReservationLine) (world' : World)
      → Loop warehouse reference lines (some e) (contract.held world') before [] done
      → Undone (downstream_error e) done world'
  unfolding undo_create quantity_at
  undo_create-call e done world' l =
      let undo = release_lines client warehouse reference done world' in
      undone_call e undo.0 undo.1 (λ none_failed. record {
        product = l.product;
        quantity = l.quantity;
        of_line = l.of_line;
        gap = λ p w r.
            taken_back _ _ _ _ _
              (held-release_lines client contract warehouse reference p w r done world' none_failed)
              (l.moved p w r);
      })

  undo_create-database :
      (e : String) (done : List ReservationLine) (world' : World)
      → ((p w : ℕ) (r : String)
          → contract.held world' p w r
            ≡ before p w r +ℤ pos (quantity_at warehouse reference done p w r))
      → Undone (database_error e) done world'
  unfolding undo_create
  undo_create-database e done world' k =
      let undo = release_lines client warehouse reference done world' in
      undone_database e undo.0 undo.1 (λ none_failed p w r.
        let back =
          held-release_lines client contract warehouse reference p w r done world' none_failed in
        let grown = k p w r in grind int_laws)

  -- A loop that no error has ended has moved what its lines say.
  ended_whole :
      (done : List ReservationLine) (world' : World)
      → Loop warehouse reference lines none (contract.held world') before [] done
      → (p w : ℕ) (r : String)
      → contract.held world' p w r
        ≡ before p w r +ℤ pos (quantity_at warehouse reference done p w r)
  unfolding quantity_at
  ended_whole done world' l p w r =
      moved_whole _ _ _ _ (l.moved p w r)
        (rw (l.whole refl) (no_place l.product warehouse reference p w r))

module _ {World : Type 0} (client : ServiceClient World) (contract : Contract client)
    (before : ℕ → ℕ → String → ℤ) (db : List Order) (order : Order)
    (lines : List ReservationLine) where
  abbrev OrderEnds : Result × List Order × World → Type 0
  OrderEnds = Ends client contract order.warehouse_id order.order_number lines before db

  require_stored :
      require_order order.id (with_status OrderStatus.reserved order ∷ db)
      ≡ ok (with_status OrderStatus.reserved order)
  unfolding require_order row_at
  require_stored = ground (arith, ==_refl order.id)

  finish_create-Ends :
      (commit_error : Option String) (x : (Option String × List ReservationLine) × World)
      → Loop order.warehouse_id order.order_number lines x.0.0 (contract.held x.1) before [] x.0.1
      → (x.0.0 ≡ none
          → (p w : ℕ) (r : String)
          → quantity_at order.warehouse_id order.order_number x.0.1 p w r
            ≡ order_quantity order p w r)
      → OrderEnds
          (finish_create client order.warehouse_id order.order_number commit_error order db x)
  unfolding finish_create
  finish_create-Ends commit_error ((some e, done), world') k l =
      undo_create-call client contract order.warehouse_id order.order_number lines before db e done
        world' k
  finish_create-Ends (some e) ((none, done), world') k l =
      undo_create-database client contract order.warehouse_id order.order_number lines before db e
        done world'
        (ended_whole client contract order.warehouse_id order.order_number lines before db done
          world' k)
  finish_create-Ends none ((none, done), world') k l =
      let grown =
        ended_whole client contract order.warehouse_id order.order_number lines before db done
          world' k in
      subst
        (Booked order.warehouse_id order.order_number lines db
          (with_status OrderStatus.reserved order ∷ db) before (contract.held world'))
        (sym require_stored) (refl, refl, λ p w r. rw (sym (l refl p w r)) (grown p w r))

  store_order-Ends :
      (faults : Faults) (world : World)
      → lines ≡ map line_of order.items
      → ((p w : ℕ) (r : String) → contract.held world p w r ≡ before p w r)
      → OrderEnds (store_order client faults order lines db world)
  unfolding store_order quantity_at
  store_order-Ends faults world all start = elim (Option-cases faults.flush_error) [
    | inl e ↦
        let x = reserve_all client order.warehouse_id order.order_number lines [] world in
        rw e (
          finish_create-Ends faults.commit_error x
            (started order.warehouse_id order.order_number lines x.0.0 (contract.held x.1)
              (contract.held world) before [] x.0.1 start
              (reserve_all-Loop client contract order.warehouse_id order.order_number lines []
                world))
            (λ h p w r.
              let whole =
                reserve_all-done client contract order.warehouse_id order.order_number p w r lines
                  [] world h in
              let same_lines =
                ap (λ ls. quantity_at order.warehouse_id order.order_number ls p w r) all in
              omega arith))
    | inr (text, e) ↦ rw e (
        undo_create-database client contract order.warehouse_id order.order_number lines before db
          text [] world (λ p w r. let same = start p w r in grind int_laws))
  ]

module _ {World : Type 0} (client : ServiceClient World) (number_of : ℕ → String)
    (request : OrderCreate) (new_id : ℕ) (faults : Faults) (db : List Order)
    (world world' : World) where
  create_order-built :
      (d : Draft)
      → build_order client request world ≡ (returned d, world')
      → create_order client number_of request new_id faults db world
        ≡ store_order client faults
            (new_order number_of request new_id d)
            d.reservation_lines
            db
            world'
  unfolding create_order
  create_order-built d e = ground (arith, e)

  create_order-refused :
      (text : String)
      → build_order client request world ≡ (raised text, world')
      → create_order client number_of request new_id faults db world
        ≡ (err (downstream_error text), db, world')
  unfolding create_order
  create_order-refused text e = ground (arith, e)

requested_lines :
    (items : List OrderItem) → map line_of items ≡ map requested_line (map requested_of items)
requested_lines [] = refl
requested_lines (i ∷ is) = ap (λ ls. line_of i ∷ ls) (requested_lines is)

-- With a client that keeps the stock contract, where a call that raises may have been served: a
-- creation stores the order as RESERVED and its reference holds the quantities of its lines on top
-- of what it held; or it raises and stores nothing, and what every reference holds is as before
-- where the database failed, and where a call of another service failed, as before up to the
-- quantity of one requested line that this order's reference may hold in addition; of the holdings
-- after `OrderCompensationError` nothing is said.
pub create_order-Booked :
    {World : Type 0} (client : ServiceClient World) (contract : Contract client)
    (number_of : ℕ → String) (request : OrderCreate) (new_id : ℕ) (faults : Faults)
    (db : List Order) (world : World)
    → Booked request.warehouse_id
        (number_of new_id)
        (map requested_line request.items)
        db
        (create_order client number_of request new_id faults db world).1
        (contract.held world)
        (contract.held (create_order client number_of request new_id faults db world).2)
        (create_order client number_of request new_id faults db world).0
unfolding new_order
create_order-Booked {World} client contract number_of request new_id faults db world =
    elim (Reply-cases (build_order client request world)) [
      | inl (d, world', e) ↦
          let draft = build_order-IsDraft client request d world world' e in
          let same_lines : d.reservation_lines ≡ map requested_line request.items =
            draft.lines
            ∙ (requested_lines d.order_items ∙ ap (map requested_line) draft.requests) in
          let order = new_order number_of request new_id d in
          let t = store_order client faults order d.reservation_lines db world' in
          let ends : Booked request.warehouse_id (number_of new_id) d.reservation_lines db t.1
              (contract.held world) (contract.held t.2) t.0 =
            store_order-Ends client contract (contract.held world) db order d.reservation_lines
              faults world' draft.lines
              (λ p w r.
                ap (λ (x : Reply Draft × World). contract.held x.1 p w r) (sym e)
                ∙ held-build_order client contract p w r request world) in
          subst
            (Ends client contract request.warehouse_id (number_of new_id)
              (map requested_line request.items) (contract.held world) db)
            (sym (create_order-built client number_of request new_id faults db world world' d e))
            (subst
              (λ ls.
                Booked request.warehouse_id (number_of new_id) ls db t.1 (contract.held world)
                  (contract.held t.2) t.0)
              same_lines ends)
      | inr (text, world', e) ↦
          subst
            (Ends client contract request.warehouse_id (number_of new_id)
              (map requested_line request.items) (contract.held world) db)
            (sym
              (create_order-refused client number_of request new_id faults db world world' text e))
            (
              refl,
              nothing_lost client contract request.warehouse_id (number_of new_id)
                  (map requested_line request.items) (contract.held world) db world'
                  (λ p w r.
                    ap (λ (x : Reply Draft × World). contract.held x.1 p w r) (sym e)
                    ∙ held-build_order client contract p w r request world),
            )
    ]
