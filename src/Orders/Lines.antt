-- ===== src/Orders/Lines.antt =====
-- What the reservation and release loops do to the quantities that a reference holds.
use mathlib.Core.List.{reverse_aux}
use software_engineering_car.Common.{
  ℕ, ◌+◌, String, ◌≡◌, refl, sym, Bool, true, false, ◌&&◌, ◌||◌, ◌==◌, ==_refl, Option, none, List,
  [], ◌∷◌, ◌++◌, reverse, arith, ◌⊎◌, inl, inr,
}
use software_engineering_car.Common.Int.{ℤ, pos, ◌+ℤ◌, int_laws}
use software_engineering_car.Orders.Model.{ReservationLine}
use software_engineering_car.Orders.Client.{
  Reply, returned, raised, ServiceClient, Contract, at_place, IsLost,
}
use software_engineering_car.Orders.{
  release_each, release_lines, reserve_lines, reserve_all, release_all,
}

-- The quantity of an order's lines at a place.
unfoldable pub quantity_at : ℕ → String → List ReservationLine → ℕ → ℕ → String → ℕ
quantity_at warehouse reference [] p w r = 0
quantity_at warehouse reference (l ∷ ls) p w r =
    at_place l.product_id warehouse reference p w r l.quantity
    + quantity_at warehouse reference ls p w r

pub Reply-cases :
    {A World : Type 0} (x : Reply A × World)
    → ((a : A) × (world : World) × (x ≡ (returned a, world)))
      ⊎ ((e : String) × (world : World) × (x ≡ (raised e, world)))
Reply-cases (returned a, world) = inl (a, world, refl)
Reply-cases (raised e, world) = inr (e, world, refl)

module _ (warehouse : ℕ) (reference : String) (p w : ℕ) (r : String) where
  abbrev amount : List ReservationLine → ℕ
  amount ls = quantity_at warehouse reference ls p w r

  pub quantity_at-++ : (xs ys : List ReservationLine) → amount (xs ++ ys) ≡ amount xs + amount ys
  unfolding quantity_at
  quantity_at-++ [] ys = omega arith
  quantity_at-++ (x ∷ xs) ys = omega (arith, quantity_at-++ xs ys)

  quantity_at-reverse_aux :
      (xs ys : List ReservationLine) → amount (reverse_aux xs ys) ≡ amount xs + amount ys
  unfolding quantity_at
  quantity_at-reverse_aux [] ys = omega arith
  quantity_at-reverse_aux (x ∷ xs) ys = omega (arith, quantity_at-reverse_aux xs (x ∷ ys))

  pub quantity_at-reverse : (xs : List ReservationLine) → amount (reverse xs) ≡ amount xs
  unfolding quantity_at
  quantity_at-reverse xs = omega (arith, quantity_at-reverse_aux xs [])

-- A quantity of one of the lines, or nothing.
abbrev pub has_line : ℕ → ℕ → List ReservationLine → Bool
has_line product quantity [] = false
has_line product quantity (l ∷ ls) =
    (l.product_id == product && l.quantity == quantity) || has_line product quantity ls

-- `more` is `less` and at most one line's quantity, held by the reference at the warehouse.
pub record IsWithinLine (warehouse : ℕ) (reference : String) (lines : List ReservationLine)
    (more less : ℕ → ℕ → String → ℤ) : Type 0 where
  pub product : ℕ
  pub quantity : ℕ
  pub of_line : (quantity ≡ 0) ⊎ (has_line product quantity lines ≡ true)
  pub gap :
      (p w : ℕ) (r : String)
      → more p w r ≡ less p w r +ℤ pos (at_place product warehouse reference p w r quantity)

pub lost_line :
    (l : ReservationLine) (ls : List ReservationLine) (lost : ℕ)
    → IsLost l.quantity lost
    → (lost ≡ 0) ⊎ (has_line l.product_id lost (l ∷ ls) ≡ true)
lost_line l ls lost (inl e) = inl e
lost_line l ls lost (inr e) = inr (ground (arith, e, ==_refl l.product_id, ==_refl l.quantity))

pub later_line :
    (l : ReservationLine) (ls : List ReservationLine) (product quantity : ℕ)
    → (quantity ≡ 0) ⊎ (has_line product quantity ls ≡ true)
    → (quantity ≡ 0) ⊎ (has_line product quantity (l ∷ ls) ≡ true)
later_line l ls product quantity (inl e) = inl e
later_line l ls product quantity (inr e) = inr (ground (arith, e))

one_more :
    (after middle less : ℤ) (before before' one moved : ℕ)
    → after +ℤ pos before' ≡ middle +ℤ pos moved
    → middle ≡ less +ℤ pos one
    → before' ≡ before + (one + 0)
    → after +ℤ pos before ≡ less +ℤ pos moved
one_more after middle less before before' one moved h k e = grind int_laws

-- What a loop that calls for the lines in turn has done: `done` of them, and at most one line more
-- where an error has ended it.
pub record Loop (warehouse : ℕ) (reference : String) (lines : List ReservationLine)
    (error : Option String) (more less : ℕ → ℕ → String → ℤ) (before done : List ReservationLine)
    : Type 0 where
  pub product : ℕ
  pub quantity : ℕ
  pub of_line : (quantity ≡ 0) ⊎ (has_line product quantity lines ≡ true)
  pub whole : error ≡ none → quantity ≡ 0
  pub moved :
      (p w : ℕ) (r : String)
      → more p w r +ℤ pos (quantity_at warehouse reference before p w r)
        ≡ less p w r
          +ℤ pos (
              quantity_at warehouse reference done p w r
              + at_place product warehouse reference p w r quantity)

module _ {World : Type 0} (client : ServiceClient World) (contract : Contract client)
    (warehouse : ℕ) (reference : String) where
  abbrev pub all_held : World → ℕ → ℕ → String → ℤ
  all_held world = contract.held world

  -- What the loop of a creation has reserved is what the reference holds more.
  pub reserve_all-Loop :
      (ls done : List ReservationLine) (world : World)
      → let x = reserve_all client warehouse reference ls done world in
        Loop warehouse reference ls x.0.0 (all_held x.1) (all_held world) done x.0.1
  unfolding reserve_all quantity_at
  reserve_all-Loop [] done world = record {
    product = 0;
    quantity = 0;
    of_line = inl refl;
    whole = λ h. refl;
    moved = λ p w r. grind int_laws;
  }
  reserve_all-Loop (l ∷ ls) done world =
      elim (Reply-cases (client.reserve_stock l.product_id warehouse l.quantity reference world)) [
        | inl (u, world', e) ↦
            let rest = reserve_all-Loop ls (done ++ (l ∷ [])) world' in
            let next : reserve_all client warehouse reference (l ∷ ls) done world
                ≡ reserve_all client warehouse reference ls (done ++ (l ∷ [])) world' =
              ground (arith, e) in
            record {
              product = rest.product;
              quantity = rest.quantity;
              of_line = later_line l ls rest.product rest.quantity rest.of_line;
              whole = λ h. rest.whole (ground (arith, e, h));
              moved = λ p w r. rw next (
                  one_more _ _ _ _ _ _ _ (rest.moved p w r)
                    (contract.reserve_adds l.product_id warehouse l.quantity reference world world'
                      e p w r)
                    (quantity_at-++ warehouse reference p w r done (l ∷ [])));
            }
        | inr (text, world', e) ↦
            let (lost, c, k) =
              contract.reserve_raised l.product_id warehouse l.quantity reference text world world'
                e in
            record {
              product = l.product_id;
              quantity = lost;
              of_line = lost_line l ls lost c;
              whole = λ h. absurd (ground (arith, e, h));
              moved = λ p w r. grind (int_laws, e, k p w r);
            }
      ]

  -- What the loop of a cancellation has released is what the reference holds less.
  pub release_all-Loop :
      (ls done : List ReservationLine) (world : World)
      → let x = release_all client warehouse reference ls done world in
        Loop warehouse reference ls x.0.0 (all_held world) (all_held x.1) done x.0.1
  unfolding release_all quantity_at
  release_all-Loop [] done world = record {
    product = 0;
    quantity = 0;
    of_line = inl refl;
    whole = λ h. refl;
    moved = λ p w r. grind int_laws;
  }
  release_all-Loop (l ∷ ls) done world =
      elim (Reply-cases (client.release_stock l.product_id warehouse l.quantity reference world)) [
        | inl (u, world', e) ↦
            let rest = release_all-Loop ls (done ++ (l ∷ [])) world' in
            record {
              product = rest.product;
              quantity = rest.quantity;
              of_line = later_line l ls rest.product rest.quantity rest.of_line;
              whole = λ h. rest.whole (ground (arith, e, h));
              moved = λ p w r. grind (
                int_laws,
                e,
                rest.moved p w r,
                contract.release_takes l.product_id warehouse l.quantity reference world world' e p
                    w r,
                quantity_at-++ warehouse reference p w r done (l ∷ []),
              );
            }
        | inr (text, world', e) ↦
            let (lost, c, k) =
              contract.release_raised l.product_id warehouse l.quantity reference text world world'
                e in
            record {
              product = l.product_id;
              quantity = lost;
              of_line = lost_line l ls lost c;
              whole = λ h. absurd (ground (arith, e, h));
              moved = λ p w r. grind (int_laws, e, k p w r);
            }
      ]

module _ {World : Type 0} (client : ServiceClient World) (contract : Contract client)
    (warehouse : ℕ) (reference : String) (p w : ℕ) (r : String) where
  abbrev at_reference : List ReservationLine → ℕ
  at_reference ls = quantity_at warehouse reference ls p w r

  abbrev held_in : World → ℤ
  held_in world = contract.held world p w r

  held-release_each :
      (ls : List ReservationLine) (world : World)
      → (release_each client warehouse reference ls world).0 ≡ []
      → held_in (release_each client warehouse reference ls world).1 +ℤ pos (at_reference ls)
        ≡ held_in world
  unfolding release_each quantity_at
  held-release_each [] world h = omega int_laws
  held-release_each (l ∷ ls) world h =
      elim (Reply-cases (client.release_stock l.product_id warehouse l.quantity reference world)) [
        | inl (u, world', e) ↦ grind (
          int_laws,
          e,
          held-release_each ls world',
          contract.release_takes l.product_id warehouse l.quantity reference world world' e p w r,
        )
        | inr (text, world', e) ↦ absurd (ground (arith, e))
      ]

  -- A compensation without failures takes away all that its lines hold.
  pub held-release_lines :
      (ls : List ReservationLine) (world : World)
      → (release_lines client warehouse reference ls world).0 ≡ []
      → held_in (release_lines client warehouse reference ls world).1 +ℤ pos (at_reference ls)
        ≡ held_in world
  unfolding release_lines
  held-release_lines ls world h =
      rw (sym (quantity_at-reverse warehouse reference p w r ls))
        (held-release_each (reverse ls) world h)

  -- One without failures reserves them all again.
  pub held-reserve_lines :
      (ls : List ReservationLine) (world : World)
      → (reserve_lines client warehouse reference ls world).0 ≡ []
      → held_in (reserve_lines client warehouse reference ls world).1
        ≡ held_in world +ℤ pos (at_reference ls)
  unfolding reserve_lines quantity_at
  held-reserve_lines [] world h = omega int_laws
  held-reserve_lines (l ∷ ls) world h =
      elim (Reply-cases (client.reserve_stock l.product_id warehouse l.quantity reference world)) [
        | inl (u, world', e) ↦ grind (
          int_laws,
          e,
          held-reserve_lines ls world',
          contract.reserve_adds l.product_id warehouse l.quantity reference world world' e p w r,
        )
        | inr (text, world', e) ↦ absurd (ground (arith, e))
      ]

  -- A loop that was not ended by an error has gone through all lines.
  pub reserve_all-done :
      (ls done : List ReservationLine) (world : World)
      → (reserve_all client warehouse reference ls done world).0.0 ≡ none
      → at_reference (reserve_all client warehouse reference ls done world).0.1
        ≡ at_reference done + at_reference ls
  unfolding reserve_all quantity_at
  reserve_all-done [] done world h = omega arith
  reserve_all-done (l ∷ ls) done world h =
      elim (Reply-cases (client.reserve_stock l.product_id warehouse l.quantity reference world)) [
        | inl (u, world', e) ↦ grind (
          arith,
          e,
          reserve_all-done ls (done ++ (l ∷ [])) world',
          quantity_at-++ warehouse reference p w r done (l ∷ []),
        )
        | inr (text, world', e) ↦ absurd (ground (arith, e))
      ]

  pub release_all-done :
      (ls done : List ReservationLine) (world : World)
      → (release_all client warehouse reference ls done world).0.0 ≡ none
      → at_reference (release_all client warehouse reference ls done world).0.1
        ≡ at_reference done + at_reference ls
  unfolding release_all quantity_at
  release_all-done [] done world h = omega arith
  release_all-done (l ∷ ls) done world h =
      elim (Reply-cases (client.release_stock l.product_id warehouse l.quantity reference world)) [
        | inl (u, world', e) ↦ grind (
          arith,
          e,
          release_all-done ls (done ++ (l ∷ [])) world',
          quantity_at-++ warehouse reference p w r done (l ∷ []),
        )
        | inr (text, world', e) ↦ absurd (ground (arith, e))
      ]
