-- ===== src/Warehouses/Codes.antt =====
-- What an operation does to the table, and that codes stay unique.
use mathlib.Core.Path.{subst}
use software_engineering_car.Common.{
  ℕ, String, ◌≡◌, refl, sym, ◌∙◌, ap, true, false, ◌||◌, some, List, [], ◌∷◌, ◌++◌, ◌==◌, str_eq,
  arith, Bool-cases, ◌⊎◌, inl, inr, eq_iff, ==→eq,
}
use software_engineering_car.Common.Table.{row_at, has_key, update_where, UniqueKeys}
use software_engineering_car.Common.Append.{UniqueKeys-append}
use software_engineering_car.Warehouses.{Warehouse, write, has_code}

abbrev pub UniqueCodes : List Warehouse → Type 0
UniqueCodes [] = Unit
UniqueCodes (w ∷ rows) = (has_code w.code rows ≡ false) × UniqueCodes rows

-- The table after an operation: as it was, with one more row, or with one row written.
pub data Moves (rows rows' : List Warehouse) : Type 0 where
  same : rows' ≡ rows → Moves rows rows'
  inserted :
      (w : Warehouse)
      → rows' ≡ rows ++ (w ∷ [])
      → has_key Warehouse.id w.id rows ≡ false
      → has_code w.code rows ≡ false
      → Moves rows rows'
  written :
      (w v : Warehouse)
      → rows' ≡ write v rows
      → row_at Warehouse.id v.id rows ≡ some w
      → v.created_at ≡ w.created_at
      → (v.code ≡ w.code) ⊎ (has_code v.code rows ≡ false)
      → Moves rows rows'

has_code-append :
    (c : String) (rows more : List Warehouse)
    → has_code c (rows ++ more) ≡ (has_code c rows || has_code c more)
unfolding has_code
has_code-append c [] more = refl
has_code-append c (w ∷ rows) more = ground (arith, has_code-append c rows more)

other_code : (c d : String) → str_eq c d ≡ false → str_eq d c ≡ false
other_code c d h = ground (arith, h, eq_iff c d, eq_iff d c)

append-UniqueCodes :
    (rows : List Warehouse) (w : Warehouse)
    → UniqueCodes rows
    → has_code w.code rows ≡ false
    → UniqueCodes (rows ++ (w ∷ []))
unfolding has_code
append-UniqueCodes [] w u h = (refl, tt)
append-UniqueCodes (x ∷ rows) w u h =
    let other = other_code x.code w.code (ground (arith, h)) in
    (
      ground (arith, has_code-append x.code rows (w ∷ []), u.0, other),
      append-UniqueCodes rows w u.1 (ground (arith, h)),
    )

write-absent :
    (v : Warehouse) (rows : List Warehouse)
    → has_key Warehouse.id v.id rows ≡ false
    → write v rows ≡ rows
unfolding has_key update_where
write-absent v [] h = refl
write-absent v (r ∷ rows) h = ground (arith, h, write-absent v rows)

-- A code that is neither in the table nor the written row's is not there after the write.
has_code-write :
    (c : String) (v : Warehouse) (rows : List Warehouse)
    → has_code c rows ≡ false
    → str_eq v.code c ≡ false
    → has_code c (write v rows) ≡ false
unfolding has_code update_where
has_code-write c v [] h k = refl
has_code-write c v (r ∷ rows) h k = ground (arith, h, k, has_code-write c v rows)

-- The code of a row that is there is not one that the table has not.
row_at-other_code :
    (c : String) (k : ℕ) (rows : List Warehouse) (w : Warehouse)
    → row_at Warehouse.id k rows ≡ some w
    → has_code c rows ≡ false
    → str_eq w.code c ≡ false
unfolding has_code row_at
row_at-other_code c k [] w h e = absurd (ground (arith, h))
row_at-other_code c k (r ∷ rows) w h e = elim (Bool-cases (r.id == k)) [
  | inl t ↦
      let p : r ≡ w = ground (arith, h, t) in
      subst (λ x. str_eq x.code c ≡ false) p (ground (arith, e))
  | inr t ↦ row_at-other_code c k rows w (ground (arith, h, t)) (ground (arith, e))
]

write-UniqueCodes :
    (w v : Warehouse) (rows : List Warehouse)
    → row_at Warehouse.id v.id rows ≡ some w
    → (v.code ≡ w.code) ⊎ (has_code v.code rows ≡ false)
    → UniqueKeys Warehouse.id rows
    → UniqueCodes rows
    → UniqueCodes (write v rows)
unfolding row_at update_where has_code
write-UniqueCodes w v [] h c u n = tt
write-UniqueCodes w v (r ∷ rows) h c u n = elim (Bool-cases (r.id == v.id)) [
  | inl t ↦
      let p : r ≡ w = ground (arith, h, t) in
      let q = ==→eq r.id v.id t in
      let rest = write-absent v rows (subst (λ k. has_key Warehouse.id k rows ≡ false) q u.0) in
      rw (t, rest) (fresh p c, n.1)
  | inr t ↦
      let here : row_at Warehouse.id v.id rows ≡ some w = ground (arith, h, t) in
      rw t (
        has_code-write r.code v rows n.0 (other here c),
        write-UniqueCodes w v rows here (later c) u.1 n.1,
      )
]
  where
    fresh :
        r ≡ w
        → (v.code ≡ w.code) ⊎ (has_code v.code (r ∷ rows) ≡ false)
        → has_code v.code rows ≡ false
    fresh p (inl e) = subst (λ c. has_code c rows ≡ false) (ap Warehouse.code p ∙ sym e) n.0
    fresh p (inr e) = ground (arith, e)

    other :
        row_at Warehouse.id v.id rows ≡ some w
        → (v.code ≡ w.code) ⊎ (has_code v.code (r ∷ rows) ≡ false)
        → str_eq v.code r.code ≡ false
    other here (inl e) = rw e (row_at-other_code r.code v.id rows w here n.0)
    other here (inr e) = other_code r.code v.code (ground (arith, e))

    later :
        (v.code ≡ w.code) ⊎ (has_code v.code (r ∷ rows) ≡ false)
        → (v.code ≡ w.code) ⊎ (has_code v.code rows ≡ false)
    later (inl e) = inl e
    later (inr e) = inr (ground (arith, e))

pub has_key-write :
    (k : ℕ) (v : Warehouse) (rows : List Warehouse)
    → has_key Warehouse.id k (write v rows) ≡ has_key Warehouse.id k rows
unfolding has_key update_where
has_key-write k v [] = refl
has_key-write k v (r ∷ rows) = ground (arith, has_key-write k v rows, ==→eq r.id v.id)

write-UniqueKeys :
    (v : Warehouse) (rows : List Warehouse)
    → UniqueKeys Warehouse.id rows
    → UniqueKeys Warehouse.id (write v rows)
unfolding update_where
write-UniqueKeys v [] u = tt
write-UniqueKeys v (r ∷ rows) u = elim (Bool-cases (r.id == v.id)) [
  | inl t ↦
      let q = subst (λ k. has_key Warehouse.id k rows ≡ false) (==→eq r.id v.id t) u.0 in
      rw t (has_key-write v.id v rows ∙ q, write-UniqueKeys v rows u.1)
  | inr t ↦ rw t (has_key-write r.id v rows ∙ u.0, write-UniqueKeys v rows u.1)
]

new_key :
    (k : ℕ) (w : Warehouse) (rows : List Warehouse)
    → has_key Warehouse.id w.id rows ≡ false
    → has_key Warehouse.id k (w ∷ []) ≡ true
    → has_key Warehouse.id k rows ≡ false
unfolding has_key
new_key k w rows h e =
    subst (λ n. has_key Warehouse.id n rows ≡ false) (==→eq w.id k (ground (arith, e))) h

one_key : (w : Warehouse) → UniqueKeys Warehouse.id (w ∷ [])
unfolding has_key
one_key w = (refl, tt)

-- Ids and codes are unique.
pub record IsSound (rows : List Warehouse) : Type 0 where
  pub ids : UniqueKeys Warehouse.id rows
  pub codes : UniqueCodes rows

pub Moves-IsSound : (rows rows' : List Warehouse) → Moves rows rows' → IsSound rows → IsSound rows'
Moves-IsSound rows rows' (same e) s = subst IsSound (sym e) s
Moves-IsSound rows rows' (inserted w e k c) s = subst IsSound (sym e) (record {
  ids = UniqueKeys-append Warehouse.id rows (w ∷ []) s.ids (one_key w) (λ n. new_key n w rows k);
  codes = append-UniqueCodes rows w s.codes c;
})
Moves-IsSound rows rows' (written w v e h t c) s = subst IsSound (sym e) (record {
  ids = write-UniqueKeys v rows s.ids;
  codes = write-UniqueCodes w v rows h c s.ids s.codes;
})
