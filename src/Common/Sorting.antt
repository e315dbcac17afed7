-- ===== src/Common/Sorting.antt =====
-- `ORDER BY`: a stable sort by a Boolean comparison, and what a prefix of its result is.
use Prim.Native.Nat.{ℕ, zero, suc}
use mathlib.Core.Path.{◌≡◌}
use mathlib.Core.Logic.{inl, inr}
use mathlib.Core.Bool.{Bool, true, false}
use mathlib.Core.List.{List, [], ◌∷◌}
use software_engineering_car.Common.Tests.{Bool-cases, if◌then◌else◌}
use software_engineering_car.Common.Lists.{All, take, drop}

module _ {ℓ} {A : Type ℓ} (before : A → A → Bool) where
  unfoldable pub insert_row : A → List A → List A
  insert_row a [] = a ∷ []
  insert_row a (b ∷ bs) = if before a b then a ∷ b ∷ bs else b ∷ insert_row a bs

  unfoldable pub order_by : List A → List A
  order_by [] = []
  order_by (a ∷ as') = insert_row a (order_by as')

  -- Every element comes before all that follow it.
  abbrev pub IsOrdered : List A → Type 0
  IsOrdered [] = Unit
  IsOrdered (a ∷ as') = All (λ b. before a b ≡ true) as' × IsOrdered as'

  pub All-drop {κ} : (P : A → Type κ) (n : ℕ) (xs : List A) → All P xs → All P (drop n xs)
  All-drop P zero xs h = h
  All-drop P (suc n) [] h = h
  All-drop P (suc n) (x ∷ xs) h = All-drop P n xs h.1

  -- Whatever a limit keeps comes before whatever it cuts off.
  pub take_before_drop :
      (n : ℕ) (xs : List A)
      → IsOrdered xs
      → All (λ a. All (λ b. before a b ≡ true) (drop n xs)) (take n xs)
  take_before_drop zero xs h = tt
  take_before_drop (suc n) [] h = tt
  take_before_drop (suc n) (x ∷ xs) h =
      (All-drop (λ b. before x b ≡ true) n xs h.0, take_before_drop n xs h.1)

module _ {ℓ} {A : Type ℓ} (before : A → A → Bool)
    (before_total : (a b : A) → before a b ≡ false → before b a ≡ true)
    (before_trans : (a b c : A) → before a b ≡ true → before b c ≡ true → before a c ≡ true) where
  All-before_trans :
      (a b : A) (xs : List A)
      → before a b ≡ true
      → All (λ c. before b c ≡ true) xs
      → All (λ c. before a c ≡ true) xs
  All-before_trans a b [] h k = tt
  All-before_trans a b (x ∷ xs) h k = (before_trans a b x h k.0, All-before_trans a b xs h k.1)

  All-insert_row :
      (c a : A) (xs : List A)
      → before c a ≡ true
      → All (λ b. before c b ≡ true) xs
      → All (λ b. before c b ≡ true) (insert_row before a xs)
  unfolding insert_row
  All-insert_row c a [] h k = (h, tt)
  All-insert_row c a (x ∷ xs) h k = elim (Bool-cases (before a x)) [
    | inl e ↦ rw e (h, k)
    | inr e ↦ rw e (k.0, All-insert_row c a xs h k.1)
  ]

  insert_row-IsOrdered :
      (a : A) (xs : List A) → IsOrdered before xs → IsOrdered before (insert_row before a xs)
  unfolding insert_row
  insert_row-IsOrdered a [] h = (tt, tt)
  insert_row-IsOrdered a (x ∷ xs) h = elim (Bool-cases (before a x)) [
    | inl e ↦ rw e ((e, All-before_trans a x xs e h.0), h)
    | inr e ↦ rw e (All-insert_row x a xs (before_total a x e) h.0, insert_row-IsOrdered a xs h.1)
  ]

  pub order_by-IsOrdered : (xs : List A) → IsOrdered before (order_by before xs)
  unfolding order_by
  order_by-IsOrdered [] = tt
  order_by-IsOrdered (x ∷ xs) = insert_row-IsOrdered x (order_by before xs) (order_by-IsOrdered xs)
