-- ===== src/Common/Append.antt =====
-- Tables with rows added at their end.
use mathlib.Core.Path.{◌≡◌, refl, ◌∙◌}
use mathlib.Core.Logic.{◌⊎◌, inl, inr}
use mathlib.Core.Bool.{Bool, true, false, ◌||◌}
use mathlib.Core.List.{List, [], ◌∷◌, ◌++◌}
use native.Mathlib.Omega.{arith}
use Prim.Native.Nat.{ℕ}
use software_engineering_car.Common.Tests.{Bool-cases}
use software_engineering_car.Common.Table.{select_where, has_key, UniqueKeys}

pub select_where-append :
    {A : Type 0} (p : A → Bool) (xs ys : List A)
    → select_where p (xs ++ ys) ≡ select_where p xs ++ select_where p ys
unfolding select_where
select_where-append p [] ys = refl
select_where-append p (x ∷ xs) ys = ground (arith, select_where-append p xs ys)

module _ {A : Type 0} (key : A → ℕ) where
  pub has_key-append :
      (k : ℕ) (xs ys : List A) → has_key key k (xs ++ ys) ≡ (has_key key k xs || has_key key k ys)
  unfolding has_key
  has_key-append k [] ys = refl
  has_key-append k (x ∷ xs) ys = ground (arith, has_key-append k xs ys)

  -- Keys stay unique where no new key is an old one.
  pub UniqueKeys-append :
      (xs ys : List A)
      → UniqueKeys key xs
      → UniqueKeys key ys
      → ((k : ℕ) → has_key key k ys ≡ true → has_key key k xs ≡ false)
      → UniqueKeys key (xs ++ ys)
  UniqueKeys-append [] ys u v h = v
  UniqueKeys-append (x ∷ xs) ys u v h = (
    has_key-append (key x) xs ys ∙ rw u.0 (new (Bool-cases (has_key key (key x) ys))),
    UniqueKeys-append xs ys u.1 v (λ k e. unfold has_key in ground (arith, h k e)),
  )
    where
      new :
          (has_key key (key x) ys ≡ true) ⊎ (has_key key (key x) ys ≡ false)
          → has_key key (key x) ys ≡ false
      new (inl e) = absurd (unfold has_key in ground (arith, h (key x) e))
      new (inr e) = e
