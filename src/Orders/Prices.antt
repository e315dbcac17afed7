-- ===== src/Orders/Prices.antt =====
-- The rounding of prices to cents.
use native.Mathlib.Nat.{div-add-mod, mod-lt, pow-suc}
use software_engineering_car.Common.{ℕ, zero, suc, ◌+◌, ◌*◌, ◌/◌, ◌%◌, ◌^◌, ◌≤◌, ◌<◌, ◌≡◌, arith}
use software_engineering_car.Common.Int.{pos_part}
use software_engineering_car.Orders.Model.{Decimal, to_cents}

pow-positive : (s : ℕ) → 0 < 10 ^ s
pow-positive zero = omega arith
pow-positive (suc s) = rw pow-suc (omega (arith, pow-positive s))

-- The quotient of doubled numbers rounds to the nearest, and halves up.
half_up :
    (n d : ℕ)
    → 0 < d
    → (2 * d * ((2 * n + d) / (2 * d)) ≤ 2 * n + d)
      × (2 * n + d < 2 * d * ((2 * n + d) / (2 * d)) + 2 * d)
half_up n d h =
    let whole = div-add-mod (2 * n + d) (2 * d) in
    let rest : (2 * n + d) % (2 * d) < 2 * d = mod-lt (2 * n + d) (omega arith) in
    let q = (2 * n + d) / (2 * d) in (omega arith, omega arith)

-- The cents that a price is rounded to are at most half a cent more than the price and less than
-- half a cent below it, so that a half is rounded up; a negative price counts as zero here.
pub to_cents_nearest :
    (d : Decimal)
    → (2 * 10 ^ d.scale * to_cents d ≤ 2 * (100 * pos_part d.coefficient) + 10 ^ d.scale)
      × (2 * (100 * pos_part d.coefficient) < 2 * 10 ^ d.scale * to_cents d + 10 ^ d.scale)
unfolding to_cents
to_cents_nearest d =
    let (low, high) =
      half_up (100 * pos_part d.coefficient) (10 ^ d.scale) (pow-positive d.scale) in
    let same : 2 * 100 * pos_part d.coefficient ≡ 2 * (100 * pos_part d.coefficient) =
      omega arith in
    rw same (low, omega arith)
