-- ===== src/Jobs/Queue/Backoff.antt =====
-- The retry delay of queue.py: capped exponential backoff.
use native.Mathlib.Nat.{pow-suc}
use native.Mathlib.Decide.{dec_le}
use software_engineering_car.Common.{ℕ, zero, suc, ◌-◌, ◌*◌, ◌^◌, ◌≤◌, ◌≡◌, refl, arith, min, max}
use software_engineering_car.Jobs.Model.{calculate_retry_delay}

-- The wait that the code's comment describes: the base delay after the first attempt, doubled for
-- each further one.
abbrev pub doubled : ℕ → ℕ → ℕ
doubled base zero = base
doubled base (suc k) = 2 * doubled base k

pow-doubled : (base k : ℕ) → base * 2 ^ k ≡ doubled base k
pow-doubled base zero = omega arith
pow-doubled base (suc k) = rw pow-suc (grind (arith, pow-doubled base k))

-- After attempt k + 1 the delay is the base doubled k times, cut off at the maximum.
pub retry_delay_doubles :
    (k base max_delay : ℕ)
    → calculate_retry_delay (suc k) base max_delay ≡ min (doubled base k) max_delay
unfolding calculate_retry_delay
retry_delay_doubles k base max_delay =
    let exponent : max (suc k - 1) 0 ≡ k = omega arith in rw (exponent, pow-doubled base k) refl

retry_delay-eq :
    (n base max_delay : ℕ)
    → calculate_retry_delay n base max_delay ≡ min (doubled base (n - 1)) max_delay
unfolding calculate_retry_delay
retry_delay-eq n base max_delay =
    let exponent : max (n - 1) 0 ≡ n - 1 = omega arith in
    rw (exponent, pow-doubled base (n - 1)) refl

doubled_mono : (base m n : ℕ) → m ≤ n → doubled base m ≤ doubled base n
doubled_mono base zero zero h = omega arith
doubled_mono base (suc m) zero h = absurd (omega arith)
doubled_mono base m (suc n) h = elim (dec_le m n) [
  | yes le ↦ omega (arith, doubled_mono base m n le)
  | no gt ↦ let top : m ≡ suc n = omega arith in rw top (omega arith)
]

-- The delay never passes the maximum, and a longer history of failures never shortens it.
pub retry_delay_bounded_mono :
    (m n base max_delay : ℕ)
    → m ≤ n
    → (calculate_retry_delay m base max_delay ≤ calculate_retry_delay n base max_delay)
      × (calculate_retry_delay n base max_delay ≤ max_delay)
retry_delay_bounded_mono m n base max_delay h =
    let grows : doubled base (m - 1) ≤ doubled base (n - 1) =
      doubled_mono base (m - 1) (n - 1) (omega arith) in
    omega (arith, retry_delay-eq m base max_delay, retry_delay-eq n base max_delay)
