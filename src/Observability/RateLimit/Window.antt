-- ===== src/Observability/RateLimit/Window.antt =====
-- How eviction acts on a queue in chronological order.
use software_engineering_car.Common.{
  ℕ, ◌+◌, ◌≤◌, ◌≡◌, refl, Bool, true, List, [], ◌∷◌, ◌++◌, ltb, leb, length, arith, Bool-cases, inl,
  inr,
}
use software_engineering_car.Common.Table.{select_where}
use software_engineering_car.Observability.RateLimit.{evict}

-- A time that is inside the window that ends `now`.
abbrev pub is_live : ℕ → ℕ → ℕ → Bool
is_live window now t = ltb now (t + window)

-- Times in order, from `low` to `high`.
abbrev pub Between : ℕ → ℕ → List ℕ → Type 0
Between low high [] = low ≤ high
Between low high (t ∷ ts) = (low ≤ t) × Between t high ts

pub Between-weaken :
    (low low' high high' : ℕ) (ts : List ℕ)
    → low' ≤ low
    → high ≤ high'
    → Between low high ts
    → Between low' high' ts
Between-weaken low low' high high' [] a b s = omega arith
Between-weaken low low' high high' (t ∷ ts) a b s =
    (omega (arith, s.0), Between-weaken t t high high' ts (omega arith) b s.1)

pub Between-append :
    (low high now : ℕ) (ts : List ℕ)
    → high ≤ now
    → Between low high ts
    → Between low now (ts ++ (now ∷ []))
Between-append low high now [] h s = (omega arith, omega arith)
Between-append low high now (t ∷ ts) h s = (s.0, Between-append t high now ts h s.1)

pub evict-Between :
    (window now low high : ℕ) (ts : List ℕ)
    → Between low high ts
    → Between low high (evict window now ts)
unfolding evict
evict-Between window now low high [] s = s
evict-Between window now low high (t ∷ ts) s = elim (Bool-cases (leb (t + window) now)) [
  | inl e ↦ rw e (
      Between-weaken t low high high (evict window now ts) s.0 (omega arith)
        (evict-Between window now t high ts s.1))
  | inr e ↦ rw e s
]

select_live :
    (window now low high : ℕ) (ts : List ℕ)
    → Between low high ts
    → is_live window now low ≡ true
    → select_where (is_live window now) ts ≡ ts
unfolding select_where
select_live window now low high [] s l = refl
select_live window now low high (t ∷ ts) s l =
    let l' : is_live window now t ≡ true = ground (arith, s.0) in
    rw (l', select_live window now t high ts s.1 l') refl

pub evict-select :
    (window now low high : ℕ) (ts : List ℕ)
    → Between low high ts
    → evict window now ts ≡ select_where (is_live window now) ts
unfolding evict select_where
evict-select window now low high [] s = refl
evict-select window now low high (t ∷ ts) s =
    ground (arith, evict-select window now t high ts s.1, select_live window now t high ts s.1)

pub length-evict : (window now : ℕ) (ts : List ℕ) → length (evict window now ts) ≤ length ts
unfolding evict
length-evict window now [] = omega arith
length-evict window now (t ∷ ts) = ground (arith, length-evict window now ts)
