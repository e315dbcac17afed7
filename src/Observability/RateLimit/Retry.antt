-- ===== src/Observability/RateLimit/Retry.antt =====
-- After how long a rejected client is accepted.
use mathlib.Core.Path.{subst}
use native.Mathlib.Nat.{mod-lt, div-add-mod'}
use software_engineering_car.Common.{
  ℕ, suc, ◌+◌, ◌-◌, ◌*◌, ◌/◌, ◌%◌, ◌≤◌, ◌<◌, ◌≡◌, refl, ◌∙◌, String, true, false, List, [], ◌∷◌,
  ◌++◌, ltb, leb, str_eq, length, length-append, arith, if◌then◌else◌, Bool-cases, inl, inr, max,
  ap, All, eq_iff, zero,
}
use software_engineering_car.Observability.RateLimit.{
  Times, no_requests, rejected, is_accepted, admit, admit_one, judge, evict, seconds_left,
}
use software_engineering_car.Observability.RateLimit.Window.{length-evict}
use software_engineering_car.Observability.RateLimit.Refine.{
  Event, run, client-cases, admit_one-cases,
}

at_least_one : (q t x : ℕ) → x ≤ q * t → x ≤ max 1 q * t
at_least_one zero t x h = omega (arith, h)
at_least_one (suc k) t x h = let e : max 1 (suc k) ≡ suc k = omega arith in rw e h

-- Waiting for the announced seconds takes the oldest time out of the window.
seconds_left_lem :
    (ticks window now oldest : ℕ)
    → 0 < ticks
    → oldest + window ≤ now + seconds_left ticks window now oldest * ticks
unfolding seconds_left
seconds_left_lem ticks window now oldest pos =
    let d = oldest + window - now + (ticks - 1) in
    let m : d % ticks < ticks = mod-lt d pos in
    let e : d / ticks * ticks + d % ticks ≡ d = div-add-mod' d ticks in
    let f = at_least_one (d / ticks) ticks (oldest + window - now) (omega arith) in omega arith

-- No queue is longer than the limit.
abbrev Short : ℕ → Times → Type 0
Short limit times = (c : String) → length (times c) ≤ limit

admit-Short :
    (ticks limit window now : ℕ) (c : String) (times : Times)
    → 0 < limit
    → Short limit times
    → Short limit (admit ticks limit window c now times).1
unfolding admit
admit-Short ticks limit window now c times pos s c' = elim (client-cases c c') [
  | inl (e, same) ↦ rw e (
      one (evict window now (times c)) (length-evict window now (times c))
        (admit_one-cases ticks limit window now (times c) pos).1)
  | inr e ↦ rw e (s c')
]
  where
    one :
        {q' : List ℕ} (live : List ℕ)
        → length live ≤ length (times c)
        → q' ≡ (if ltb (length live) limit then live ++ (now ∷ []) else live)
        → length q' ≤ limit
    one live h e = ground (arith, ap length e, h, s c, length-append live (now ∷ []))

run-Short :
    (ticks limit window : ℕ) (events : List Event) (times : Times) (log : List Event)
    → 0 < limit
    → Short limit times
    → Short limit (run ticks limit window events times log).0
unfolding run
run-Short ticks limit window [] times log pos s = s
run-Short ticks limit window (e ∷ events) times log pos s =
    let r = admit ticks limit window e.0 e.1 times in
    run-Short ticks limit window events r.1 (if is_accepted r.0 then log ++ (e ∷ []) else log) pos
      (admit-Short ticks limit window e.1 e.0 times pos s)

-- Other clients' requests leave a client's queue alone.
run-others :
    (ticks limit window : ℕ) (c : String) (events : List Event) (times : Times) (log : List Event)
    → All (λ e. str_eq e.0 c ≡ false) events
    → (run ticks limit window events times log).0 c ≡ times c
unfolding run admit
run-others ticks limit window c [] times log o = refl
run-others ticks limit window c (e ∷ events) times log o =
    let r = admit ticks limit window e.0 e.1 times in
    run-others ticks limit window c events r.1 (if is_accepted r.0 then log ++ (e ∷ []) else log)
      o.1
    ∙ rw o.0 refl

-- The queue of a client that was rejected.
rejected-cases :
    (ticks limit window now r : ℕ) (live : List ℕ)
    → (judge ticks limit window now live).0 ≡ rejected r
    → (t : ℕ) × (ts : List ℕ) × (live ≡ t ∷ ts)
      × ((judge ticks limit window now live).1 ≡ t ∷ ts)
      × (r ≡ seconds_left ticks window now t)
rejected-cases ticks limit window now r [] h = absurd (ground (arith, h))
rejected-cases ticks limit window now r (t ∷ ts) h =
    elim (Bool-cases (leb limit (length (t ∷ ts)))) [
      | inl e ↦ (t, ts, refl, rw e refl, ground (arith, h, e))
      | inr e ↦ absurd (ground (arith, h, e))
    ]

str_eq-same : (c : String) → str_eq c c ≡ true
str_eq-same c = ground (arith, eq_iff c c)

-- A queue whose oldest time has left the window has room.
head_leaves :
    (ticks limit window now t : ℕ) (ts : List ℕ)
    → 0 < limit
    → length (t ∷ ts) ≤ limit
    → t + window ≤ now
    → is_accepted (admit_one ticks limit window now (t ∷ ts)).0 ≡ true
unfolding evict
head_leaves ticks limit window now t ts pos s h = ground (
  arith,
  (admit_one-cases ticks limit window now (t ∷ ts) pos).0,
  length-evict window now ts,
  s,
  h,
)

-- A client that is rejected at `now` with a Retry-After of r seconds, after any requests, is
-- accepted at any time from r seconds later on, whatever other clients send in between, if it sends
-- none itself. The limit and the clock's ticks to the second are positive.
pub retry_after_suffices :
    (ticks limit window : ℕ) (events others : List Event) (c : String) (now r now' : ℕ)
    → 0 < limit
    → 0 < ticks
    → (admit ticks limit window c now (run ticks limit window events no_requests []).0).0
      ≡ rejected r
    → All (λ e. str_eq e.0 c ≡ false) others
    → now + r * ticks ≤ now'
    → is_accepted
        (admit ticks limit window c now'
          (run ticks limit window others
            (admit ticks limit window c now (run ticks limit window events no_requests []).0).1
            []).0).0
      ≡ true
unfolding admit admit_one
retry_after_suffices ticks limit window events others c now r now' pos tick h o wait =
    let times : Times = (run ticks limit window events no_requests []).0 in
    let times' : Times = (admit ticks limit window c now times).1 in
    let (t, ts, live, kept, e) =
      rejected-cases ticks limit window now r (evict window now (times c)) h in
    let queue : times' c ≡ t ∷ ts = rw (str_eq-same c) kept in
    let short = run-Short ticks limit window events no_requests [] pos (λ c'. omega arith) in
    let s = admit-Short ticks limit window now c times pos short c in
    let w : t + window ≤ now' =
      omega (arith, seconds_left_lem ticks window now t tick, ap (λ (x : ℕ). x * ticks) e) in
    rw (run-others ticks limit window c others times' [] o, queue)
      (head_leaves ticks limit window now' t ts pos (subst (λ q. length q ≤ limit) queue s) w)
