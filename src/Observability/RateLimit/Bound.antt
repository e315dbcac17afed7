-- ===== src/Observability/RateLimit/Bound.antt =====
-- How many requests the limiter accepts inside any window.
use software_engineering_car.Common.{
  ℕ, ◌+◌, ◌≤◌, ◌<◌, ◌≡◌, String, Bool, true, ◌&&◌, List, [], ◌∷◌, ◌++◌, ltb, leb, length,
  length-append, arith, if◌then◌else◌, Bool-cases, inl, inr,
}
use software_engineering_car.Common.Table.{select_where}
use software_engineering_car.Common.Append.{select_where-append}
use software_engineering_car.Observability.RateLimit.{no_requests}
use software_engineering_car.Observability.RateLimit.Window.{is_live}
use software_engineering_car.Observability.RateLimit.Refine.{
  Event, times_of, has_room, spec_run, run, Chronological, run_refines, times_of-append,
  client-cases,
}

-- A time in the window of length `window` that ends at `t`, its start left out.
abbrev pub is_within : ℕ → ℕ → ℕ → Bool
is_within window t x = leb x t && ltb t (x + window)

abbrev pub accepted_within : ℕ → ℕ → String → List Event → ℕ
accepted_within window t c log = length (select_where (is_within window t) (times_of c log))

IsBounded : ℕ → ℕ → List Event → Type 0
IsBounded limit window log = (c : String) (t : ℕ) → accepted_within window t c log ≤ limit

length-select_where_mono :
    {A : Type 0} (p q : A → Bool) (xs : List A)
    → ((x : A) → p x ≡ true → q x ≡ true)
    → length (select_where p xs) ≤ length (select_where q xs)
unfolding select_where
length-select_where_mono p q [] h = omega arith
length-select_where_mono p q (x ∷ xs) h = ground (arith, h x, length-select_where_mono p q xs h)

-- One more time, at the end of the log.
bound-append :
    (limit window now t : ℕ) (ts : List ℕ)
    → length (select_where (is_within window t) ts) ≤ limit
    → length (select_where (is_live window now) ts) < limit
    → length (select_where (is_within window t) (ts ++ (now ∷ []))) ≤ limit
unfolding select_where
bound-append limit window now t ts b r = elim (Bool-cases (is_within window t now)) [
  | inl e ↦
      let fewer =
        length-select_where_mono (is_within window t) (is_live window now) ts
          (λ x h. ground (arith, e, h)) in
      rw (select_where-append (is_within window t) ts (now ∷ [])) ground
        (arith, e, fewer, r, length-append (select_where (is_within window t) ts) (now ∷ []))
  | inr e ↦ ground (
    arith,
    e,
    b,
    select_where-append (is_within window t) ts (now ∷ []),
    length-append (select_where (is_within window t) ts) [],
  )
]

room-lt :
    (limit window : ℕ) (c : String) (now : ℕ) (log : List Event)
    → has_room limit window (c, now) log ≡ true
    → length (select_where (is_live window now) (times_of c log)) < limit
unfolding has_room
room-lt limit window c now log e = ground (arith, e)

spec_step-IsBounded :
    (limit window : ℕ) (e : Event) (log : List Event)
    → IsBounded limit window log
    → IsBounded limit window (if has_room limit window e log then log ++ (e ∷ []) else log)
unfolding IsBounded
spec_step-IsBounded limit window (c', now) log b c t =
    elim (Bool-cases (has_room limit window (c', now) log)) [
      | inl e ↦ elim (client-cases c' c) [
        | inl (f, same) ↦
            rw (e, times_of-append c c' now log, f)
              (bound-append limit window now t (times_of c log) (b c t)
                (room-lt limit window c now log (rw (← same) e)))
        | inr f ↦ rw (e, times_of-append c c' now log, f) (b c t)
      ]
      | inr e ↦ rw e (b c t)
    ]

spec_run-IsBounded :
    (limit window : ℕ) (events : List Event) (log : List Event)
    → IsBounded limit window log
    → IsBounded limit window (spec_run limit window events log)
unfolding spec_run
spec_run-IsBounded limit window [] log b = b
spec_run-IsBounded limit window (e ∷ events) log b =
    spec_run-IsBounded limit window events
      (if has_room limit window e log then log ++ (e ∷ []) else log)
      (spec_step-IsBounded limit window e log b)

-- From empty queues, with a positive limit and a clock that does not go back, the limiter accepts
-- at most `limit` requests of a client in every window: for each time t there are at most `limit`
-- accepted requests of the client at times x with x ≤ t < x + window.
pub accepted_bounded :
    (ticks limit window : ℕ) (events : List Event) (c : String) (t : ℕ)
    → 0 < limit
    → Chronological 0 events
    → accepted_within window t c (run ticks limit window events no_requests []).1 ≤ limit
unfolding IsBounded times_of select_where
accepted_bounded ticks limit window events c t pos o =
    rw (run_refines ticks limit window events pos o)
      (spec_run-IsBounded limit window events [] (λ c' t'. omega arith) c t)
