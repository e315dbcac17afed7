-- ===== src/Observability/RateLimit/Refine.antt =====
-- The queues of the limiter against an abstract specification: a log of every request that was ever
-- accepted. The specification accepts a request where the log has fewer than `limit` of its client's
-- requests inside the window.
use software_engineering_car.Common.{
  ℕ, ◌≤◌, ◌<◌, ◌≡◌, refl, sym, ap, ◌∙◌, ◌⊎◌, String, Bool, true, false, List, [], ◌∷◌, ◌++◌, ltb,
  str_eq, length, arith, if◌then◌else◌, Bool-cases, inl, inr, eq_iff,
}
use software_engineering_car.Common.Table.{select_where}
use software_engineering_car.Common.Append.{select_where-append}
use software_engineering_car.Observability.RateLimit.{
  Times, no_requests, with_times, is_accepted, admit, admit_one, judge, evict,
}
use software_engineering_car.Observability.RateLimit.Window.{
  is_live, Between, Between-weaken, Between-append, evict-Between, evict-select,
}

-- A request that reaches the lock: its client and the time that the clock showed.
abbrev pub Event : Type 0
Event = String × ℕ

-- The times of the requests of one client, in the log's order.
unfoldable pub times_of : String → List Event → List ℕ
times_of c [] = []
times_of c ((c', t) ∷ log) = let rest = times_of c log in if str_eq c' c then t ∷ rest else rest

-- The specification.
unfoldable pub has_room : ℕ → ℕ → Event → List Event → Bool
has_room limit window (c, now) log =
    ltb (length (select_where (is_live window now) (times_of c log))) limit

unfoldable pub spec_run : ℕ → ℕ → List Event → List Event → List Event
spec_run limit window [] log = log
spec_run limit window (e ∷ events) log =
    spec_run limit window events (if has_room limit window e log then log ++ (e ∷ []) else log)

-- The code: the log of accepted requests beside the queues.
unfoldable pub run : ℕ → ℕ → ℕ → List Event → Times → List Event → Times × List Event
run ticks limit window [] times log = (times, log)
run ticks limit window (e ∷ events) times log =
    let (verdict, times') = admit ticks limit window e.0 e.1 times in
    run ticks limit window events times' (if is_accepted verdict then log ++ (e ∷ []) else log)

-- The clock is monotonic.
abbrev pub Chronological : ℕ → List Event → Type 0
Chronological low [] = Unit
Chronological low (e ∷ events) = (low ≤ e.1) × Chronological e.1 events

-- The queues are what the log has inside each later window.
pub record Refines (window last : ℕ) (times : Times) (log : List Event) : Type 0 where
  pub ordered : (c : String) → Between 0 last (times c)
  pub live_times :
      (c : String) (now : ℕ)
      → last ≤ now
      → select_where (is_live window now) (times c)
        ≡ select_where (is_live window now) (times_of c log)

select_where-idle :
    {A : Type 0} (p q : A → Bool) (xs : List A)
    → ((x : A) → q x ≡ true → p x ≡ true)
    → select_where q (select_where p xs) ≡ select_where q xs
unfolding select_where
select_where-idle p q [] h = refl
select_where-idle p q (x ∷ xs) h = ground (arith, h x, select_where-idle p q xs h)

pub times_of-append :
    (c c' : String) (t : ℕ) (log : List Event)
    → times_of c (log ++ ((c', t) ∷ []))
      ≡ (if str_eq c' c then times_of c log ++ (t ∷ []) else times_of c log)
unfolding times_of
times_of-append c c' t [] = refl
times_of-append c c' t ((d, u) ∷ log) = ground (arith, times_of-append c c' t log)

select-evict :
    (window now later low high : ℕ) (q : List ℕ)
    → Between low high q
    → now ≤ later
    → select_where (is_live window later) (evict window now q)
      ≡ select_where (is_live window later) q
select-evict window now later low high q s h =
    rw (evict-select window now low high q s) (
      select_where-idle (is_live window now) (is_live window later) q (λ x l. ground (arith, h, l)))

-- What the verdict does to the client's queue.
pub admit_one-cases :
    (ticks limit window now : ℕ) (q : List ℕ)
    → 0 < limit
    → let r = admit_one ticks limit window now q in
      (is_accepted r.0 ≡ ltb (length (evict window now q)) limit)
      × (r.1 ≡ (
          if ltb (length (evict window now q)) limit
          then evict window now q ++ (now ∷ [])
          else evict window now q))
unfolding admit_one
admit_one-cases ticks limit window now q h = front (evict window now q)
  where
    front :
        (live : List ℕ)
        → (is_accepted (judge ticks limit window now live).0 ≡ ltb (length live) limit)
          × ((judge ticks limit window now live).1
              ≡ (if ltb (length live) limit then live ++ (now ∷ []) else live))
    front [] = (ground (arith, h), ground (arith, h))
    front (t ∷ ts) = (ground (arith, h), ground (arith, h))

module _ (window last now : ℕ) (q : List ℕ) (ordered : Between 0 last q) (later : last ≤ now) where
  -- The queue after the verdict `b`, and the same for the log.
  abbrev after : Bool → List ℕ → List ℕ
  after b ts = if b then ts ++ (now ∷ []) else ts

  after-Between : (b : Bool) → Between 0 now (after b (evict window now q))
  after-Between true =
      Between-append 0 last now (evict window now q) later
        (evict-Between window now 0 last q ordered)
  after-Between false =
      Between-weaken 0 0 last now (evict window now q) (omega arith) later
        (evict-Between window now 0 last q ordered)

  after-live :
      (b : Bool) (ts : List ℕ) (t : ℕ)
      → now ≤ t
      → select_where (is_live window t) q ≡ select_where (is_live window t) ts
      → select_where (is_live window t) (after b (evict window now q))
        ≡ select_where (is_live window t) (after b ts)
  after-live true ts t h e =
      rw
        (
          select_where-append (is_live window t) (evict window now q) (now ∷ []),
          select_where-append (is_live window t) ts (now ∷ []),
          select-evict window now t 0 last q ordered h,
          e,
        )
        refl
  after-live false ts t h e = rw (select-evict window now t 0 last q ordered h) e

room :
    (window last now limit : ℕ) (c : String) (times : Times) (log : List Event)
    → Refines window last times log
    → last ≤ now
    → ltb (length (evict window now (times c))) limit ≡ has_room limit window (c, now) log
unfolding has_room
room window last now limit c times log r h =
    rw (evict-select window now 0 last (times c) (r.ordered c), r.live_times c now h) refl

pub client-cases : (c c' : String) → ((str_eq c c' ≡ true) × (c ≡ c')) ⊎ (str_eq c c' ≡ false)
client-cases c c' = elim (Bool-cases (str_eq c c')) [
  | inl e ↦ inl (e, ground (arith, eq_iff c c', e))
  | inr e ↦ inr e
]

-- One admission follows the specification and keeps the refinement.
pub admit-Refines :
    (ticks limit window last : ℕ) (e : Event) (times : Times) (log : List Event)
    → 0 < limit
    → last ≤ e.1
    → Refines window last times log
    → let r = admit ticks limit window e.0 e.1 times in
      (is_accepted r.0 ≡ has_room limit window e log)
      × Refines window e.1 r.1 (if has_room limit window e log then log ++ (e ∷ []) else log)
unfolding admit
admit-Refines ticks limit window last (c, now) times log pos h r =
    let one = admit_one-cases ticks limit window now (times c) pos in
    let same = room window last now limit c times log r h in
    (one.0 ∙ same, record { ordered = ordered'; live_times = live' })
  where
    b : Bool
    b = has_room limit window (c, now) log

    q' : List ℕ
    q' = (admit_one ticks limit window now (times c)).1

    log' : List Event
    log' = if b then log ++ ((c, now) ∷ []) else log

    q'-after : q' ≡ after window last now (times c) (r.ordered c) h b (evict window now (times c))
    q'-after =
        rw
          (
            (admit_one-cases ticks limit window now (times c) pos).1,
            room window last now limit c times log r h,
          )
          refl

    ordered' : (c' : String) → Between 0 now (with_times c q' times c')
    ordered' c' = elim (client-cases c c') [
      | inl (e, same) ↦ rw (e, q'-after) (after-Between window last now (times c) (r.ordered c) h b)
      | inr e ↦ rw e (Between-weaken 0 0 last now (times c') (omega arith) h (r.ordered c'))
    ]

    logged :
        (c' : String)
        → times_of c' log' ≡ (
            if str_eq c c'
            then after window last now (times c) (r.ordered c) h b (times_of c' log)
            else times_of c' log)
    logged c' = elim (Bool-cases b) [
      | inl e ↦ rw e (times_of-append c' c now log)
      | inr e ↦ ground (arith, e)
    ]

    live' :
        (c' : String) (t : ℕ)
        → now ≤ t
        → select_where (is_live window t) (with_times c q' times c')
          ≡ select_where (is_live window t) (times_of c' log')
    live' c' t l = elim (client-cases c c') [
      | inl (e, same) ↦
          rw (logged c', e, q'-after, sym same)
            (after-live window last now (times c) (r.ordered c) h b (times_of c log) t l
              (r.live_times c t (omega arith)))
      | inr e ↦ rw (logged c', e) (r.live_times c' t (omega arith))
    ]

run-Refines :
    (ticks limit window last : ℕ) (events : List Event) (times : Times) (log : List Event)
    → 0 < limit
    → Chronological last events
    → Refines window last times log
    → (run ticks limit window events times log).1 ≡ spec_run limit window events log
unfolding run spec_run
run-Refines ticks limit window last [] times log pos o r = refl
run-Refines ticks limit window last (e ∷ events) times log pos o r =
    let step = admit-Refines ticks limit window last e times log pos o.0 r in
    let times' = (admit ticks limit window e.0 e.1 times).1 in
    ap (λ (b : Bool). (run ticks limit window events times' (if b then log ++ (e ∷ []) else log)).1)
      step.0
    ∙ run-Refines ticks limit window e.1 events times'
        (if has_room limit window e log then log ++ (e ∷ []) else log) pos o.1 step.1

pub no_requests-Refines : (window : ℕ) → Refines window 0 no_requests []
unfolding times_of select_where
no_requests-Refines window = record { ordered = λ c. omega arith; live_times = λ c now h. refl }

-- From empty queues, with a positive limit and a clock that does not go back, the limiter accepts
-- exactly the requests that the specification accepts: those at which the log of all accepted
-- requests has fewer than `limit` requests of the client inside the window.
pub run_refines :
    (ticks limit window : ℕ) (events : List Event)
    → 0 < limit
    → Chronological 0 events
    → (run ticks limit window events no_requests []).1 ≡ spec_run limit window events []
run_refines ticks limit window events pos o =
    run-Refines ticks limit window 0 events no_requests [] pos o (no_requests-Refines window)
