-- ===== src/Observability/RootCause/Ranking.antt =====
-- What `analyze` returns.
use mathlib.Core.Path.{subst}
use mathlib.Core.List.{Memᴰ}
use software_engineering_car.Common.{
  ℕ, ◌≤◌, min, ◌≡◌, refl, ◌⊎◌, inl, inr, true, false, some, List, [], ◌∷◌, map, ltb, ltb→lt,
  Bool-cases, arith, All,
}
use software_engineering_car.Observability.RootCause.{
  CorrelationSignal, RootCauseCandidate, score_signal, score_in, is_better, min_from, earliest_from,
  analyze,
}

-- No candidate is strictly better.
abbrev pub IsBest : RootCauseCandidate → List RootCauseCandidate → Type 0
IsBest best = All (λ c. is_better c best ≡ false)

is_better_trans :
    (a b c : RootCauseCandidate)
    → is_better a b ≡ false
    → is_better b c ≡ false
    → is_better a c ≡ false
unfolding is_better
is_better_trans a b c h k = ground (arith, h, k)

is_better-asym : (a b : RootCauseCandidate) → is_better a b ≡ true → is_better b a ≡ false
unfolding is_better
is_better-asym a b h = ground (arith, h)

is_better_refl : (a : RootCauseCandidate) → is_better a a ≡ false
unfolding is_better
is_better_refl a = ground arith

All-weaken :
    (a b : RootCauseCandidate) (cs : List RootCauseCandidate)
    → is_better b a ≡ false
    → IsBest b cs
    → IsBest a cs
All-weaken a b [] h k = _
All-weaken a b (c ∷ cs) h k = (is_better_trans c b a k.0 h, All-weaken a b cs h k.1)

min_from-IsBest :
    (b : RootCauseCandidate) (cs : List RootCauseCandidate) → IsBest (min_from b cs) (b ∷ cs)
unfolding min_from
min_from-IsBest b [] = (is_better_refl b, _)
min_from-IsBest b (c ∷ cs) = elim (Bool-cases (is_better c b)) [
  | inl e ↦
      let k = min_from-IsBest c cs in
      let m : min_from c cs ≡ min_from b (c ∷ cs) = rw e refl in
      subst (λ m. IsBest m (b ∷ c ∷ cs)) m
        (is_better_trans b c (min_from c cs) (is_better-asym c b e) k.0, (k.0, k.1))
  | inr e ↦
      let k = min_from-IsBest b cs in
      let m : min_from b cs ≡ min_from b (c ∷ cs) = rw e refl in
      subst (λ m. IsBest m (b ∷ c ∷ cs)) m (k.0, (is_better_trans c b (min_from b cs) e k.0, k.1))
]

min_from-mem :
    (b : RootCauseCandidate) (cs : List RootCauseCandidate) → Memᴰ (min_from b cs) (b ∷ cs)
unfolding min_from
min_from-mem b [] = Memᴰ.head refl
min_from-mem b (c ∷ cs) = elim (Bool-cases (is_better c b)) [
  | inl e ↦ rw e (Memᴰ.tail (min_from-mem c cs))
  | inr e ↦ rw e (second (min_from-mem b cs))
]
  where
    second : {x : RootCauseCandidate} → Memᴰ x (b ∷ cs) → Memᴰ x (b ∷ c ∷ cs)
    second (Memᴰ.head e) = Memᴰ.head e
    second (Memᴰ.tail m) = Memᴰ.tail (Memᴰ.tail m)

-- Where a member of a list of scores comes from.
mem-map :
    (f : CorrelationSignal → RootCauseCandidate) (c : RootCauseCandidate)
    (ss : List CorrelationSignal)
    → Memᴰ c (map f ss)
    → (s : CorrelationSignal) × Memᴰ s ss × (c ≡ f s)
mem-map f c [] m = elim m [ ]
mem-map f c (s ∷ ss) (Memᴰ.head e) = (s, Memᴰ.head refl, e)
mem-map f c (s ∷ ss) (Memᴰ.tail m) = let (s', m', e) = mem-map f c ss m in (s', Memᴰ.tail m', e)

earliest_from-mem :
    (t : ℕ) (ss : List CorrelationSignal)
    → (t ≡ earliest_from t ss)
      ⊎ ((s : CorrelationSignal) × Memᴰ s ss × (s.observed_at ≡ earliest_from t ss))
unfolding earliest_from
earliest_from-mem t [] = inl refl
earliest_from-mem t (s ∷ ss) = elim (earliest_from-mem (min t s.observed_at) ss) [
  | inl e ↦ elim (Bool-cases (ltb s.observed_at t)) [
    | inl h ↦ inr (s, Memᴰ.head refl, omega (arith, e, ltb→lt s.observed_at t h))
    | inr h ↦ inl (ground (arith, e, h))
  ]
  | inr (s', m, e) ↦ inr (s', Memᴰ.tail m, e)
]

-- The time of the earliest signal.
abbrev pub IsEarliest : ℕ → List CorrelationSignal → Type 0
IsEarliest t = All (λ s. t ≤ s.observed_at)

earliest_from-IsEarliest :
    (t : ℕ) (ss : List CorrelationSignal)
    → (earliest_from t ss ≤ t) × IsEarliest (earliest_from t ss) ss
unfolding earliest_from
earliest_from-IsEarliest t [] = (omega arith, _)
earliest_from-IsEarliest t (s ∷ ss) =
    let k = earliest_from-IsEarliest (min t s.observed_at) ss in
    (omega (arith, k.0), (omega (arith, k.0), k.1))

score_bounds :
    (ss : List CorrelationSignal) (t : ℕ) (s : CorrelationSignal)
    → (35 ≤ (score_in ss t s).confidence_score) × ((score_in ss t s).confidence_score ≤ 100)
unfolding score_in score_signal
score_bounds ss t s = ground arith

earliest_score :
    (ss : List CorrelationSignal) (s : CorrelationSignal)
    → 60 ≤ (score_in ss s.observed_at s).confidence_score
unfolding score_in score_signal
earliest_score ss s = ground arith

-- The candidates of a list, scored against the time of its earliest signal.
abbrev pub HasEarliest : ℕ → List CorrelationSignal → Type 0
HasEarliest t ss = IsEarliest t ss × ((e : CorrelationSignal) × Memᴰ e ss × (e.observed_at ≡ t))

earliest_from-HasEarliest :
    (s : CorrelationSignal) (ss : List CorrelationSignal)
    → HasEarliest (earliest_from s.observed_at ss) (s ∷ ss)
earliest_from-HasEarliest s ss =
    let k = earliest_from-IsEarliest s.observed_at ss in
    (
      (k.0, k.1),
      elim (earliest_from-mem s.observed_at ss) [
        | inl e ↦ (s, Memᴰ.head refl, e)
        | inr (s', m, e) ↦ (s', Memᴰ.tail m, e)
      ],
    )

IsBest-map :
    (best : RootCauseCandidate) (f : CorrelationSignal → RootCauseCandidate)
    (ss : List CorrelationSignal)
    → IsBest best (map f ss)
    → All (λ s. is_better (f s) best ≡ false) ss
IsBest-map best f [] k = _
IsBest-map best f (s ∷ ss) k = (k.0, IsBest-map best f ss k.1)

best-mem :
    (best : RootCauseCandidate) (f : CorrelationSignal → RootCauseCandidate)
    (ss : List CorrelationSignal) (e : CorrelationSignal)
    → All (λ s. is_better (f s) best ≡ false) ss
    → Memᴰ e ss
    → is_better (f e) best ≡ false
best-mem best f [] e k m = elim m [ ]
best-mem best f (s ∷ ss) e k (Memᴰ.head h) = rw h k.0
best-mem best f (s ∷ ss) e k (Memᴰ.tail m) = best-mem best f ss e k.1 m

pub analyze_best :
    (ss : List CorrelationSignal) (best : RootCauseCandidate)
    → analyze ss ≡ some best
    → (t : ℕ) × HasEarliest t ss
      × ((s : CorrelationSignal) × Memᴰ s ss × (best ≡ score_in ss t s))
      × All (λ s. is_better (score_in ss t s) best ≡ false) ss
unfolding analyze
analyze_best [] best h = absurd (ground (arith, h))
analyze_best (s ∷ ss) best h =
    let t = earliest_from s.observed_at ss in
    let score = score_in (s ∷ ss) t in
    let e : min_from (score s) (map score ss) ≡ best = ground (arith, h) in
    (
      t,
      earliest_from-HasEarliest s ss,
      subst (λ b. (s' : CorrelationSignal) × Memᴰ s' (s ∷ ss) × (b ≡ score s')) e
          (mem-map score (min_from (score s) (map score ss)) (s ∷ ss)
            (min_from-mem (score s) (map score ss))),
      subst (λ b. All (λ s'. is_better (score s') b ≡ false) (s ∷ ss)) e
          (IsBest-map (min_from (score s) (map score ss)) score (s ∷ ss)
            (min_from-IsBest (score s) (map score ss))),
    )

not_better-score :
    (a b : RootCauseCandidate) → is_better a b ≡ false → a.confidence_score ≤ b.confidence_score
unfolding is_better
not_better-score a b h = ground (arith, h)

-- The root cause that the analysis returns has a confidence between 0.60 and 1.00.
pub analyze_confidence :
    (ss : List CorrelationSignal) (best : RootCauseCandidate)
    → analyze ss ≡ some best
    → (60 ≤ best.confidence_score) × (best.confidence_score ≤ 100)
analyze_confidence ss best h =
    let (t, (lower, (e, m, at)), (s, m', is), k) = analyze_best ss best h in
    let low : 60 ≤ (score_in ss t e).confidence_score = rw (← at) (earliest_score ss e) in
    (
      omega (
        arith,
        low,
        not_better-score (score_in ss t e) best (best-mem best (score_in ss t) ss e k m),
      ),
      rw is ((score_bounds ss t s).1),
    )
