-- ===== src/Observability/Registry/Resolve.antt =====
-- The cached look-up against one look-up for each item.
use mathlib.Core.Path.{subst}
use software_engineering_car.Common.{
  ℕ, ◌≡◌, refl, sym, ◌∙◌, true, Option, none, some, List, [], ◌∷◌, arith, inl, inr, Bool-cases,
  Option-cases, eq_iff, str_eq, All, &&-true, map, ap,
}
use software_engineering_car.Observability.Model.{
  Identity, same_identity, same_environment, ServiceEnvironment, MonitoredService,
}
use software_engineering_car.Observability.Store.{Result, ok, err, Result-cases}
use software_engineering_car.Observability.Registry.{
  get_by_identity, cached, resolve_services, with_item,
}

same_environment→eq : (a b : ServiceEnvironment) → same_environment a b ≡ true → a ≡ b
same_environment→eq a b h = ground (arith, h)

pub same_identity→eq : (i j : Identity) → same_identity i j ≡ true → i ≡ j
same_identity→eq (n, e) (m, f) h =
    let (hn, he) = &&-true (str_eq n m) (same_environment e f) h in
    let pn : n ≡ m = (eq_iff n m).0 hn in
    let pe : e ≡ f = same_environment→eq e f he in λ k. (pn k, pe k)

module _ {A : Type 0} (identity_of : A → Identity) (services : List MonitoredService) where
  -- The reference: every item is looked up in the registry.
  abbrev pub looked_up :
      A → Option MonitoredService → Result Identity (List (A × ℕ)) → Result Identity (List (A × ℕ))
  looked_up a none rest = err (identity_of a)
  looked_up a (some s) rest = with_item identity_of services a s.id rest

  unfoldable pub look_up_each : List A → Result Identity (List (A × ℕ))
  look_up_each [] = ok []
  look_up_each (a ∷ items) =
      looked_up a (get_by_identity (identity_of a) services) (look_up_each items)

  -- What a cache says is what the registry says.
  abbrev IsCache : List (Identity × ℕ) → Type 0
  IsCache =
      All (λ e. (s : MonitoredService) × (get_by_identity e.0 services ≡ some s) × (s.id ≡ e.1))

  cached-IsCache :
      (i : Identity) (cache : List (Identity × ℕ)) (service_id : ℕ)
      → IsCache cache
      → cached i cache ≡ some service_id
      → (s : MonitoredService) × (get_by_identity i services ≡ some s) × (s.id ≡ service_id)
  cached-IsCache i [] service_id c h = absurd (ground (arith, h))
  cached-IsCache i ((j, k) ∷ cache) service_id c h = elim (Bool-cases (same_identity j i)) [
    | inl e ↦
        let (s, known, is) = c.0 in
        let same = same_identity→eq j i e in
        (s, subst (λ x. get_by_identity x services ≡ some s) same known, is ∙ ground (arith, h, e))
    | inr e ↦ cached-IsCache i cache service_id c.1 (ground (arith, h, e))
  ]

  resolve_services-look_up :
      (items : List A) (cache : List (Identity × ℕ))
      → IsCache cache
      → resolve_services identity_of services items cache ≡ look_up_each items
  unfolding resolve_services look_up_each
  resolve_services-look_up [] cache c = refl
  resolve_services-look_up (a ∷ items) cache c =
      elim (Option-cases (cached (identity_of a) cache)) [
        | inl e ↦ elim (Option-cases (get_by_identity (identity_of a) services)) [
          | inl f ↦ ground (arith, e, f)
          | inr (s, f) ↦ ground (
            arith,
            e,
            f,
            resolve_services-look_up items ((identity_of a, s.id) ∷ cache) ((s, f, refl), c),
          )
        ]
        | inr (k, e) ↦
            let (s, f, is) = cached-IsCache (identity_of a) cache k c e in
            ground (arith, e, f, is, resolve_services-look_up items cache c)
      ]

  -- Resolution with an empty cache gives what one look-up for each item gives, the first unknown
  -- identity included.
  pub resolve_services_uncached :
      (items : List A) → resolve_services identity_of services items [] ≡ look_up_each items
  resolve_services_uncached items = resolve_services-look_up items [] _

  -- Looking up keeps the items.
  pub look_up_each_items :
      (items : List A) (resolved : List (A × ℕ))
      → look_up_each items ≡ ok resolved
      → map (λ r. r.0) resolved ≡ items
  unfolding look_up_each
  look_up_each_items [] resolved h =
      let e : [] ≡ resolved = ground (arith, h) in ap (map (λ (r : A × ℕ). r.0)) (sym e)
  look_up_each_items (i ∷ items) resolved h =
      elim (Option-cases (get_by_identity (identity_of i) services)) [
        | inl e ↦ absurd (ground (arith, h, e))
        | inr (s, e) ↦ elim (Result-cases (look_up_each items)) [
          | inl (rest, f) ↦
              let p : (i, s.id) ∷ rest ≡ resolved = ground (arith, h, e, f) in
              ap (map (λ (r : A × ℕ). r.0)) (sym p)
              ∙ ap (λ l. i ∷ l) (look_up_each_items items rest f)
          | inr (j, f) ↦ absurd (ground (arith, h, e, f))
        ]
      ]
