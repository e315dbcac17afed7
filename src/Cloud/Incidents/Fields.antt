-- ===== src/Cloud/Incidents/Fields.antt =====
-- A change set, applied to the fields before, gives the fields after.
use software_engineering_car.Common.{
  ℕ, String, ◌≡◌, refl, sym, ◌∙◌, ap, Bool, true, false, ◌||◌, Option, none, some, List, [], ◌∷◌,
  str_eq, if◌then◌else◌, arith, Bool-cases, inl, inr, eq_iff, All,
}
use software_engineering_car.Cloud.Model.{
  Value, text, Change, Incident, severity_value, status_value, IncidentSeverity, IncidentStatus,
}
use software_engineering_car.Cloud.Audit.{get_value, build_change_set}
use software_engineering_car.Cloud.Incidents.{
  IncidentUpdate, fields_of, no_values, field_set, requested_values, previous_values, assign,
  updated,
}

abbrev pub set_value : String → Value → List (String × Value) → List (String × Value)
set_value f v [] = []
set_value f v ((g, w) ∷ fields) = (g, if str_eq g f then v else w) ∷ set_value f v fields

unfoldable pub set_fields : List Change → List (String × Value) → List (String × Value)
set_fields [] fields = fields
set_fields (c ∷ changes) fields = set_fields changes (set_value c.field c.after fields)

-- The fields of a row that was created.
abbrev pub created_fields : List Change → List (String × Value)
created_fields [] = []
created_fields (c ∷ changes) = (c.field, c.after) ∷ created_fields changes

pub created :
    (i : Incident)
    → created_fields (build_change_set (no_values (fields_of i)) (fields_of i)) ≡ fields_of i
unfolding build_change_set
created i = refl

abbrev set_option :
    {A : Type 0} → String → (A → String) → Option A → List (String × Value) → List (String × Value)
set_option f value none fields = fields
set_option f value (some a) fields = set_value f (text (value a)) fields

-- One requested field: where its value is the old one, nothing is recorded and nothing changes.
advance :
    {A : Type 0} (old fields rest : List (String × Value)) (f : String) (value : A → String)
    (o : Option A) (s : String)
    → get_value f old ≡ text s
    → set_value f (text s) fields ≡ fields
    → set_fields (build_change_set old (field_set f value o rest)) fields
      ≡ set_fields (build_change_set old rest) (set_option f value o fields)
advance old fields rest f value none s g k = refl
advance old fields rest f value (some a) s g k = elim (Bool-cases (str_eq s (value a))) [
  | inl e ↦
      let p : s ≡ value a = (eq_iff s (value a)).0 e in
      let same : build_change_set old ((f, text (value a)) ∷ rest) ≡ build_change_set old rest =
        unfold build_change_set in ground (arith, g, e) in
      rw same (
        ap (set_fields (build_change_set old rest))
          (sym k ∙ ap (λ x. set_value f (text x) fields) p))
  | inr e ↦
      let same : build_change_set old ((f, text (value a)) ∷ rest)
          ≡ record { field = f; before = get_value f old; after = text (value a) }
            ∷ build_change_set old rest =
        unfold build_change_set in ground (arith, g, e) in
      rw same (unfold set_fields in refl)
]

-- What was read of the row for the requested fields.
abbrev contains : String → List (String × Value) → Bool
contains f [] = false
contains f ((g, v) ∷ values) = str_eq g f || contains f values

previous-get :
    (i : Incident) (f : String) (requested : List (String × Value))
    → contains f requested ≡ true
    → get_value f (previous_values i requested) ≡ get_value f (fields_of i)
previous-get i f [] h = absurd (ground (arith, h))
previous-get i f ((g, v) ∷ requested) h = elim (Bool-cases (str_eq g f)) [
  | inl e ↦ rw e (ap (λ x. get_value x (fields_of i)) ((eq_iff g f).0 e))
  | inr e ↦ rw e (previous-get i f requested (ground (arith, h, e)))
]

build-get :
    (p q requested : List (String × Value))
    → All (λ r. get_value r.0 p ≡ get_value r.0 q) requested
    → build_change_set p requested ≡ build_change_set q requested
unfolding build_change_set
build-get p q [] k = refl
build-get p q ((f, v) ∷ requested) k = rw (k.0, build-get p q requested k.1) refl

contains-later :
    (requested more : List (String × Value)) (r : String × Value)
    → All (λ x. contains x.0 requested ≡ true) more
    → All (λ x. contains x.0 (r ∷ requested) ≡ true) more
contains-later requested [] r k = _
contains-later requested (x ∷ more) r k = (ground (arith, k.0), contains-later requested more r k.1)

each_in : (requested : List (String × Value)) → All (λ x. contains x.0 requested ≡ true) requested
each_in [] = _
each_in (r ∷ requested) =
    (ground (arith, eq_iff r.0 r.0), contains-later requested requested r (each_in requested))

each_previous :
    (i : Incident) (requested more : List (String × Value))
    → All (λ x. contains x.0 requested ≡ true) more
    → All (λ r. get_value r.0 (previous_values i requested) ≡ get_value r.0 (fields_of i)) more
each_previous i requested [] k = _
each_previous i requested (r ∷ more) k =
    (previous-get i r.0 requested k.0, each_previous i requested more k.1)

pub changes_of :
    (i : Incident) (requested : List (String × Value))
    → build_change_set (previous_values i requested) requested
      ≡ build_change_set (fields_of i) requested
changes_of i requested =
    build-get (previous_values i requested) (fields_of i) requested
      (each_previous i requested requested (each_in requested))

-- An update's change set, applied to the fields of the row, gives the fields of the updated row.
pub updated_fields :
    (u : IncidentUpdate) (now : ℕ) (i : Incident)
    → set_fields
        (build_change_set (previous_values i (requested_values u)) (requested_values u))
        (fields_of i)
      ≡ fields_of (updated u now i)
unfolding set_fields build_change_set
updated_fields u now i =
    let old = fields_of i in
    let status = field_set "status" status_value u.status [] in
    let severity = field_set "severity" severity_value u.severity status in
    let service = field_set "service_name" (λ s. s) u.service_name severity in
    let description = field_set "description" (λ s. s) u.description service in
    let i1 = record i { title = assign u.title i.title } in
    let i2 = record i1 { description = assign u.description i.description } in
    let i3 = record i2 { service_name = assign u.service_name i.service_name } in
    let i4 = record i3 { severity = assign u.severity i.severity } in
    let e1 : set_option "title" (λ s. s) u.title (fields_of i) ≡ fields_of i1 = titled u.title in
    let e2 : set_option "description" (λ s. s) u.description (fields_of i1) ≡ fields_of i2 =
      described i1 u.description in
    let e3 : set_option "service_name" (λ s. s) u.service_name (fields_of i2) ≡ fields_of i3 =
      served i2 u.service_name in
    let e4 : set_option "severity" severity_value u.severity (fields_of i3) ≡ fields_of i4 =
      graded i3 u.severity in
    let e5 : set_option "status" status_value u.status (fields_of i4)
        ≡ fields_of (updated u now i) =
      set_status i4 u.status in
    ap (λ cs. set_fields cs old) (changes_of i (requested_values u))
    ∙ (advance old old description "title" (λ s. s) u.title i.title refl refl
        ∙ (ap (set_fields (build_change_set old description)) e1
            ∙ (advance old (fields_of i1) service "description" (λ s. s) u.description i.description
                  refl refl
                ∙ (ap (set_fields (build_change_set old service)) e2
                    ∙ (advance old (fields_of i2) severity "service_name" (λ s. s) u.service_name
                          i.service_name refl refl
                        ∙ (ap (set_fields (build_change_set old severity)) e3
                            ∙ (advance old (fields_of i3) status "severity" severity_value
                                  u.severity (severity_value i.severity) refl refl
                                ∙ (ap (set_fields (build_change_set old status)) e4
                                    ∙ (advance old (fields_of i4) [] "status" status_value u.status
                                          (status_value i.status) refl refl
                                        ∙ e5)))))))))
  where
    titled :
        (o : Option String)
        → set_option "title" (λ s. s) o (fields_of i)
          ≡ fields_of (record i { title = assign o i.title })
    titled none = refl
    titled (some s) = refl

    described :
        (j : Incident) (o : Option String)
        → set_option "description" (λ s. s) o (fields_of j)
          ≡ fields_of (record j { description = assign o j.description })
    described j none = refl
    described j (some s) = refl

    served :
        (j : Incident) (o : Option String)
        → set_option "service_name" (λ s. s) o (fields_of j)
          ≡ fields_of (record j { service_name = assign o j.service_name })
    served j none = refl
    served j (some s) = refl

    graded :
        (j : Incident) (o : Option IncidentSeverity)
        → set_option "severity" severity_value o (fields_of j)
          ≡ fields_of (record j { severity = assign o j.severity })
    graded j none = refl
    graded j (some s) = refl

    set_status :
        (j : Incident) (o : Option IncidentStatus)
        → set_option "status" status_value o (fields_of j)
          ≡ fields_of (record j { status = assign o j.status })
    set_status j none = refl
    set_status j (some s) = refl
