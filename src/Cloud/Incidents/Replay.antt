-- ===== src/Cloud/Incidents/Replay.antt =====
-- The audit trail as an abstract state: replaying its events gives the incidents.
use mathlib.Core.Path.{subst}
use software_engineering_car.Common.{
  ℕ, String, ◌≡◌, refl, ap, Bool, false, not, some, List, [], ◌∷◌, ◌++◌, map, ◌==◌, arith,
  Bool-cases, inl, inr, ==→eq,
}
use software_engineering_car.Common.Table.{row_at, has_key, update_where, select_where, UniqueKeys}
use software_engineering_car.Cloud.Model.{Incident, AuditAction, AuditEvent, Value, Change, Db}
use software_engineering_car.Cloud.Incidents.{fields_of}
use software_engineering_car.Cloud.Incidents.Fields.{set_fields, created_fields}

-- An incident's id and fields.
abbrev pub Snapshot : Type 0
Snapshot = ℕ × List (String × Value)

abbrev pub snapshot : Incident → Snapshot
snapshot i = (i.id, fields_of i)

abbrev pub has_id : ℕ → Snapshot → Bool
has_id k s = s.0 == k

abbrev pub replay_action : AuditAction → ℕ → List Change → List Snapshot → List Snapshot
replay_action AuditAction.incident_created k changes table =
    table ++ ((k, created_fields changes) ∷ [])
replay_action AuditAction.incident_updated k changes table =
    update_where (has_id k) (λ s. (s.0, set_fields changes s.1)) table
replay_action AuditAction.incident_deleted k changes table =
    select_where (λ s. not (has_id k s)) table
replay_action AuditAction.user_role_changed k changes table = table
replay_action AuditAction.user_status_changed k changes table = table

unfoldable pub replay : List AuditEvent → List Snapshot → List Snapshot
replay [] table = table
replay (e ∷ events) table = replay events (replay_action e.action e.resource_id e.changes table)

pub replay-append :
    (events : List AuditEvent) (e : AuditEvent) (table : List Snapshot)
    → replay (events ++ (e ∷ [])) table
      ≡ replay_action e.action e.resource_id e.changes (replay events table)
unfolding replay
replay-append [] e table = refl
replay-append (x ∷ events) e table =
    replay-append events e (replay_action x.action x.resource_id x.changes table)

pub map-append :
    {A B : Type 0} (f : A → B) (xs ys : List A) → map f (xs ++ ys) ≡ map f xs ++ map f ys
map-append f [] ys = refl
map-append f (x ∷ xs) ys = ap (λ l. f x ∷ l) (map-append f xs ys)

pub removed :
    (k : ℕ) (rows : List Incident)
    → map snapshot (select_where (λ r. not (r.id == k)) rows)
      ≡ select_where (λ s. not (has_id k s)) (map snapshot rows)
unfolding select_where
removed k [] = refl
removed k (r ∷ rows) = ground (arith, removed k rows)

absent :
    (k : ℕ) (rows : List Incident) (f : Incident → Incident) (g : Snapshot → Snapshot)
    → has_key Incident.id k rows ≡ false
    → map snapshot (update_where (λ r. r.id == k) f rows)
      ≡ update_where (has_id k) g (map snapshot rows)
unfolding update_where has_key
absent k [] f g h = refl
absent k (r ∷ rows) f g h = ground (arith, h, absent k rows f g)

pub rewritten :
    (k : ℕ) (rows : List Incident) (i : Incident) (f : Incident → Incident)
    (g : Snapshot → Snapshot)
    → UniqueKeys Incident.id rows
    → row_at Incident.id k rows ≡ some i
    → snapshot (f i) ≡ g (snapshot i)
    → map snapshot (update_where (λ r. r.id == k) f rows)
      ≡ update_where (has_id k) g (map snapshot rows)
unfolding update_where row_at
rewritten k [] i f g u h e = refl
rewritten k (r ∷ rows) i f g u h e = elim (Bool-cases (r.id == k)) [
  | inl t ↦
      let p : r ≡ i = ground (arith, h, t) in
      let q = ==→eq r.id k t in
      let head : snapshot (f r) ≡ g (snapshot r) = rw p e in
      let rest = absent k rows f g (subst (λ n. has_key Incident.id n rows ≡ false) q u.0) in
      rw (t, rest, head) refl
  | inr t ↦ rw (t, rewritten k rows i f g u.1 (ground (arith, h, t)) e) refl
]

-- The audit trail tells the incidents, whose ids are unique.
pub record Tells (db : Db) : Type 0 where
  pub replays : map snapshot db.incidents ≡ replay db.events []
  pub unique : UniqueKeys Incident.id db.incidents
