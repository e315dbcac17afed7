-- ===== src/Cloud/Incidents/Trail.antt =====
-- Every operation on incidents keeps the audit trail complete.
use mathlib.Core.Path.{subst}
use software_engineering_car.Common.{
  ℕ, ◌≡◌, refl, sym, ◌∙◌, true, false, not, some, List, [], ◌∷◌, ◌++◌, ◌==◌, arith, Bool-cases, inl,
  inr, Option-cases, ==→eq,
}
use software_engineering_car.Common.Table.{
  row_at, has_key, update_where, select_where, update_where-UniqueKeys, select_where-UniqueKeys,
  key-row_at,
}
use software_engineering_car.Common.Append.{UniqueKeys-append}
use software_engineering_car.Cloud.Model.{
  Incident, User, AuditAction, AuditResourceType, Change, Db, Commit, committed, failed,
}
use software_engineering_car.Cloud.Audit.{build_change_set, audit_event}
use software_engineering_car.Cloud.Incidents.{
  IncidentCreate, IncidentUpdate, IncidentError, err, fields_of, no_values, requested_values,
  previous_values, updated, new_incident, finish, create_incident, update_incident, update_row,
  delete_incident, deletion,
}
use software_engineering_car.Cloud.Incidents.Fields.{set_fields, created, updated_fields}
use software_engineering_car.Cloud.Incidents.Replay.{
  Snapshot, snapshot, replay-append, map-append, removed, rewritten, Tells,
}

finish-Tells :
    {A : Type 0} (c : Commit) (a : A) (db' db : Db)
    → Tells db'
    → Tells db
    → Tells (finish c a db' db).1
finish-Tells committed a db' db t s = t
finish-Tells failed a db' db t s = s

new_key :
    (k : ℕ) (i : Incident) (rows : List Incident)
    → has_key Incident.id i.id rows ≡ false
    → has_key Incident.id k (i ∷ []) ≡ true
    → has_key Incident.id k rows ≡ false
new_key k i rows h x = elim (Bool-cases (i.id == k)) [
  | inl e ↦ subst (λ n. has_key Incident.id n rows ≡ false) (==→eq i.id k e) h
  | inr e ↦ absurd (unfold has_key in ground (arith, x, e))
]

create_incident-Tells :
    (uuid event now : ℕ) (c : Commit) (d : IncidentCreate) (actor : User) (db : Db)
    → Tells db
    → Tells (create_incident uuid event now c d actor db).1
unfolding create_incident
create_incident-Tells uuid event now c d actor db t =
    let i = new_incident uuid now d in
    let changes = build_change_set (no_values (fields_of i)) (fields_of i) in
    let e =
      audit_event event actor AuditAction.incident_created AuditResourceType.incident uuid i.title
        changes in
    elim (Bool-cases (has_key Incident.id uuid db.incidents)) [
      | inl h ↦ rw h t
      | inr h ↦ rw h (
          finish-Tells c i
            (record db { incidents = db.incidents ++ (i ∷ []); events = db.events ++ (e ∷ []) }) db
            (record {
              replays =
                  map-append snapshot db.incidents (i ∷ [])
                  ∙ rw (replay-append db.events e [], t.replays, created i) refl;
              unique =
                  UniqueKeys-append Incident.id db.incidents (i ∷ []) t.unique
                    (unfold has_key in (refl, tt)) (λ k x. new_key k i db.incidents h x);
            })
            t)
    ]

update_row-Tells :
    (event now : ℕ) (c : Commit) (u : IncidentUpdate) (actor : User) (db : Db) (i : Incident)
    (changes : List Change)
    → row_at Incident.id i.id db.incidents ≡ some i
    → set_fields changes (fields_of i) ≡ fields_of (updated u now i)
    → Tells db
    → Tells (update_row event now c u actor db i changes).1
update_row-Tells event now c u actor db i [] h e t = t
update_row-Tells event now c u actor db i (x ∷ changes) h e t =
    let a =
      audit_event event actor AuditAction.incident_updated AuditResourceType.incident i.id
        (updated u now i).title (x ∷ changes) in
    let g : Snapshot → Snapshot = λ s. (s.0, set_fields (x ∷ changes) s.1) in
    let same : snapshot (updated u now i) ≡ g (snapshot i) = λ k. (i.id, sym e k) in
    finish-Tells c (updated u now i)
      (record db {
        incidents = update_where (λ r. r.id == i.id) (updated u now) db.incidents;
        events = db.events ++ (a ∷ []);
      })
      db
      (record {
        replays =
            rewritten i.id db.incidents i (updated u now) g t.unique h same
            ∙ rw (replay-append db.events a [], t.replays) refl;
        unique =
            update_where-UniqueKeys Incident.id (λ r. r.id == i.id) (updated u now) db.incidents
              (λ r. refl) t.unique;
      })
      t

update_incident-Tells :
    (incident_id event now : ℕ) (c : Commit) (u : IncidentUpdate) (actor : User) (db : Db)
    → Tells db
    → Tells (update_incident incident_id event now c u actor db).1
unfolding update_incident
update_incident-Tells incident_id event now c u actor db t =
    elim (Option-cases (row_at Incident.id incident_id db.incidents)) [
      | inl h ↦
          let x : update_incident incident_id event now c u actor db
              ≡ (err IncidentError.not_found, db) =
            ground (arith, h) in
          rw x t
      | inr (i, h) ↦
          let k = key-row_at Incident.id incident_id db.incidents i h in
          let here = subst (λ n. row_at Incident.id n db.incidents ≡ some i) (sym k) h in
          let changes =
            build_change_set (previous_values i (requested_values u)) (requested_values u) in
          let x : update_incident incident_id event now c u actor db
              ≡ update_row event now c u actor db i changes =
            ground (arith, h) in
          rw x (update_row-Tells event now c u actor db i changes here (updated_fields u now i) t)
    ]

delete_incident-Tells :
    (incident_id event : ℕ) (c : Commit) (actor : User) (db : Db)
    → Tells db
    → Tells (delete_incident incident_id event c actor db).1
unfolding delete_incident
delete_incident-Tells incident_id event c actor db t =
    elim (Option-cases (row_at Incident.id incident_id db.incidents)) [
      | inl h ↦
          let x : delete_incident incident_id event c actor db ≡ (err IncidentError.not_found, db) =
            ground (arith, h) in
          rw x t
      | inr (i, h) ↦
          let a =
            audit_event event actor AuditAction.incident_deleted AuditResourceType.incident i.id
              i.title deletion in
          let db' : Db = record db {
            incidents = select_where (λ r. not (r.id == i.id)) db.incidents;
            events = db.events ++ (a ∷ []);
          } in
          let x : delete_incident incident_id event c actor db ≡ finish c tt db' db =
            ground (arith, h) in
          rw x (
            finish-Tells c tt db' db
              (record {
                replays =
                    removed i.id db.incidents ∙ rw (replay-append db.events a [], t.replays) refl;
                unique =
                    select_where-UniqueKeys Incident.id (λ r. not (r.id == i.id)) db.incidents
                      t.unique;
              })
              t)
    ]

pub data Op : Type 0 where
  create : (uuid event now : ℕ) (c : Commit) (d : IncidentCreate) (actor : User) → Op
  update : (incident_id event now : ℕ) (c : Commit) (u : IncidentUpdate) (actor : User) → Op
  delete : (incident_id event : ℕ) (c : Commit) (actor : User) → Op

unfoldable pub apply : Op → Db → Db
apply (Op.create uuid event now c d actor) db = (create_incident uuid event now c d actor db).1
apply (Op.update k event now c u actor) db = (update_incident k event now c u actor db).1
apply (Op.delete k event c actor) db = (delete_incident k event c actor db).1

unfoldable pub run : List Op → Db → Db
run [] db = db
run (op ∷ ops) db = run ops (apply op db)

apply-Tells : (op : Op) (db : Db) → Tells db → Tells (apply op db)
unfolding apply
apply-Tells (Op.create uuid event now c d actor) db t =
    create_incident-Tells uuid event now c d actor db t
apply-Tells (Op.update k event now c u actor) db t =
    update_incident-Tells k event now c u actor db t
apply-Tells (Op.delete k event c actor) db t = delete_incident-Tells k event c actor db t

-- Creating, updating and deleting incidents, with commits that succeed or fail, refine the replay
-- of the audit trail: after every run the incidents, by id and fields in their order, are what
-- replaying all audit events from nothing gives, and their ids are unique, if this held before.
pub run-Tells : (ops : List Op) (db : Db) → Tells db → Tells (run ops db)
unfolding run
run-Tells [] db t = t
run-Tells (op ∷ ops) db t = run-Tells ops (apply op db) (apply-Tells op db t)
