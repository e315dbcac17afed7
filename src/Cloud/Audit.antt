-- ===== src/Cloud/Audit.antt =====
-- Change sets and the audit trail (cloud-deployed-full-stack-system/backend/app/services/
-- audit_events.py, repositories/audit_events.py). Values are normalized: an enumeration's member
-- is its text.
use software_engineering_car.Common.{
  ℕ, String, Bool, true, false, not, List, [], ◌∷◌, ◌++◌, str_eq, if◌then◌else◌,
}
use software_engineering_car.Cloud.Model.{
  Value, null, text, flag, Change, User, AuditAction, AuditResourceType, AuditEvent, Db,
}

abbrev pub same_flag : Bool → Bool → Bool
same_flag true b = b
same_flag false b = not b

abbrev pub same_value : Value → Value → Bool
same_value null null = true
same_value null (text s) = false
same_value null (flag b) = false
same_value (text s) null = false
same_value (text s) (text t) = str_eq s t
same_value (text s) (flag b) = false
same_value (flag a) null = false
same_value (flag a) (text s) = false
same_value (flag a) (flag b) = same_flag a b

-- `values.get(field)`.
abbrev pub get_value : String → List (String × Value) → Value
get_value f [] = null
get_value f ((g, v) ∷ values) = if str_eq g f then v else get_value f values

unfoldable pub build_change_set : List (String × Value) → List (String × Value) → List Change
build_change_set previous [] = []
build_change_set previous ((f, v) ∷ current) =
    let rest = build_change_set previous current in
    let before = get_value f previous in
    if same_value before v then rest else record { field = f; before = before; after = v } ∷ rest

abbrev pub audit_event :
    ℕ → User → AuditAction → AuditResourceType → ℕ → String → List Change → AuditEvent
audit_event uuid actor action resource_type resource_id resource_label changes = record {
  id = uuid;
  actor_user_id = actor.id;
  actor_email = actor.email;
  actor_role = actor.role;
  action = action;
  resource_type = resource_type;
  resource_id = resource_id;
  resource_label = resource_label;
  changes = changes;
}

abbrev pub record_audit_event : AuditEvent → Db → Db
record_audit_event e db = record db { events = db.events ++ (e ∷ []) }
