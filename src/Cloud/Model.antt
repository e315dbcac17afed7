-- ===== src/Cloud/Model.antt =====
-- The rows of cloud-deployed-full-stack-system/backend/app/models: incidents, users, audit events.
use software_engineering_car.Common.{ℕ, String, Bool, List}

pub data IncidentStatus : Type 0 where
  opened investigating resolved closed : IncidentStatus

pub data IncidentSeverity : Type 0 where
  low medium high critical : IncidentSeverity

pub data UserRole : Type 0 where
  viewer operator admin : UserRole

abbrev pub status_value : IncidentStatus → String
status_value IncidentStatus.opened = "open"
status_value IncidentStatus.investigating = "investigating"
status_value IncidentStatus.resolved = "resolved"
status_value IncidentStatus.closed = "closed"

abbrev pub severity_value : IncidentSeverity → String
severity_value IncidentSeverity.low = "low"
severity_value IncidentSeverity.medium = "medium"
severity_value IncidentSeverity.high = "high"
severity_value IncidentSeverity.critical = "critical"

abbrev pub role_value : UserRole → String
role_value UserRole.viewer = "viewer"
role_value UserRole.operator = "operator"
role_value UserRole.admin = "admin"

pub record Incident : Type 0 where
  pub id : ℕ
  pub title : String
  pub description : String
  pub service_name : String
  pub severity : IncidentSeverity
  pub status : IncidentStatus
  pub created_at : ℕ
  pub updated_at : ℕ

pub record User : Type 0 where
  pub id : ℕ
  pub email : String
  pub full_name : String
  pub password_hash : String
  pub role : UserRole
  pub is_active : Bool

pub data AuditAction : Type 0 where
  incident_created incident_updated incident_deleted user_role_changed user_status_changed :
      AuditAction

pub data AuditResourceType : Type 0 where
  incident user : AuditResourceType

-- A JSON value of a change set.
pub data Value : Type 0 where
  null : Value
  text : String → Value
  flag : Bool → Value

pub record Change : Type 0 where
  pub field : String
  pub before : Value
  pub after : Value

pub record AuditEvent : Type 0 where
  pub id : ℕ
  pub actor_user_id : ℕ
  pub actor_email : String
  pub actor_role : UserRole
  pub action : AuditAction
  pub resource_type : AuditResourceType
  pub resource_id : ℕ
  pub resource_label : String
  pub changes : List Change

pub record Db : Type 0 where
  pub incidents : List Incident
  pub users : List User
  pub events : List AuditEvent

-- How the flushes and the commit of a transaction end.
pub data Commit : Type 0 where
  committed failed : Commit
