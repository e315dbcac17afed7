-- ===== src/Observability/Registry.antt =====
-- `ServiceRegistryService` and `ServiceRepository` (observability-incident-detection-platform/src/
-- observability_platform/services/service_registry.py, repositories/service_repository.py), and the
-- look-up of services with a cache that telemetry and trace ingestion share.
pub mod Resolve
use software_engineering_car.Common.{
  ℕ, String, Bool, true, false, Option, none, some, List, [], ◌∷◌, ◌++◌, ◌==◌, if◌then◌else◌,
  length, take, drop,
}
use software_engineering_car.Common.Table.{select_where, scalar, row_at}
use software_engineering_car.Observability.Model.{
  ServiceEnvironment, MonitoredService, Identity, identity, same_identity,
}
use software_engineering_car.Observability.Store.{
  Db, Result, ok, err, Commit, committed, integrity_error, failed,
}

pub record ServiceCreate : Type 0 where
  pub name : String
  pub environment : ServiceEnvironment
  pub description : Option String

pub data RegistryError : Type 0 where
  already_exists not_found storage_error : RegistryError

unfoldable pub get_by_identity : Identity → List MonitoredService → Option MonitoredService
get_by_identity i services = scalar (select_where (λ s. same_identity (identity s) i) services)

abbrev pub new_service : ℕ → ServiceCreate → MonitoredService
new_service uuid d = record {
  id = uuid;
  name = d.name;
  environment = d.environment;
  description = d.description;
}

-- The insert, by how its flush and commit end.
abbrev pub add_service : Commit → MonitoredService → Db → Result RegistryError MonitoredService × Db
add_service committed s db = (ok s, record db { services = db.services ++ (s ∷ []) })
add_service integrity_error s db = (err RegistryError.already_exists, db)
add_service failed s db = (err RegistryError.storage_error, db)

-- The unique constraint on name and environment stops the insert where the look-up did not.
unfoldable pub register :
    ℕ → Commit → ServiceCreate → Db → Result RegistryError MonitoredService × Db
register uuid c d db = elim (get_by_identity (d.name, d.environment) db.services) [
  | none ↦ add_service c (new_service uuid d) db
  | some existing ↦ (err RegistryError.already_exists, db)
]

unfoldable pub get : ℕ → Db → Result RegistryError MonitoredService
get service_id db = elim (row_at MonitoredService.id service_id db.services) [
  | none ↦ err RegistryError.not_found
  | some s ↦ ok s
]

-- The dictionary `service_ids`.
abbrev pub cached : Identity → List (Identity × ℕ) → Option ℕ
cached i [] = none
cached i ((j, service_id) ∷ cache) = if same_identity j i then some service_id else cached i cache

-- The loop that pairs items with the ids of their services, or names the first unknown one. An
-- item's identity is its service and environment.
module _ {A : Type 0} (identity_of : A → Identity) (services : List MonitoredService) where
  abbrev pub found :
      A → Option MonitoredService → List (Identity × ℕ) → Result Identity (ℕ × List (Identity × ℕ))
  found a none cache = err (identity_of a)
  found a (some s) cache = ok (s.id, (identity_of a, s.id) ∷ cache)

  abbrev pub service_id_of :
      A → Option ℕ → List (Identity × ℕ) → Result Identity (ℕ × List (Identity × ℕ))
  service_id_of a (some service_id) cache = ok (service_id, cache)
  service_id_of a none cache = found a (get_by_identity (identity_of a) services) cache

  abbrev pub with_item : A → ℕ → Result Identity (List (A × ℕ)) → Result Identity (List (A × ℕ))
  with_item a service_id (ok resolved) = ok ((a, service_id) ∷ resolved)
  with_item a service_id (err i) = err i

  unfoldable pub resolve_services : List A → List (Identity × ℕ) → Result Identity (List (A × ℕ))
  resolve_services [] cache = ok []
  resolve_services (a ∷ items) cache = elim (service_id_of a (cached (identity_of a) cache) cache) [
    | ok (service_id, cache') ↦ with_item a service_id (resolve_services items cache')
    | err i ↦ err i
  ]
