-- ===== src/Cloud.antt =====
-- The backend of the cloud system (cloud-deployed-full-stack-system/backend/app).
pub mod Model
pub mod Audit
pub mod Incidents
pub mod Users
pub mod Dashboard
mod Tests
