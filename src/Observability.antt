-- ===== src/Observability.antt =====
-- The observability platform
-- (observability-incident-detection-platform/src/observability_platform).
pub mod Model
pub mod Detection
pub mod RootCause
pub mod Store
pub mod Registry
pub mod Telemetry
pub mod Incidents
pub mod Traces
pub mod Correlation
pub mod System
pub mod RateLimit
mod Tests
