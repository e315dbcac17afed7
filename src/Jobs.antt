-- ===== src/Jobs.antt =====
-- The distributed job-processing system (distributed-job-processing-system/src/job_system).
pub mod Model
pub mod Queue
pub mod Submission
pub mod System
pub mod Worker
mod Tests
