-- ===== src/Deploy.antt =====
-- admin/deployment.service.ts: the deployment pipeline.
pub mod State
pub mod Store
pub mod Attempts
pub mod Propagate
pub mod Steps
pub mod Commands
pub mod Jobs
mod Tests
pub mod Defaults
