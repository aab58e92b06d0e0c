-- ===== src/Jobs.antt =====
-- The jobs API of apps/api-control-plane/app/api/routers/jobs.py.
pub mod Store
pub mod Router
pub mod Updates
pub mod Retries
pub mod Loading
pub mod Cancel
pub mod Retry
pub mod Publish
pub mod Artifacts
pub mod Constraints
pub mod Completion
mod Stored
mod Added
mod Completed
mod Reached
mod Repeated
mod Examples
mod ArtifactExamples
