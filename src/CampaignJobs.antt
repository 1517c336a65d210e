-- ===== src/CampaignJobs.antt =====
-- The campaign job store: apps/api/src/services/campaign-job-store.
pub mod Types
pub mod Status
pub mod Store
mod Tests
