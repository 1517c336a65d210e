-- ===== src/CampaignWorker.antt =====
-- The campaign worker: apps/worker/src/services/campaign-job-client.ts and campaign-process/. The
-- tables are lists of rows, in the order of creation; the collaborators are parameters.
pub mod Types
mod Tests
pub mod Client
pub mod Effects
pub mod Run
pub mod Export
pub mod VoiceContent
pub mod Voice
pub mod Recipients
pub mod Email
pub mod Channels
pub mod Messages
pub mod Chunks
