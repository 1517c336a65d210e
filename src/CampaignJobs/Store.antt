-- ===== src/CampaignJobs/Store.antt =====
-- The operations of `InMemoryCampaignJobStore` (memory.ts). A method takes the store and returns it
-- with its result; the random id and the clock reading are arguments.
pub mod Create
pub mod Update
pub mod Read
pub mod Valid
pub mod Insert
pub mod Steps
pub mod Frozen
pub mod Replay
pub mod Dedup
pub mod Pages
