-- ===== src/Uploads/Queue.antt =====
-- The upload queue (web/src/upload-queue.ts).
pub mod Items
pub mod Progress
pub mod State
pub mod Worker
pub mod Transfer
pub mod Outcomes
pub mod Steps
pub mod Cancelled
pub mod Flight
