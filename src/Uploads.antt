-- ===== src/Uploads.antt =====
-- Uploads: the sessions kept for resuming them, and the queue (web/src/upload-queue.ts).
pub mod Sessions
pub mod Queue
pub mod Panel
mod Tests
