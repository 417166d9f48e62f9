-- ===== src/Backends.antt =====
-- The backends of the explorer (web/src/backend).
pub mod Browser
mod Tests
