-- ===== src/BrowserFs.antt =====
-- The browser filesystem, web/src/browserfs.
pub mod Paths
pub mod ObjectStore
pub mod Store
mod Tests
