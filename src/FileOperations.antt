-- ===== src/FileOperations.antt =====
-- Names, paths and pasting (web/src/fileOperations), and the names of connections and of uploads
-- that keep both files (web/src/connections/naming.ts, web/src/upload-conflict.ts).
pub mod Paths
pub mod Names
pub mod Paste
mod Tests
