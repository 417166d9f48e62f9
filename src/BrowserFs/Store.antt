-- ===== src/BrowserFs/Store.antt =====
-- web/src/browserfs/store.ts, with the records of db.ts and the errors of errors.ts.
pub mod Types
pub mod Requests
pub mod Operations
pub mod Invariant
pub mod Subtree
pub mod Methods
pub mod Empty
