-- ===== src/Caches.antt =====
-- The caches: object URLs (web/src/browserfs/blobUrlCache.ts), and file stats and download URLs
-- (web/src/backend/backendObjectCache.ts).
pub mod BlobUrls
mod Tests
