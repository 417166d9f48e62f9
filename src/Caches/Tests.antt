-- ===== src/Caches/Tests.antt =====
-- A cache of two URLs under a few requests.
use zfiles.Common.{
  ℕ, ◌+◌, ◌-◌, ◌≡◌, refl, List, [], ◌∷◌, ◌++◌, none, Text, codes, length, lookup, erase,
  show_number, if◌then◌else◌,
}
use zfiles.BrowserFs.Paths.{normalize_path, path_is_within}
use zfiles.Caches.BlobUrls.{
  BlobUrlCache, empty_cache, invalidate, set, Request, get_url, set_url, serve_all,
}
use zfiles.Caches.BlobUrls.Recency.{Tidy, drop_entries, set-recency}
use zfiles.Caches.BlobUrls.Invalidation.{lookup-invalidate}
use zfiles.Caches.BlobUrls.Requests.{serve_all-Tidy}

-- The URLs of a browser that numbers them.
abbrev create : ℕ → Text → Text
create n blob = codes "blob:" ++ show_number n

abbrev requests : List (Request create 2)
requests =
    set_url (codes "a/x") (codes "1")
    ∷ set_url (codes "b") (codes "2")
    ∷ get_url (codes "/a/x")
    ∷ set_url (codes "c") (codes "3")
    ∷ []

abbrev cache : BlobUrlCache
cache = serve_all create 2 requests empty_cache

-- `b`, which was used least recently, has made room for `c`.
held : cache.urls ≡ (codes "a/x", codes "blob:0") ∷ (codes "c", codes "blob:2") ∷ []
unfolding serve_all normalize_path show_number
held = refl

released : cache.revoked ≡ codes "blob:1" ∷ []
unfolding serve_all normalize_path show_number
released = refl

serve_all-Tidy_example : Tidy 2 (serve_all create 2 requests empty_cache)
serve_all-Tidy_example = serve_all-Tidy create 2 requests

set-recency_example :
    (set create 2 (codes "d") (codes "4") cache).1.urls
    ≡ drop_entries (length (erase cache.urls (normalize_path (codes "d"))) + 1 - 2) (
        erase cache.urls (normalize_path (codes "d"))
        ++ ((normalize_path (codes "d"), (set create 2 (codes "d") (codes "4") cache).0) ∷ []))
set-recency_example =
    set-recency create 2 (codes "d") (codes "4") cache (serve_all-Tidy create 2 requests)

normal : normalize_path (codes "a/x") ≡ codes "a/x"
unfolding normalize_path
normal = refl

lookup-invalidate_example :
    lookup (invalidate (codes "a") cache).urls (codes "a/x")
    ≡ (if path_is_within (codes "a/x") (codes "a") then none else lookup cache.urls (codes "a/x"))
lookup-invalidate_example = lookup-invalidate (codes "a") cache (codes "a/x") normal
