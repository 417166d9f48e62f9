-- ===== src/Caches/BlobUrls.antt =====
-- web/src/browserfs/blobUrlCache.ts. The `Map` is the list of its entries in the order of their
-- insertion, so the least recently used one is the first.
pub mod Occurrences
pub mod Held
pub mod Recency
pub mod Invalidation
pub mod Requests
pub mod Lookups
use zfiles.Common.{
  ℕ, zero, suc, ◌+◌, List, [], ◌∷◌, ◌++◌, Option, none, some, Text, is_empty, starts_with,
  if◌then◌else◌, ltb, length, Entries, lookup, erase,
}
use zfiles.BrowserFs.Paths.{normalize_path, descendant_prefix}

-- Beside the source's fields: the URLs that were created and those that were revoked, in order.
pub record BlobUrlCache : Type 0 where
  pub urls : Entries Text
  pub created : List Text
  pub revoked : List Text

abbrev pub empty_cache : BlobUrlCache
empty_cache = record { urls = []; created = []; revoked = [] }

unfoldable pub invalidate_exact : Text → BlobUrlCache → BlobUrlCache
unfolding lookup erase
invalidate_exact key c = elim (lookup c.urls key) [
  | none ↦ c
  | some url ↦ record c { urls = erase c.urls key; revoked = c.revoked ++ (url ∷ []) }
]

abbrev pub keys : Entries Text → List Text
keys [] = []
keys ((k, u) ∷ rest) = k ∷ keys rest

unfoldable pub values : Entries Text → List Text
values [] = []
values ((k, u) ∷ rest) = u ∷ values rest

unfoldable pub clear : BlobUrlCache → BlobUrlCache
unfolding values
clear c = record c { urls = []; revoked = c.revoked ++ values c.urls }

-- Each round of the loop takes an entry off.
unfoldable pub evict_rounds : ℕ → ℕ → BlobUrlCache → BlobUrlCache
unfolding invalidate_exact
evict_rounds max_entries zero c = c
evict_rounds max_entries (suc f) c = elim c.urls [
  | [] ↦ c
  | (oldest, u) ∷ rest ↦
      let evicted = evict_rounds max_entries f (invalidate_exact oldest c) in
      if ltb max_entries (length c.urls) then evicted else c
]

unfoldable pub evict : ℕ → BlobUrlCache → BlobUrlCache
unfolding evict_rounds
evict max_entries c = evict_rounds max_entries (length c.urls) c

unfoldable pub get : Text → BlobUrlCache → Option Text × BlobUrlCache
unfolding lookup erase
get path c =
    let key = normalize_path path in
    elim (lookup c.urls key) [
      | none ↦ (none, c)
      | some url ↦ (some url, record c { urls = erase c.urls key ++ ((key, url) ∷ []) })
    ]

unfoldable pub invalidate_below : Text → List Text → BlobUrlCache → BlobUrlCache
unfolding invalidate_exact
invalidate_below prefix [] c = c
invalidate_below prefix (cached ∷ keys) c =
    let others =
      invalidate_below prefix keys
        (if starts_with cached prefix then invalidate_exact cached c else c) in
    others

unfoldable pub invalidate : Text → BlobUrlCache → BlobUrlCache
unfolding clear invalidate_exact invalidate_below
invalidate path c =
    let key = normalize_path path in
    let exact = invalidate_exact key c in
    if is_empty key
    then clear c
    else invalidate_below (descendant_prefix key) (keys exact.urls) exact

-- `createObjectURL` is the browser's: the URL that its n-th call returns for a blob.
module _ {Blob : Type 0} (create : ℕ → Blob → Text) (max_entries : ℕ) where
  unfoldable pub put : Text → Blob → BlobUrlCache → BlobUrlCache
  unfolding invalidate_exact
  put path blob c =
      let key = normalize_path path in
      let free = invalidate_exact key c in
      let url = create (length c.created) blob in
      record free { urls = free.urls ++ ((key, url) ∷ []); created = free.created ++ (url ∷ []) }

  unfoldable pub set : Text → Blob → BlobUrlCache → Text × BlobUrlCache
  unfolding put evict
  set path blob c = (create (length c.created) blob, evict max_entries (put path blob c))

  pub data Request : Type 0 where
    get_url : Text → Request
    set_url : Text → Blob → Request
    invalidate_url : Text → Request
    clear_urls : Request

  unfoldable pub serve : Request → BlobUrlCache → BlobUrlCache
  unfolding get set invalidate clear
  serve (get_url path) c = (get path c).1
  serve (set_url path blob) c = (set path blob c).1
  serve (invalidate_url path) c = invalidate path c
  serve clear_urls c = clear c

  unfoldable pub serve_all : List Request → BlobUrlCache → BlobUrlCache
  unfolding serve
  serve_all [] c = c
  serve_all (r ∷ rs) c = serve_all rs (serve r c)
