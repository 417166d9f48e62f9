-- ===== src/Caches/BlobUrls/Requests.antt =====
-- Every sequence of requests keeps the cache tidy.
use zfiles.Common.{
  ℕ, ◌-◌, ◌≤◌, ◌≡◌, refl, ap, Bool, true, false, List, [], ◌∷◌, ◌++◌, Option, none, some, Text,
  is_empty, starts_with, if◌then◌else◌, length, length-append, Entries, lookup, erase, Distinct,
  arith,
}
use zfiles.BrowserFs.Paths.{normalize_path, descendant_prefix}
use zfiles.Caches.BlobUrls.{
  BlobUrlCache, empty_cache, invalidate_exact, keys, values, clear, evict, get, invalidate_below,
  invalidate, put, set, Request, get_url, set_url, invalidate_url, clear_urls, serve, serve_all,
}
use zfiles.Caches.BlobUrls.Occurrences.{occurrences, length-erase}
use zfiles.Caches.BlobUrls.Held.{Sound, invalidate_exact-urls, get-Sound, clear-Sound}
use zfiles.Caches.BlobUrls.Invalidation.{invalidate-Sound}
use zfiles.Caches.BlobUrls.Recency.{
  Tidy, length-drop_entries, evict_rounds-urls, evict_rounds-Sound, put-Sound,
}

length-erase_le : (m : Entries Text) (k : Text) → length (erase m k) ≤ length m
unfolding erase
length-erase_le [] k = omega arith
length-erase_le ((j, u) ∷ rest) k = ground (arith, length-erase_le rest k)

length-invalidate_exact :
    (k : Text) (c : BlobUrlCache) → length (invalidate_exact k c).urls ≤ length c.urls
length-invalidate_exact k c =
    omega (arith, length-erase_le c.urls k, ap length (invalidate_exact-urls k c))

length-invalidate_below :
    (prefix : Text) (names : List Text) (c : BlobUrlCache)
    → length (invalidate_below prefix names c).urls ≤ length c.urls
unfolding invalidate_below
length-invalidate_below prefix [] c = omega arith
length-invalidate_below prefix (cached ∷ names) c = omega (
  arith,
  length-invalidate_below prefix names
      (if starts_with cached prefix then invalidate_exact cached c else c),
  go (starts_with cached prefix),
)
  where
    go : (b : Bool) → length (if b then invalidate_exact cached c else c).urls ≤ length c.urls
    go true = length-invalidate_exact cached c
    go false = omega arith

length-invalidate :
    (path : Text) (c : BlobUrlCache) → length (invalidate path c).urls ≤ length c.urls
unfolding invalidate clear
length-invalidate path c = go (is_empty (normalize_path path))
  where
    go :
        (b : Bool)
        → length
            (if b
              then clear c
              else invalidate_below
                  (descendant_prefix (normalize_path path))
                  (keys (invalidate_exact (normalize_path path) c).urls)
                  (invalidate_exact (normalize_path path) c)).urls
          ≤ length c.urls
    go true = omega arith
    go false = omega (
      arith,
      length-invalidate_exact (normalize_path path) c,
      length-invalidate_below (descendant_prefix (normalize_path path))
          (keys (invalidate_exact (normalize_path path) c).urls)
          (invalidate_exact (normalize_path path) c),
    )

length-get :
    (path : Text) (c : BlobUrlCache)
    → Distinct (keys c.urls)
    → length (get path c).1.urls ≡ length c.urls
unfolding get
length-get path c d = go (lookup c.urls (normalize_path path)) refl
  where
    go :
        (o : Option Text)
        → lookup c.urls (normalize_path path) ≡ o
        → length
            (elim o as (λ x. Option Text × BlobUrlCache) [
              | none ↦ (none, c)
              | some url ↦ (
                some url,
                record c {
                  urls = erase c.urls (normalize_path path) ++ ((normalize_path path, url) ∷ []);
                },
              )
            ]).1.urls
          ≡ length c.urls
    go none e = refl
    go (some url) e = omega (
      arith,
      length-erase c.urls (normalize_path path) url d e,
      length-append (erase c.urls (normalize_path path)) ((normalize_path path, url) ∷ []),
    )

module _ {Blob : Type 0} (create : ℕ → Blob → Text) (max_entries : ℕ) where
  Sound-Tidy : {c : BlobUrlCache} → Sound c → length c.urls ≤ max_entries → Tidy max_entries c
  Sound-Tidy s h = record { distinct = s.distinct; accounted = s.accounted; bounded = h }

  serve-Tidy :
      (r : Request create max_entries) (c : BlobUrlCache)
      → Tidy max_entries c
      → Tidy max_entries (serve create max_entries r c)
  unfolding serve set evict clear
  serve-Tidy (get_url path) c t =
      Sound-Tidy (get-Sound path c (record { distinct = t.distinct; accounted = t.accounted }))
        (omega (arith, length-get path c t.distinct, t.bounded))
  serve-Tidy (set_url path blob) c t =
      let p = put create max_entries path blob c in
      let s =
        put-Sound create max_entries path blob c
          (record { distinct = t.distinct; accounted = t.accounted }) in
      let left = evict_rounds-urls max_entries (length p.urls) p s.distinct (omega arith) in
      Sound-Tidy (evict_rounds-Sound max_entries (length p.urls) p s)
        (omega (arith, ap length left, length-drop_entries (length p.urls - max_entries) p.urls))
  serve-Tidy (invalidate_url path) c t =
      Sound-Tidy
        (invalidate-Sound path c (record { distinct = t.distinct; accounted = t.accounted }))
        (omega (arith, length-invalidate path c, t.bounded))
  serve-Tidy clear_urls c t =
      Sound-Tidy (clear-Sound c (record { distinct = t.distinct; accounted = t.accounted }))
        (omega arith)

-- From the empty cache, any requests lead to a tidy one: no path has two URLs; each URL that was
-- created, counted as often as it was, is either held or was revoked, and nothing else was revoked; and no more
-- URLs are held than the bound.
pub serve_all-Tidy :
    {Blob : Type 0} (create : ℕ → Blob → Text) (max_entries : ℕ)
    (requests : List (Request create max_entries))
    → Tidy max_entries (serve_all create max_entries requests empty_cache)
unfolding serve_all occurrences values
serve_all-Tidy create max_entries requests =
    go requests empty_cache (record { distinct = tt; accounted = λ u. refl; bounded = omega arith })
  where
    go :
        (rs : List (Request create max_entries)) (c : BlobUrlCache)
        → Tidy max_entries c
        → Tidy max_entries (serve_all create max_entries rs c)
    go [] c t = t
    go (r ∷ rs) c t = go rs (serve create max_entries r c) (serve-Tidy create max_entries r c t)
