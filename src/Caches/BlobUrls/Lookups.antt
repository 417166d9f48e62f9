-- ===== src/Caches/BlobUrls/Lookups.antt =====
-- Which URLs are held after a URL was asked for or made.
use zfiles.Common.{
  ℕ, zero, suc, ◌≡◌, ◌⊎◌, inl, inr, refl, sym, ap, ◌∙◌, [], ◌∷◌, ◌++◌, Option, none, some, or_else,
  Text, text_eq, text_eq_iff, if◌then◌else◌, ltb, length, Entries, lookup, erase, lookup-erase,
  arith, Bool-cases, is_empty,
}
use zfiles.BrowserFs.Paths.{normalize_path, descendant_prefix}
use zfiles.Caches.BlobUrls.{
  BlobUrlCache, invalidate_exact, evict_rounds, evict, get, put, set, keys, clear, invalidate,
}
use zfiles.Caches.BlobUrls.Recency.{put-urls}
use zfiles.Caches.BlobUrls.Invalidation.{lookup-invalidate_exact, lookup-invalidate_below}

lookup-snoc :
    (m : Entries Text) (k u j : Text)
    → lookup (m ++ ((k, u) ∷ [])) j ≡ or_else (lookup m j) (if text_eq k j then some u else none)
unfolding lookup
lookup-snoc [] k u j = refl
lookup-snoc ((l, v) ∷ m) k u j = ground (arith, lookup-snoc m k u j)

-- Asking for a URL returns what is held, and holds nothing else afterwards.
pub lookup-get :
    (path : Text) (c : BlobUrlCache)
    → ((get path c).0 ≡ lookup c.urls (normalize_path path))
      × ((k : Text) → lookup (get path c).1.urls k ≡ lookup c.urls k)
unfolding get
lookup-get path c = go (lookup c.urls (normalize_path path)) refl
  where
    key : Text
    key = normalize_path path

    after : Option Text → Option Text × BlobUrlCache
    after o = elim o [
      | none ↦ (none, c)
      | some url ↦ (
        some url,
        record c { urls = erase c.urls (normalize_path path) ++ ((normalize_path path, url) ∷ []) },
      )
    ]

    go :
        (o : Option Text)
        → lookup c.urls (normalize_path path) ≡ o
        → ((after o).0 ≡ o) × ((k : Text) → lookup (after o).1.urls k ≡ lookup c.urls k)
    go none e = (refl, λ k. refl)
    go (some url) e = (
      refl,
      λ k. ground (
        arith,
        e,
        lookup-snoc (erase c.urls (normalize_path path)) (normalize_path path) url k,
        lookup-erase c.urls (normalize_path path) k,
        text_eq_iff (normalize_path path) k,
      ),
    )

lookup-evict_rounds :
    (max_entries f : ℕ) (c : BlobUrlCache) (k u : Text)
    → lookup (evict_rounds max_entries f c).urls k ≡ some u
    → lookup c.urls k ≡ some u
unfolding evict_rounds
lookup-evict_rounds max_entries zero c k u e = e
lookup-evict_rounds max_entries (suc f) c k u e = go c.urls (lookup-evict_rounds max_entries f) e
  where
    go :
        (m : Entries Text)
        → ((c' : BlobUrlCache) (k' u' : Text)
            → lookup (evict_rounds max_entries f c').urls k' ≡ some u'
            → lookup c'.urls k' ≡ some u')
        → lookup
            (elim m as (λ x. BlobUrlCache) [
              | [] ↦ c
              | (oldest, v) ∷ rest ↦
                  if ltb max_entries (length c.urls)
                  then evict_rounds max_entries f (invalidate_exact oldest c)
                  else c
            ]).urls
            k
          ≡ some u
        → lookup c.urls k ≡ some u
    go [] later h = h
    go ((oldest, v) ∷ rest) later h = elim (Bool-cases (ltb max_entries (length c.urls))) [
      | inl t ↦ ground (
        arith,
        later (invalidate_exact oldest c) k u (rw t at h),
        lookup-invalidate_exact oldest c k,
      )
      | inr t ↦ rw t at h
    ]

module _ {Blob : Type 0} (create : ℕ → Blob → Text) (max_entries : ℕ) where
  -- After a URL was made, what is held is that URL at its path, or was held before.
  pub lookup-set :
      (path : Text) (blob : Blob) (c : BlobUrlCache) (k u : Text)
      → lookup (set create max_entries path blob c).1.urls k ≡ some u
      → ((k ≡ normalize_path path) × (u ≡ create (length c.created) blob))
        ⊎ (lookup c.urls k ≡ some u)
  unfolding set evict
  lookup-set path blob c k u e =
      let key = normalize_path path in
      let url = create (length c.created) blob in
      let p = put create max_entries path blob c in
      let kept = lookup-evict_rounds max_entries (length p.urls) p k u e in
      let made : lookup p.urls k
          ≡ or_else (lookup (erase c.urls key) k) (if text_eq key k then some url else none) =
        ap (λ m. lookup m k) (put-urls create max_entries path blob c)
        ∙ lookup-snoc (erase c.urls key) key url k in
      elim (Bool-cases (text_eq key k)) [
        | inl t ↦ inl (
          sym ((text_eq_iff key k).0 t),
          ground (arith, kept, made, t, lookup-erase c.urls key k),
        )
        | inr t ↦ inr (ground (arith, kept, made, t, lookup-erase c.urls key k))
      ]

-- An invalidated path adds nothing to what is held.
pub lookup-invalidate_held :
    (path : Text) (c : BlobUrlCache) (k u : Text)
    → lookup (invalidate path c).urls k ≡ some u
    → lookup c.urls k ≡ some u
unfolding invalidate clear lookup
lookup-invalidate_held path c k u e = elim (Bool-cases (is_empty (normalize_path path))) [
  | inl t ↦ cc (rw t at e)
  | inr t ↦
      let key = normalize_path path in
      let exact = invalidate_exact key c in
      ground (
        arith,
        rw t at e,
        lookup-invalidate_below (descendant_prefix key) (keys exact.urls) exact k,
        lookup-invalidate_exact key c k,
      )
]
