-- ===== src/Caches/BlobUrls/Invalidation.antt =====
-- Which entries an invalidated path takes with it.
use zfiles.Common.{
  ◌≡◌, ◌⊎◌, refl, sym, ap, ◌∙◌, Bool, true, false, ◌||◌, List, [], ◌∷◌, ◌++◌, Option, none, Text,
  text_eq, text_eq_iff, is_empty, starts_with, if◌then◌else◌, Entries, lookup, lookup-erase, arith,
  Bool-cases, inl, inr,
}
use zfiles.Common.{bool_eq_of_iff, has_name, ◌&&◌}
use zfiles.BrowserFs.Paths.{normalize_path, descendant_prefix, path_is_within, slash}
use zfiles.BrowserFs.Paths.Laws.{normalize_path_idem}
use zfiles.Caches.BlobUrls.{
  BlobUrlCache, invalidate_exact, keys, clear, invalidate_below, invalidate,
}
use zfiles.Caches.BlobUrls.Held.{Sound, invalidate_exact-urls, invalidate_exact-Sound, clear-Sound}

pub lookup-invalidate_exact :
    (j : Text) (c : BlobUrlCache) (k : Text)
    → lookup (invalidate_exact j c).urls k ≡ (if text_eq j k then none else lookup c.urls k)
lookup-invalidate_exact j c k =
    ap (λ m. lookup m k) (invalidate_exact-urls j c) ∙ lookup-erase c.urls j k

-- Among these keys, those that begin with the prefix are taken out.
pub lookup-invalidate_below :
    (prefix : Text) (names : List Text) (c : BlobUrlCache) (k : Text)
    → lookup (invalidate_below prefix names c).urls k
      ≡ (if has_name names k && starts_with k prefix then none else lookup c.urls k)
unfolding invalidate_below has_name
lookup-invalidate_below prefix [] c k = refl
lookup-invalidate_below prefix (cached ∷ names) c k =
    lookup-invalidate_below prefix names
      (if starts_with cached prefix then invalidate_exact cached c else c) k
    ∙ step (has_name names k) (Bool-cases (starts_with cached prefix))
        (Bool-cases (text_eq cached k))
  where
    found :
        (b : Bool)
        → lookup (if b then invalidate_exact cached c else c).urls k
          ≡ (if b && text_eq cached k then none else lookup c.urls k)
    found true = lookup-invalidate_exact cached c k
    found false = refl

    step :
        (h : Bool)
        → ((starts_with cached prefix ≡ true) ⊎ (starts_with cached prefix ≡ false))
        → ((text_eq cached k ≡ true) ⊎ (text_eq cached k ≡ false))
        → (if h && starts_with k prefix
            then none
            else lookup (if starts_with cached prefix then invalidate_exact cached c else c).urls k)
          ≡ (if (if text_eq cached k then true else h) && starts_with k prefix
              then none
              else lookup c.urls k)
    step h p q = ground (
      arith,
      found (starts_with cached prefix),
      text_eq_iff cached k,
      λ (e : cached ≡ k). ap (λ x. starts_with x prefix) e,
    )

invalidate_below-Sound :
    (prefix : Text) (names : List Text) (c : BlobUrlCache)
    → Sound c
    → Sound (invalidate_below prefix names c)
unfolding invalidate_below
invalidate_below-Sound prefix [] c s = s
invalidate_below-Sound prefix (cached ∷ names) c s =
    invalidate_below-Sound prefix names
      (if starts_with cached prefix then invalidate_exact cached c else c)
      (go (starts_with cached prefix))
  where
    go : (b : Bool) → Sound (if b then invalidate_exact cached c else c)
    go true = invalidate_exact-Sound cached c s
    go false = s

pub invalidate-Sound : (path : Text) (c : BlobUrlCache) → Sound c → Sound (invalidate path c)
unfolding invalidate
invalidate-Sound path c s = go (is_empty (normalize_path path))
  where
    key : Text
    key = normalize_path path

    exact : BlobUrlCache
    exact = invalidate_exact (normalize_path path) c

    go :
        (b : Bool)
        → Sound (
            if b
            then clear c
            else invalidate_below
                (descendant_prefix (normalize_path path))
                (keys (invalidate_exact (normalize_path path) c).urls)
                (invalidate_exact (normalize_path path) c))
    go true = clear-Sound c s
    go false =
        invalidate_below-Sound (descendant_prefix (normalize_path path))
          (keys (invalidate_exact (normalize_path path) c).urls)
          (invalidate_exact (normalize_path path) c)
          (invalidate_exact-Sound (normalize_path path) c s)

absent-name : (m : Entries Text) (k : Text) → has_name (keys m) k ≡ false → lookup m k ≡ none
unfolding has_name lookup
absent-name [] k e = refl
absent-name ((j, u) ∷ rest) k e = ground (arith, e, absent-name rest k)

-- The key itself is taken out, and so is each name with the prefix.
assemble :
    (h p q : Bool) (x y : Option Text)
    → x ≡ (if q then none else y)
    → (h ≡ false → x ≡ none)
    → (if h && p then none else x) ≡ (if q || p then none else y)
assemble h p q x y e f = ground (arith, e, f)

text_eq_sym : (s t : Text) → text_eq s t ≡ text_eq t s
text_eq_sym s t =
    bool_eq_of_iff (text_eq s t) (text_eq t s)
      (λ e. (text_eq_iff t s).1 (sym ((text_eq_iff s t).0 e)))
      (λ e. (text_eq_iff s t).1 (sym ((text_eq_iff t s).0 e)))

-- After a path is invalidated, no path at or below it is held, and every other path is held as
-- before. Paths are compared by their normal forms, which the cache uses as its keys.
pub lookup-invalidate :
    (path : Text) (c : BlobUrlCache) (k : Text)
    → normalize_path k ≡ k
    → lookup (invalidate path c).urls k ≡ (if path_is_within k path then none else lookup c.urls k)
unfolding invalidate path_is_within descendant_prefix clear lookup
lookup-invalidate path c k normal = elim (Bool-cases (is_empty (normalize_path path))) [
  | inl e ↦ rw e refl
  | inr e ↦
      rw ((normalize_path_idem path).1, normal, e)
        (lookup-invalidate_below (normalize_path path ++ (slash ∷ [])) (keys exact.urls) exact k
          ∙ assemble (has_name (keys exact.urls) k)
              (starts_with k (normalize_path path ++ (slash ∷ [])))
              (text_eq k (normalize_path path)) (lookup exact.urls k) (lookup c.urls k)
              (lookup-invalidate_exact (normalize_path path) c k
                ∙ ap (λ b. if b then none else lookup c.urls k)
                    (text_eq_sym (normalize_path path) k))
              (absent-name exact.urls k))
]
  where
    exact : BlobUrlCache
    exact = invalidate_exact (normalize_path path) c
