-- ===== src/Caches/BlobUrls/Held.antt =====
-- What the cache holds was created and not revoked.
use zfiles.Common.{
  ◌+◌, ◌≡◌, refl, sym, [], ◌∷◌, ◌++◌, Option, none, some, Text, lookup, erase, Distinct, arith,
}
use zfiles.BrowserFs.Paths.{normalize_path}
use zfiles.Caches.BlobUrls.{BlobUrlCache, invalidate_exact, keys, values, clear, get}
use zfiles.Caches.BlobUrls.Occurrences.{
  occurrences, erase-absent, occurrences-append, Distinct-erase, occurrences-erase, lookup-absent,
  not-In-erase, Distinct-snoc, occurrences-values_snoc,
}

pub record Sound (c : BlobUrlCache) : Type 0 where
  pub distinct : Distinct (keys c.urls)
  pub accounted :
      (u : Text) → occurrences u c.created ≡ occurrences u (values c.urls) + occurrences u c.revoked

-- The entry of a key is taken out, and its URL is revoked.
pub invalidate_exact-urls :
    (k : Text) (c : BlobUrlCache) → (invalidate_exact k c).urls ≡ erase c.urls k
unfolding invalidate_exact
invalidate_exact-urls k c = go (lookup c.urls k) refl
  where
    go :
        (o : Option Text)
        → lookup c.urls k ≡ o
        → (elim o as (λ x. BlobUrlCache) [
          | none ↦ c
          | some url ↦ record c { urls = erase c.urls k; revoked = c.revoked ++ (url ∷ []) }
        ]).urls
          ≡ erase c.urls k
    go none e = sym (erase-absent c.urls k (lookup-absent c.urls k e))
    go (some url) e = refl

pub invalidate_exact-Sound : (k : Text) (c : BlobUrlCache) → Sound c → Sound (invalidate_exact k c)
unfolding invalidate_exact
invalidate_exact-Sound k c s = go (lookup c.urls k) refl
  where
    go :
        (o : Option Text)
        → lookup c.urls k ≡ o
        → Sound (elim o as (λ x. BlobUrlCache) [
          | none ↦ c
          | some url ↦ record c { urls = erase c.urls k; revoked = c.revoked ++ (url ∷ []) }
        ])
    go none e = s
    go (some url) e = record {
      distinct = Distinct-erase c.urls k s.distinct;
      accounted = λ u. omega (
        arith,
        s.accounted u,
        occurrences-erase c.urls k url u s.distinct e,
        occurrences-append u c.revoked (url ∷ []),
      );
    }

pub clear-Sound : (c : BlobUrlCache) → Sound c → Sound (clear c)
unfolding clear values occurrences
clear-Sound c s = record {
  distinct = tt;
  accounted = λ u. omega (arith, s.accounted u, occurrences-append u c.revoked (values c.urls));
}

pub get-Sound : (path : Text) (c : BlobUrlCache) → Sound c → Sound (get path c).1
unfolding get
get-Sound path c s = go (lookup c.urls (normalize_path path)) refl
  where
    go :
        (o : Option Text)
        → lookup c.urls (normalize_path path) ≡ o
        → Sound
            (elim o as (λ x. Option Text × BlobUrlCache) [
              | none ↦ (none, c)
              | some url ↦ (
                some url,
                record c {
                  urls = erase c.urls (normalize_path path) ++ ((normalize_path path, url) ∷ []);
                },
              )
            ]).1
    go none e = s
    go (some url) e = record {
      distinct =
          Distinct-snoc (erase c.urls (normalize_path path)) (normalize_path path) url
            (Distinct-erase c.urls (normalize_path path) s.distinct)
            (not-In-erase c.urls (normalize_path path));
      accounted = λ u. omega (
        arith,
        s.accounted u,
        occurrences-erase c.urls (normalize_path path) url u s.distinct e,
        occurrences-values_snoc u (erase c.urls (normalize_path path)) (normalize_path path) url,
      );
    }
