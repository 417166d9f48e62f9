-- ===== src/Caches/BlobUrls/Recency.antt =====
-- What the cache holds after each of its operations.
use zfiles.Common.{
  ℕ, zero, suc, ◌+◌, ◌-◌, ◌≤◌, ◌<◌, ◌≡◌, refl, sym, ap, ◌∙◌, subst, [], ◌∷◌, ◌++◌, Text,
  text_eq_refl, if◌then◌else◌, ltb, length, length-append, Entries, erase, In, Distinct, arith,
  Bool-cases, ltb→lt, inl, inr,
}
use zfiles.BrowserFs.Paths.{normalize_path}
use zfiles.Caches.BlobUrls.{
  BlobUrlCache, invalidate_exact, keys, values, evict_rounds, evict, put, set,
}
use zfiles.Caches.BlobUrls.Occurrences.{
  occurrences, erase-absent, occurrences-append, not-In-erase, Distinct-snoc,
  occurrences-values_snoc,
}
use zfiles.Caches.BlobUrls.Held.{Sound, invalidate_exact-urls, invalidate_exact-Sound}

-- The oldest entries beyond the bound are taken off.
unfoldable pub drop_entries : ℕ → Entries Text → Entries Text
drop_entries zero m = m
drop_entries (suc n) [] = []
drop_entries (suc n) (e ∷ m) = drop_entries n m

pub length-drop_entries : (n : ℕ) (m : Entries Text) → length (drop_entries n m) ≡ length m - n
unfolding drop_entries
length-drop_entries zero m = omega arith
length-drop_entries (suc n) [] = omega arith
length-drop_entries (suc n) (e ∷ m) = omega (arith, length-drop_entries n m)

drop_entries_zero : (n : ℕ) (m : Entries Text) → n ≡ 0 → drop_entries n m ≡ m
unfolding drop_entries
drop_entries_zero zero m e = refl
drop_entries_zero (suc n) m e = absurd (omega arith)

erase_first :
    (k u : Text) (rest : Entries Text)
    → Distinct (keys ((k, u) ∷ rest))
    → erase ((k, u) ∷ rest) k ≡ rest
unfolding erase
erase_first k u rest d = rw (text_eq_refl k) (erase-absent rest k d.0)

module _ (max_entries : ℕ) where
  pub evict_rounds-Sound :
      (f : ℕ) (c : BlobUrlCache) → Sound c → Sound (evict_rounds max_entries f c)
  unfolding evict_rounds
  evict_rounds-Sound zero c s = s
  evict_rounds-Sound (suc f) c s = go c.urls (evict_rounds-Sound f)
    where
      go :
          (m : Entries Text)
          → ((c' : BlobUrlCache) → Sound c' → Sound (evict_rounds max_entries f c'))
          → Sound (elim m as (λ x. BlobUrlCache) [
            | [] ↦ c
            | (oldest, u) ∷ rest ↦
                if ltb max_entries (length c.urls)
                then evict_rounds max_entries f (invalidate_exact oldest c)
                else c
          ])
      go [] later = s
      go ((oldest, u) ∷ rest) later = elim (Bool-cases (ltb max_entries (length c.urls))) [
        | inl e ↦ rw e (later (invalidate_exact oldest c) (invalidate_exact-Sound oldest c s))
        | inr e ↦ rw e s
      ]

  pub evict_rounds-urls :
      (f : ℕ) (c : BlobUrlCache)
      → Distinct (keys c.urls)
      → length c.urls ≤ max_entries + f
      → (evict_rounds max_entries f c).urls ≡ drop_entries (length c.urls - max_entries) c.urls
  unfolding evict_rounds drop_entries
  evict_rounds-urls zero c d h =
      sym (drop_entries_zero (length c.urls - max_entries) c.urls (omega (arith, h)))
  evict_rounds-urls (suc f) c d h = go c.urls refl (evict_rounds-urls f)
    where
      go :
          (m : Entries Text)
          → c.urls ≡ m
          → ((c' : BlobUrlCache)
              → Distinct (keys c'.urls)
              → length c'.urls ≤ max_entries + f
              → (evict_rounds max_entries f c').urls
                ≡ drop_entries (length c'.urls - max_entries) c'.urls)
          → (elim m as (λ x. BlobUrlCache) [
            | [] ↦ c
            | (oldest, u) ∷ rest ↦
                if ltb max_entries (length c.urls)
                then evict_rounds max_entries f (invalidate_exact oldest c)
                else c
          ]).urls
            ≡ drop_entries (length c.urls - max_entries) c.urls
      go [] q later =
          sym (drop_entries_zero (length c.urls - max_entries) c.urls (omega (arith, ap length q)))
      go ((oldest, u) ∷ rest) q later = elim (Bool-cases (ltb max_entries (length c.urls))) [
        | inl e ↦
            let d' : Distinct (keys ((oldest, u) ∷ rest)) = subst (λ m. Distinct (keys m)) q d in
            let less : (invalidate_exact oldest c).urls ≡ rest =
              invalidate_exact-urls oldest c
              ∙ ap (λ m. erase m oldest) q
              ∙ erase_first oldest u rest d' in
            rw e (
              later (invalidate_exact oldest c) (subst (λ m. Distinct (keys m)) (sym less) d'.1)
                (omega (arith, h, ap length q, ap length less))
              ∙ ap (λ m. drop_entries (length m - max_entries) m) less
              ∙ sym (
                  ap (λ m. drop_entries (length m - max_entries) m) q
                  ∙ ap (λ n. drop_entries n ((oldest, u) ∷ rest))
                      (one_more (length rest) (ltb→lt _ _ e) (ap length q))))
        | inr e ↦
            rw e (sym (drop_entries_zero (length c.urls - max_entries) c.urls (ground (arith, e))))
      ]
        where
          one_more :
              (n : ℕ)
              → max_entries < length c.urls
              → length c.urls ≡ suc n
              → suc n - max_entries ≡ suc (n - max_entries)
          one_more n a b = omega (arith, a, b)

-- No path has two URLs, every URL that was created is held or was revoked, and not both nor twice,
-- and no more than the bound are held.
pub record Tidy (max_entries : ℕ) (c : BlobUrlCache) : Type 0 where
  pub distinct : Distinct (keys c.urls)
  pub accounted :
      (u : Text) → occurrences u c.created ≡ occurrences u (values c.urls) + occurrences u c.revoked
  pub bounded : length c.urls ≤ max_entries

module _ {Blob : Type 0} (create : ℕ → Blob → Text) (max_entries : ℕ) where
  pub put-urls :
      (path : Text) (blob : Blob) (c : BlobUrlCache)
      → (put create max_entries path blob c).urls
        ≡ erase c.urls (normalize_path path)
          ++ ((normalize_path path, create (length c.created) blob) ∷ [])
  unfolding put
  put-urls path blob c =
      ap (λ m. m ++ ((normalize_path path, create (length c.created) blob) ∷ []))
        (invalidate_exact-urls (normalize_path path) c)

  pub put-Sound :
      (path : Text) (blob : Blob) (c : BlobUrlCache)
      → Sound c
      → Sound (put create max_entries path blob c)
  unfolding put
  put-Sound path blob c s =
      let free = invalidate_exact (normalize_path path) c in
      let s' = invalidate_exact-Sound (normalize_path path) c s in
      let url = create (length c.created) blob in
      record {
        distinct = Distinct-snoc free.urls (normalize_path path) url s'.distinct (
            subst (λ m. ¬ In (normalize_path path) (keys m))
              (sym (invalidate_exact-urls (normalize_path path) c))
              (not-In-erase c.urls (normalize_path path)));
        accounted = λ u. omega (
          arith,
          s'.accounted u,
          occurrences-append u free.created (url ∷ []),
          occurrences-values_snoc u free.urls (normalize_path path) url,
        );
      }

-- In a cache that is tidy, setting a path keeps the most recent entries, as many as the bound allows: the
-- new one last, and the others in the order of their last use, less a previous one of the same path.
pub set-recency :
    {Blob : Type 0} (create : ℕ → Blob → Text) (max_entries : ℕ) (path : Text) (blob : Blob)
    (c : BlobUrlCache)
    → Tidy max_entries c
    → (set create max_entries path blob c).1.urls
      ≡ drop_entries (length (erase c.urls (normalize_path path)) + 1 - max_entries) (
          erase c.urls (normalize_path path)
          ++ ((normalize_path path, (set create max_entries path blob c).0) ∷ []))
unfolding set evict
set-recency create max_entries path blob c t =
    let p = put create max_entries path blob c in
    let url = create (length c.created) blob in
    evict_rounds-urls max_entries (length p.urls) p
      (put-Sound create max_entries path blob c
        (record { distinct = t.distinct; accounted = t.accounted })).distinct
      (omega arith)
    ∙ ap (λ m. drop_entries (length m - max_entries) m) (put-urls create max_entries path blob c)
    ∙ ap
        (λ n.
          drop_entries (n - max_entries)
            (erase c.urls (normalize_path path) ++ ((normalize_path path, url) ∷ [])))
        (length-append (erase c.urls (normalize_path path)) ((normalize_path path, url) ∷ []))
