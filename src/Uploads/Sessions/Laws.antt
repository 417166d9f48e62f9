-- ===== src/Uploads/Sessions/Laws.antt =====
-- What the records of unfinished uploads keep to.
use zfiles.Common.{
  ℕ, ◌≤◌, ◌*◌, ◌≡◌, ◌≢◌, refl, ap, ◌∙◌, sym, subst, inl, inr, Bool, true, false, List, [], ◌∷◌,
  ◌++◌, some, Text, text_eq, text_eq_iff, text_eq_refl, filter, if◌then◌else◌, arith, find, map,
  Distinct, In, In-of_filter, Bool-cases, find-holds,
}
use zfiles.Uploads.Sessions.Scopes.{
  ScopedStore, records_of, set_scope, records_of-set_scope, records_of-delete_scope,
}
use zfiles.Uploads.Sessions.{
  MultipartSessionRecord, compute_multipart_part_size, save_scope, find_multipart_record,
  upsert_multipart_record, is_unrelated,
}

-- Ten thousand parts of the computed size hold the file, and no part is smaller than S3 allows.
pub compute_multipart_part_size-bounds :
    (n : ℕ)
    → (n ≤ 10000 * compute_multipart_part_size n) × (5242880 ≤ compute_multipart_part_size n)
unfolding compute_multipart_part_size
compute_multipart_part_size-bounds n = ground arith

module _ {R : Type 0} where
  find-append :
      (p : R → Bool) (xs ys : List R)
      → ((r : R) → In r xs → p r ≡ false)
      → find p (xs ++ ys) ≡ find p ys
  find-append p [] ys h = refl
  find-append p (x ∷ xs) ys h = rw (h x (inl refl)) (find-append p xs ys λ r i. h r (inr i))

  find_found :
      (p q : R → Bool) (xs ys : List R) (r : R)
      → find p xs ≡ some r
      → q r ≡ true
      → find p (filter q xs ++ ys) ≡ some r
  find_found p q [] ys r e h = cc
  find_found p q (x ∷ xs) ys r e h = ground (arith, find_found p q xs ys r)

  pub records_of-save_scope :
      (store : ScopedStore R) (s t : Text) (rs : List R)
      → records_of (save_scope store s rs) t ≡ (if text_eq s t then rs else records_of store t)
  unfolding save_scope
  records_of-save_scope store s t [] = records_of-delete_scope store s t
  records_of-save_scope store s t (r ∷ rs) = records_of-set_scope store s t (r ∷ rs)

-- The record just saved is found under its id. Every other id that was found, for another object,
-- is found as before, and other scopes do not change.
pub find_multipart_record-upsert_multipart_record :
    (scope_id : Text) (r : MultipartSessionRecord) (store : ScopedStore MultipartSessionRecord)
    → let after = upsert_multipart_record scope_id r store in
      (find_multipart_record after scope_id r.upload_id ≡ some r)
      × ((u : Text) (e : MultipartSessionRecord)
          → u ≢ r.upload_id
          → e.object_key ≢ r.object_key
          → find_multipart_record store scope_id u ≡ some e
          → find_multipart_record after scope_id u ≡ some e)
      × ((other u : Text)
          → other ≢ scope_id
          → find_multipart_record after other u ≡ find_multipart_record store other u)
unfolding find_multipart_record upsert_multipart_record is_unrelated
find_multipart_record-upsert_multipart_record scope_id r store = (
  rw (records_of-set_scope store scope_id scope_id next, text_eq_refl scope_id) found,
  λ u e nu diff h.
      rw (records_of-set_scope store scope_id scope_id next, text_eq_refl scope_id)
        (kept u e nu diff h),
  λ other u ne. elsewhere other u ne,
)
  where
    next : List MultipartSessionRecord
    next = filter (is_unrelated r) (records_of store scope_id) ++ (r ∷ [])

    named : Text → MultipartSessionRecord → Bool
    named u entry = text_eq entry.upload_id u

    found : find (named r.upload_id) next ≡ some r
    found =
        find-append (named r.upload_id) (filter (is_unrelated r) (records_of store scope_id))
          (r ∷ [])
          (λ x i. ground (arith, (In-of_filter (is_unrelated r) (records_of store scope_id) i).1))
        ∙ rw (text_eq_refl r.upload_id) refl

    kept :
        (u : Text) (e : MultipartSessionRecord)
        → u ≢ r.upload_id
        → e.object_key ≢ r.object_key
        → find (named u) (records_of store scope_id) ≡ some e
        → find (named u) next ≡ some e
    kept u e nu diff h =
        let (_, g) = find-holds (named u) (records_of store scope_id) e h in
        find_found (named u) (is_unrelated r) (records_of store scope_id) (r ∷ []) e h (
          ground (
            arith,
            (text_eq_iff e.upload_id u).0 g,
            text_eq_iff e.upload_id r.upload_id,
            text_eq_iff e.object_key r.object_key,
          ))

    elsewhere :
        (other u : Text)
        → other ≢ scope_id
        → find (named u) (records_of (set_scope store scope_id next) other)
          ≡ find (named u) (records_of store other)
    elsewhere other u ne = ap (find (named u)) (
        records_of-set_scope store scope_id other next
        ∙ ground (arith, ne, text_eq_iff scope_id other))

-- Within a scope no two records have the same upload id, and none the same object.
unfoldable pub IsKeyed : List MultipartSessionRecord → Type 0
IsKeyed rs = Distinct (map (λ r. r.upload_id) rs) × Distinct (map (λ r. r.object_key) rs)

module _ {R : Type 0} (key : R → Text) where
  In-map-filter :
      (p : R → Bool) (xs : List R) (k : Text) → In k (map key (filter p xs)) → In k (map key xs)
  In-map-filter p (x ∷ xs) k i = elim (Bool-cases (p x)) [
    | inl h ↦ elim (rw h at i) [ inl e ↦ inl e | inr j ↦ inr (In-map-filter p xs k j) ]
    | inr h ↦ inr (In-map-filter p xs k (rw h at i))
  ]
  In-map-filter p [] k i = absurd i

  Distinct-filter :
      (p : R → Bool) (xs : List R) → Distinct (map key xs) → Distinct (map key (filter p xs))
  Distinct-filter p [] d = tt
  Distinct-filter p (x ∷ xs) d = elim (Bool-cases (p x)) [
    | inl h ↦ rw h (λ i. d.0 (In-map-filter p xs (key x) i), Distinct-filter p xs d.1)
    | inr h ↦ rw h (Distinct-filter p xs d.1)
  ]

  not-In-snoc :
      (xs : List R) (k : Text) (r : R)
      → ¬ In k (map key xs)
      → k ≢ key r
      → ¬ In k (map key (xs ++ (r ∷ [])))
  not-In-snoc [] k r h ne (inl e) = ne (sym e)
  not-In-snoc [] k r h ne (inr i) = i
  not-In-snoc (x ∷ xs) k r h ne (inl e) = h (inl e)
  not-In-snoc (x ∷ xs) k r h ne (inr i) = not-In-snoc xs k r (λ j. h (inr j)) ne i

  Distinct-snoc :
      (xs : List R) (r : R)
      → ((x : R) → In x xs → key x ≢ key r)
      → Distinct (map key xs)
      → Distinct (map key (xs ++ (r ∷ [])))
  Distinct-snoc [] r h d = (λ i. i, tt)
  Distinct-snoc (x ∷ xs) r h d = (
    not-In-snoc xs (key x) r d.0 (λ e. h x (inl refl) e),
    Distinct-snoc xs r (λ y i. h y (inr i)) d.1,
  )

-- Saving a record leaves the records of every scope distinct by upload id and by object.
pub upsert_multipart_record-IsKeyed :
    (scope_id : Text) (r : MultipartSessionRecord) (store : ScopedStore MultipartSessionRecord)
    → ((s : Text) → IsKeyed (records_of store s))
    → (s : Text) → IsKeyed (records_of (upsert_multipart_record scope_id r store) s)
unfolding upsert_multipart_record is_unrelated IsKeyed
upsert_multipart_record-IsKeyed scope_id r store h s =
    subst (λ xs. IsKeyed xs) (sym (records_of-set_scope store scope_id s next))
      (elim (Bool-cases (text_eq scope_id s)) [
        | inl e ↦ rw e (
          Distinct-snoc (λ x. x.upload_id) old r
              (λ x i e. ground (arith, (apart x i).0, e, text_eq_iff x.upload_id r.upload_id))
              (Distinct-filter (λ x. x.upload_id) (is_unrelated r) (records_of store scope_id)
                (h scope_id).0),
          Distinct-snoc (λ x. x.object_key) old r
              (λ x i e. ground (arith, (apart x i).1, e, text_eq_iff x.object_key r.object_key))
              (Distinct-filter (λ x. x.object_key) (is_unrelated r) (records_of store scope_id)
                (h scope_id).1),
        )
        | inr e ↦ rw e (h s)
      ])
  where
    old : List MultipartSessionRecord
    old = filter (is_unrelated r) (records_of store scope_id)

    next : List MultipartSessionRecord
    next = old ++ (r ∷ [])

    apart :
        (x : MultipartSessionRecord)
        → In x old
        → (text_eq x.upload_id r.upload_id ≡ false) × (text_eq x.object_key r.object_key ≡ false)
    apart x i =
        let g = (In-of_filter (is_unrelated r) (records_of store scope_id) i).1 in
        (ground (arith, g), ground (arith, g))
