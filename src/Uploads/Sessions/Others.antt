-- ===== src/Uploads/Sessions/Others.antt =====
-- What is left of the other sessions for a destination (removeOtherTusRecordsForDestPath of
-- web/src/local/tusSessions.ts).
use zfiles.Common.{
  ◌≡◌, ◌≢◌, refl, ◌∙◌, sym, subst, ◌↔◌, ◌⊎◌, inl, inr, true, false, List, [], ◌∷◌, Text, text_eq,
  text_eq_iff, text_eq_refl, filter, not, arith, In, In-filter, In-of_filter, Bool-cases,
}
use zfiles.Uploads.Sessions.Scopes.{ScopedStore, records_of}
use zfiles.Uploads.Sessions.{TusSessionRecord, save_scope, is_other, remove_other_tus_records}
use zfiles.Uploads.Sessions.Laws.{records_of-save_scope}

remove_other_tus_records-is_other :
    (scope_id dest keep : Text) (store : ScopedStore TusSessionRecord) (x : TusSessionRecord)
    → let after = remove_other_tus_records scope_id dest keep store in
      (In x (records_of after.1 scope_id)
        ↔ (In x (records_of store scope_id) × (is_other dest keep x ≡ false)))
      × (In x after.0 ↔ (In x (records_of store scope_id) × (is_other dest keep x ≡ true)))
      × ((other : Text) → other ≢ scope_id → records_of after.1 other ≡ records_of store other)
unfolding remove_other_tus_records
remove_other_tus_records-is_other scope_id dest keep store x =
    go (filter (is_other dest keep) (records_of store scope_id)) refl
  where
    rs : List TusSessionRecord
    rs = records_of store scope_id

    next : List TusSessionRecord
    next = filter (λ e. not (is_other dest keep e)) rs

    saved : records_of (save_scope store scope_id next) scope_id ≡ next
    saved =
        records_of-save_scope store scope_id scope_id next ∙ ground (arith, text_eq_refl scope_id)

    left :
        In x (records_of (save_scope store scope_id next) scope_id)
        ↔ (In x rs × (is_other dest keep x ≡ false))
    left = (
      λ i.
          let (j, g) =
            In-of_filter (λ e. not (is_other dest keep e)) rs (subst (λ l. In x l) saved i) in
          (j, ground (arith, g)),
      λ j.
          subst (λ l. In x l) (sym saved)
            (In-filter (λ e. not (is_other dest keep e)) rs j.0 (ground (arith, j.1))),
    )

    Says : List TusSessionRecord × ScopedStore TusSessionRecord → Type 0
    Says after =
        (In x (records_of after.1 scope_id) ↔ (In x rs × (is_other dest keep x ≡ false)))
        × (In x after.0 ↔ (In x rs × (is_other dest keep x ≡ true)))
        × ((other : Text) → other ≢ scope_id → records_of after.1 other ≡ records_of store other)

    go :
        (ys : List TusSessionRecord)
        → filter (is_other dest keep) rs ≡ ys
        → Says (elim ys [
          | [] ↦ ([], store)
          | z ∷ zs ↦
              (z ∷ zs, save_scope store scope_id (filter (λ e. not (is_other dest keep e)) rs))
        ])
    go [] e =
        let spared : In x rs → is_other dest keep x ≡ false = λ i.
          elim (Bool-cases (is_other dest keep x)) [
            | inl h ↦ absurd (subst (λ l. In x l) e (In-filter (is_other dest keep) rs i h))
            | inr h ↦ h
          ] in
        (
          (λ i. (i, spared i), λ j. j.0),
          (λ i. absurd i, λ j. subst (λ l. In x l) e (In-filter (is_other dest keep) rs j.0 j.1)),
          λ o ne. refl,
        )
    go (z ∷ zs) e = (
      left,
      (
        λ i. In-of_filter (is_other dest keep) rs (subst (λ l. In x l) (sym e) i),
        λ j. subst (λ l. In x l) e (In-filter (is_other dest keep) rs j.0 j.1),
      ),
      λ o ne. records_of-save_scope store scope_id o _ ∙ ground (arith, ne, text_eq_iff scope_id o),
    )

-- The test of the loop, in terms of the destination and of the id.
is_other_iff :
    (dest keep : Text) (x : TusSessionRecord)
    → (is_other dest keep x ≡ true) ↔ ((x.dest_path ≡ dest) × (x.upload_id ≢ keep))
unfolding is_other
is_other_iff dest keep x = (
  λ e. (
    (text_eq_iff x.dest_path dest).0 (ground (arith, e)),
    λ same. ground (arith, e, (text_eq_iff x.upload_id keep).1 same),
  ),
  λ h. elim (Bool-cases (text_eq x.upload_id keep)) [
    | inl same ↦ absurd (h.1 ((text_eq_iff x.upload_id keep).0 same))
    | inr diff ↦ rw ((text_eq_iff x.dest_path dest).1 h.0, diff) refl
  ],
)

-- A session is left in the scope where it was there before and is not one for the destination with
-- an id other than the kept one; the call returns exactly the sessions for the destination with an
-- id other than the kept one; and other scopes do not change.
pub remove_other_tus_records_lem :
    (scope_id dest keep : Text) (store : ScopedStore TusSessionRecord) (x : TusSessionRecord)
    → let after = remove_other_tus_records scope_id dest keep store in
      (In x (records_of after.1 scope_id)
        ↔ (In x (records_of store scope_id) × (x.dest_path ≢ dest ⊎ (x.upload_id ≡ keep))))
      × (In x after.0
          ↔ (In x (records_of store scope_id) × (x.dest_path ≡ dest) × (x.upload_id ≢ keep)))
      × ((other : Text) → other ≢ scope_id → records_of after.1 other ≡ records_of store other)
remove_other_tus_records_lem scope_id dest keep store x =
    let (left, dropped, elsewhere) = remove_other_tus_records-is_other scope_id dest keep store x in
    (
      (λ i. let (j, e) = left.0 i in (j, spared e), λ j. left.1 (j.0, kept j.1)),
      (
        λ i. let (j, e) = dropped.0 i in let (d, n) = (is_other_iff dest keep x).0 e in (j, d, n),
        λ (j, d, n). dropped.1 (j, (is_other_iff dest keep x).1 (d, n)),
      ),
      elsewhere,
    )
  where
    spared : is_other dest keep x ≡ false → (x.dest_path ≢ dest) ⊎ (x.upload_id ≡ keep)
    spared e = elim (Bool-cases (text_eq x.upload_id keep)) [
      | inl same ↦ inr ((text_eq_iff x.upload_id keep).0 same)
      | inr diff ↦ inl (λ d. ground (
        arith,
        e,
        (is_other_iff dest keep x).1
            (d, (λ same. ground (arith, diff, (text_eq_iff x.upload_id keep).1 same))),
      ))
    ]

    kept : (x.dest_path ≢ dest) ⊎ (x.upload_id ≡ keep) → is_other dest keep x ≡ false
    kept h = elim (Bool-cases (is_other dest keep x)) [
      | inr e ↦ e
      | inl e ↦
          let (d, n) = (is_other_iff dest keep x).0 e in
          elim h [ inl nd ↦ absurd (nd d) | inr same ↦ absurd (n same) ]
    ]
