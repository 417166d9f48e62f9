-- ===== src/Uploads/Queue/Flight/Updates.antt =====
-- The items in flight after a change of the list of items.
use zfiles.Common.{
  ℕ, ◌≡◌, refl, ap, ◌∙◌, sym, subst, Bool, true, false, List, [], ◌∷◌, Option, none, some, Text,
  text_eq, text_eq_iff, if◌then◌else◌, arith, lookup, assign, lookup-assign, lookup-erase,
  Bool-cases, In, inl, inr, ◌⊎◌,
}
use zfiles.Uploads.Queue.Items.{UploadQueueItem, is_in_flight}
use zfiles.Uploads.Queue.Progress.{should_commit_progress_ui}
use zfiles.Uploads.Queue.State.{
  Queue, update_where, clear_progress_flush, commit_progress_item, show_item, flush_progress,
  update, find_item,
}
use zfiles.Uploads.Queue.Flight.{IsOnly}

-- An updated list holds the old items that have another id, and the updated ones.
In-update_where :
    (id : Text) (f : UploadQueueItem → UploadQueueItem) (items : List UploadQueueItem)
    (x : UploadQueueItem)
    → In x (update_where id f items)
    → (In x items × (text_eq x.id id ≡ false))
      ⊎ ((y : UploadQueueItem) × In y items × (y.id ≡ id) × (f y ≡ x))
unfolding update_where
In-update_where id f [] x i = absurd i
In-update_where id f (y ∷ ys) x (inl e) = elim (Bool-cases (text_eq y.id id)) [
  | inl h ↦ inr (y, inl refl, (text_eq_iff y.id id).0 h, ground (arith, e))
  | inr h ↦
      let same : y ≡ x = ground (arith, e) in
      inl (inl same, subst (λ (z : UploadQueueItem). text_eq z.id id ≡ false) same h)
]
In-update_where id f (y ∷ ys) x (inr i) = elim (In-update_where id f ys x i) [
  | inl (j, h) ↦ inl (inr j, h)
  | inr (z, j, h, e) ↦ inr (z, inr j, h, e)
]

pub In-find_item :
    (id : Text) (items : List UploadQueueItem) (x : UploadQueueItem)
    → find_item id items ≡ some x
    → In x items × (x.id ≡ id)
unfolding find_item
In-find_item id [] x e = cc
In-find_item id (y ∷ ys) x e = elim (Bool-cases (text_eq y.id id)) [
  | inl h ↦
      let same : y ≡ x = ground (arith, e) in
      (inl same, subst (λ (z : UploadQueueItem). z.id ≡ id) same ((text_eq_iff y.id id).0 h))
  | inr h ↦ let (j, g) = In-find_item id ys x (ground (arith, e)) in (inr j, g)
]

module _ (Ok Ok' : Text → Type 0) (id : Text) (q : Queue) (o : IsOnly Ok q)
    (other : (k : Text) → Ok k → text_eq id k ≡ false → Ok' k) where
  -- An update of one item, whose display no longer waits, where the others may stay.
  pub update-IsOnly :
      (f : UploadQueueItem → UploadQueueItem)
      → ((y : UploadQueueItem)
          → In y q.items
          → y.id ≡ id
          → is_in_flight (f y).status ≡ true
          → Ok' (f y).id)
      → IsOnly Ok' (update id f (clear_progress_flush id q))
  unfolding clear_progress_flush
  update-IsOnly f h = record {
    flying = λ x i e. elim (In-update_where id f q.items x i) [
      | inl (j, away) ↦
          other x.id (o.flying x j e)
            (ground (arith, away, text_eq_iff x.id id, text_eq_iff id x.id))
      | inr (y, j, same, g) ↦
          subst (λ (z : UploadQueueItem). Ok' z.id) g
            (h y j same (subst (λ (z : UploadQueueItem). is_in_flight z.status ≡ true) (sym g) e))
    ];
    waiting = λ k x e. elim (Bool-cases (text_eq id k)) [
      | inl same ↦ cc (
        e,
        lookup-erase q.pending_progress id k,
        ap (λ b. if b then none else lookup q.pending_progress k) same,
      )
      | inr away ↦
          let (ok, named) = o.waiting k x (
            sym (
              lookup-erase q.pending_progress id k
              ∙ ap (λ b. if b then none else lookup q.pending_progress k) away)
            ∙ e) in
          (other k ok away, named)
    ];
  }

  pub show_item-IsOnly :
      (now : ℕ) (updated : UploadQueueItem)
      → (is_in_flight updated.status ≡ true → Ok' updated.id)
      → IsOnly Ok' (show_item now id updated (clear_progress_flush id q))
  unfolding show_item
  show_item-IsOnly now updated h =
      let r = update-IsOnly (λ y. updated) (λ y i e. h) in
      record { flying = r.flying; waiting = r.waiting }

  -- A forced display never waits.
  pub commit_forced-IsOnly :
      (now : ℕ) (updated : UploadQueueItem)
      → (is_in_flight updated.status ≡ true → Ok' updated.id)
      → IsOnly Ok' (commit_progress_item now id updated true q)
  unfolding commit_progress_item
  commit_forced-IsOnly now updated h =
      subst
        (λ b. IsOnly Ok' (
          if b
          then show_item now id updated (clear_progress_flush id q)
          else record q { pending_progress = assign q.pending_progress id updated }))
        (sym (forced (lookup q.last_progress_ui_at id))) (show_item-IsOnly now updated h)
    where
      forced : (last : Option ℕ) → should_commit_progress_ui last now true ≡ true
      forced none = unfold should_commit_progress_ui in refl
      forced (some l) = unfold should_commit_progress_ui in refl

module _ (Ok : Text → Type 0) (id : Text) (q : Queue) (o : IsOnly Ok q) where
  pub update_plain-IsOnly :
      (f : UploadQueueItem → UploadQueueItem)
      → ((y : UploadQueueItem)
          → In y q.items
          → y.id ≡ id
          → is_in_flight (f y).status ≡ true
          → Ok (f y).id)
      → IsOnly Ok (update id f q)
  update_plain-IsOnly f h = record {
    flying = λ x i e. elim (In-update_where id f q.items x i) [
      | inl (j, away) ↦ o.flying x j e
      | inr (y, j, same, g) ↦
          subst (λ (z : UploadQueueItem). Ok z.id) g
            (h y j same (subst (λ (z : UploadQueueItem). is_in_flight z.status ≡ true) (sym g) e))
    ];
    waiting = o.waiting;
  }

  -- The display of an item may wait where the item may be in flight.
  pub commit_progress_item-IsOnly :
      (now : ℕ) (updated : UploadQueueItem) (force : Bool)
      → Ok id
      → updated.id ≡ id
      → IsOnly Ok (commit_progress_item now id updated force q)
  unfolding commit_progress_item
  commit_progress_item-IsOnly now updated force ok e =
      elim (Bool-cases (should_commit_progress_ui (lookup q.last_progress_ui_at id) now force)) [
        | inl h ↦
            rw h (show_item-IsOnly Ok Ok id q o (λ k y _. y) now updated (λ _. subst Ok (sym e) ok))
        | inr h ↦ rw h record {
          flying = o.flying;
          waiting = λ k x g. elim (Bool-cases (text_eq id k)) [
            | inl same ↦
                let there : updated ≡ x =
                  ground (arith, g, lookup-assign q.pending_progress id k updated, same) in
                (
                  subst Ok ((text_eq_iff id k).0 same) ok,
                  subst (λ (z : UploadQueueItem). z.id ≡ k) there (e ∙ (text_eq_iff id k).0 same),
                )
            | inr away ↦
                o.waiting k x
                  (ground (arith, g, lookup-assign q.pending_progress id k updated, away))
          ];
        }
      ]

  pub flush_progress-IsOnly : (now : ℕ) → IsOnly Ok (flush_progress now id q)
  unfolding flush_progress
  flush_progress-IsOnly now = go (lookup q.pending_progress id) refl
    where
      go :
          (found : Option UploadQueueItem)
          → lookup q.pending_progress id ≡ found
          → IsOnly Ok (elim found [
            | none ↦ q
            | some waiting ↦ show_item now id waiting (clear_progress_flush id q)
          ])
      go none e = o
      go (some x) e =
          let (ok, named) = o.waiting id x e in
          show_item-IsOnly Ok Ok id q o (λ k y _. y) now x (λ _. subst Ok (sym named) ok)
