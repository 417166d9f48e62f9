-- ===== src/BrowserFs/Store/Invariant/Files.antt =====
-- Storing a file, new or in place of another, keeps the tree well formed.
use zfiles.Common.{
  ℕ, suc, ◌<◌, ◌≡◌, ap, ◌∙◌, sym, subst, ◌≢◌, ◌⊎◌, inl, inr, Bool, true, false, Option, none, some,
  Text, text_eq, text_eq_iff, text_eq_refl, arith, Bool-cases, if◌then◌else◌,
}
use zfiles.BrowserFs.Paths.{path_parent, path_name}
use zfiles.BrowserFs.Store.Types.{Node, Blob, BlobRecord, Platform, Db}
use zfiles.BrowserFs.Store.Requests.{get_node}
use zfiles.BrowserFs.Store.Operations.{blob_size}
use zfiles.BrowserFs.Store.Invariant.{IsPath, get_record, IsFolder, IsPlaced, WellFormed}

-- Whether the contents stored under an id are those that the write clears away.
abbrev pub is_old : Option Text → Text → Bool
is_old none k = false
is_old (some o) k = text_eq o k

is_old→eq : (old : Option Text) (k : Text) → is_old old k ≡ true → old ≡ some k
is_old→eq none k h = cc
is_old→eq (some o) k h = ap some ((text_eq_iff o k).0 h)

module _ (P : Platform) (db after : Db P) (path : Text) (old : Option Text) (new : Node)
    (blob : Blob) where
  abbrev id : Text
  id = P.create_id db.issued

  -- What a write does to the two object stores: one node, one blob, and the old blob gone.
  pub record Writes : Type 0 where
    pub nodes :
        (k : Text) → get_node P after k ≡ (if text_eq path k then some new else get_node P db k)
    pub blobs :
        (k : Text)
        → get_record P after k ≡ (
            if text_eq id k
            then some (record { id = id; blob = blob })
            else if is_old old k
            then none
            else get_record P db k)
    pub issued : after.issued ≡ suc db.issued
    pub new_file : (new.is_dir ≡ false) × (new.blob_id ≡ some id) × (new.size ≡ blob_size blob)
    pub new_place : (new.parent ≡ path_parent path) × (new.name ≡ path_name path)
    -- A node that is replaced is a file, and its contents are the old ones.
    pub replaced : (n : Node) → get_node P db path ≡ some n → (n.is_dir ≡ false) × (n.blob_id ≡ old)
    pub owner :
        (o : Text)
        → old ≡ some o
        → (n : Node) × (get_node P db path ≡ some n) × (n.blob_id ≡ some o)

  module _ (w : WellFormed P db) (wr : Writes) where
    -- The new id is in use nowhere.
    unused : (r : BlobRecord) → get_record P db id ≢ some r
    unused r e =
        let (i, lt, q) = w.fresh id r e in omega (arith, P.create_id-injective db.issued i q, lt)

    contents_of :
        (p : Text) (n : Node) (k : Text)
        → get_node P db p ≡ some n
        → n.blob_id ≡ some k
        → (r : BlobRecord) × (get_record P db k ≡ some r)
    contents_of p n k e b = elim (Bool-cases n.is_dir) [
      | inl d ↦ cc (b, (w.placed p n e).empty d)
      | inr f ↦
          let (j, r, q, _, h, _) = (w.placed p n e).stored f in
          let same : j ≡ k = cc in (r, subst (λ i. get_record P db i ≡ some r) same h)
    ]

    IsFolder-after : (k : Text) → IsFolder P db k → IsFolder P after k
    IsFolder-after k (inl e) = inl e
    IsFolder-after k (inr (d, e, t)) =
        inr (d, ground (arith, wr.nodes k, text_eq_iff path k, wr.replaced d), t)

    new_id-differs : (k : Text) (r : BlobRecord) → get_record P db k ≡ some r → text_eq id k ≡ false
    new_id-differs k r h = elim (Bool-cases (text_eq id k)) [
      | inl e ↦
          absurd
            (unused r (subst (λ i. get_record P db i ≡ some r) (sym ((text_eq_iff id k).0 e)) h))
      | inr e ↦ e
    ]

    -- Contents that a node of before names are, at another path, not the old ones.
    not_old :
        (p : Text) (n : Node) (k : Text)
        → get_node P db p ≡ some n
        → n.blob_id ≡ some k
        → text_eq path p ≡ false
        → is_old old k ≡ false
    not_old p n k e b away = elim (Bool-cases (is_old old k)) [
      | inl h ↦
          let (m, em, bm) = wr.owner k (is_old→eq old k h) in
          cc (away, (text_eq_iff path p).1 (w.unshared path p m n k em e bm b))
      | inr h ↦ h
    ]

    pub kept_record :
        (p : Text) (n : Node) (k : Text) (r : BlobRecord)
        → get_node P db p ≡ some n
        → n.blob_id ≡ some k
        → text_eq path p ≡ false
        → get_record P db k ≡ some r
        → get_record P after k ≡ some r
    kept_record p n k r e b away h =
        ground (arith, wr.blobs k, new_id-differs k r h, not_old p n k e b away, h)

    node-cases :
        (p : Text) (n : Node)
        → get_node P after p ≡ some n
        → ((p ≡ path) × (n ≡ new)) ⊎ ((get_node P db p ≡ some n) × (text_eq path p ≡ false))
    node-cases p n e = ground (arith, wr.nodes p, text_eq_iff path p)

    IsPlaced-after :
        (p : Text) (n : Node)
        → get_node P db p ≡ some n
        → text_eq path p ≡ false
        → IsPlaced P after p n
    IsPlaced-after p n e away =
        let h = w.placed p n e in
        record {
          path = h.path;
          parent = h.parent;
          name = h.name;
          folder = IsFolder-after (path_parent p) h.folder;
          empty = h.empty;
          stored = λ f.
              let (k, r, b, ne, at, size) = h.stored f in
              (k, r, b, ne, kept_record p n k r e b away at, size);
        }

    IsPlaced-new : IsPath path → IsFolder P db (path_parent path) → IsPlaced P after path new
    IsPlaced-new is up = record {
      path = is;
      parent = wr.new_place.0;
      name = wr.new_place.1;
      folder = IsFolder-after (path_parent path) up;
      empty = λ d. cc (d, wr.new_file.0);
      stored = λ f. (
        id,
        record { id = id; blob = blob },
        wr.new_file.1,
        P.create_id-ne-nil db.issued,
        ground (arith, wr.blobs id, text_eq_refl id),
        wr.new_file.2,
      );
    }

    -- The new id is that of no node that was there.
    not_new : (p : Text) (n : Node) → get_node P db p ≡ some n → n.blob_id ≡ some id → ⊥
    not_new p n e b = let (r, h) = contents_of p n id e b in unused r h

    unshared_after :
        (p q : Text) (n m : Node) (k : Text)
        → get_node P after p ≡ some n
        → get_node P after q ≡ some m
        → n.blob_id ≡ some k
        → m.blob_id ≡ some k
        → p ≡ q
    unshared_after p q n m k e f b c = elim (node-cases p n e) [
      | inl (at, isnew) ↦ elim (node-cases q m f) [
        | inl (at', isnew') ↦ at ∙ sym at'
        | inr (g, away) ↦
            absurd (not_new q m g (c ∙ sym b ∙ ap (λ (x : Node). x.blob_id) isnew ∙ wr.new_file.1))
      ]
      | inr (g, away) ↦ elim (node-cases q m f) [
        | inl (at', isnew') ↦
            absurd (not_new p n g (b ∙ sym c ∙ ap (λ (x : Node). x.blob_id) isnew' ∙ wr.new_file.1))
        | inr (g', away') ↦ w.unshared p q n m k g g' b c
      ]
    ]

    -- The owner of contents that are left is not the node that was replaced.
    still_there :
        (p : Text) (n : Node) (k : Text) (r : BlobRecord)
        → get_node P db p ≡ some n
        → n.blob_id ≡ some k
        → text_eq id k ≡ false
        → get_record P after k ≡ some r
        → get_node P after p ≡ some n
    still_there p n k r h b differ e = elim (Bool-cases (text_eq path p)) [
      | inl same ↦
          let at : get_node P db path ≡ some n = rw ((text_eq_iff path p).0 same) h in
          let was : old ≡ some k = sym (wr.replaced n at).1 ∙ b in
          let gone : is_old old k ≡ true = rw was (text_eq_refl k) in
          let no_record : get_record P after k ≡ none = ground (arith, wr.blobs k, differ, gone) in
          cc (no_record, e)
      | inr away ↦ ground (arith, wr.nodes p, away, h)
    ]

    owned_after :
        (k : Text) (r : BlobRecord)
        → get_record P after k ≡ some r
        → (p : Text) × (n : Node) × (get_node P after p ≡ some n) × (n.blob_id ≡ some k)
    owned_after k r e = elim (Bool-cases (text_eq id k)) [
      | inl same ↦ (
        path,
        new,
        ground (arith, wr.nodes path, text_eq_refl path),
        wr.new_file.1 ∙ ap some ((text_eq_iff id k).0 same),
      )
      | inr differ ↦
          let (p, n, h, b) = w.owned k r (ground (arith, wr.blobs k)) in
          (p, n, still_there p n k r h b differ e, b)
    ]

    fresh_after :
        (k : Text) (r : BlobRecord)
        → get_record P after k ≡ some r
        → (i : ℕ) × (i < after.issued) × (k ≡ P.create_id i)
    fresh_after k r e = elim (Bool-cases (text_eq id k)) [
      | inl same ↦ (db.issued, omega (arith, wr.issued), sym ((text_eq_iff id k).0 same))
      | inr differ ↦
          let (i, lt, q) = w.fresh k r (ground (arith, wr.blobs k)) in
          (i, omega (arith, wr.issued, lt), q)
    ]

    pub Writes-WellFormed : IsPath path → IsFolder P db (path_parent path) → WellFormed P after
    Writes-WellFormed is up = record {
      placed = λ p n e. elim (node-cases p n e) [
        | inl (at, isnew) ↦ rw (at, isnew) (IsPlaced-new is up)
        | inr (old_at, away) ↦ IsPlaced-after p n old_at away
      ];
      unshared = unshared_after;
      owned = owned_after;
      fresh = fresh_after;
    }
