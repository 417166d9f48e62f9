-- ===== src/BrowserFs/Store/Invariant/Removal.antt =====
-- Deleting a set of nodes that is closed downwards keeps the tree well formed.
use zfiles.Common.{
  ◌≡◌, refl, ap, sym, subst, inl, inr, Bool, true, false, List, [], ◌∷◌, Option, none, some, Text,
  is_empty, text_eq, text_eq_iff, arith, Bool-cases, if◌then◌else◌, any, In,
}
use zfiles.BrowserFs.Paths.{path_parent}
use zfiles.BrowserFs.Store.Types.{Node, BlobRecord, Platform, Db, truthy}
use zfiles.BrowserFs.Store.Requests.{get_node, delete_entry, delete_entries}
use zfiles.BrowserFs.Store.Invariant.{get_record, IsFolder, IsPlaced, WellFormed}
use zfiles.BrowserFs.Store.Invariant.Files.{is_old}

-- Whether an entry stands at a path, and whether it has the contents stored under an id.
abbrev pub at_path : Text → Node → Bool
at_path k e = text_eq e.path k

abbrev pub owns : Text → Node → Bool
owns id e = is_old (truthy e.blob_id) id

pub any→In :
    {A : Type 0} (p : A → Bool) (xs : List A) → any p xs ≡ true → (a : A) × In a xs × (p a ≡ true)
any→In p [] h = cc
any→In p (x ∷ xs) h = elim (Bool-cases (p x)) [
  | inl e ↦ (x, inl refl, e)
  | inr e ↦ let (a, i, q) = any→In p xs (rw e at h) in (a, inr i, q)
]

pub In→any :
    {A : Type 0} (p : A → Bool) (xs : List A) (a : A) → In a xs → p a ≡ true → any p xs ≡ true
In→any p [] a i h = absurd i
In→any p (x ∷ xs) a (inl e) h = let px : p x ≡ true = subst (λ y. p y ≡ true) (sym e) h in rw px
In→any p (x ∷ xs) a (inr i) h = ground (arith, In→any p xs a i h)

truthy-eq : (o : Option Text) (id : Text) → is_old (truthy o) id ≡ true → o ≡ some id
truthy-eq none id h = cc
truthy-eq (some []) id h = cc
truthy-eq (some (c ∷ s)) id h = ap some ((text_eq_iff (c ∷ s) id).0 h)

pub eq-truthy :
    (o : Option Text) (id : Text) → o ≡ some id → is_empty id ≡ false → is_old (truthy o) id ≡ true
eq-truthy none id e h = cc
eq-truthy (some []) [] e h = cc
eq-truthy (some []) (c ∷ s) e h = cc
eq-truthy (some (c ∷ s)) id e h = (text_eq_iff (c ∷ s) id).1 (cc)

module _ (P : Platform) where
  get_record-delete_entry :
      (e : Node) (db : Db P) (k : Text)
      → get_record P (delete_entry P e db) k ≡ (if owns k e then none else get_record P db k)
  unfolding delete_entry
  get_record-delete_entry e db k = go (truthy e.blob_id) refl
    where
      go :
          (o : Option Text)
          → truthy e.blob_id ≡ o
          → get_record P (delete_entry P e db) k ≡ (if owns k e then none else get_record P db k)
      go none q = ground (arith, q)
      go (some id) q = ground (arith, q, P.Blobs.get-delete db.blobs id k)

  pub get_node-delete_entries :
      (es : List Node) (db : Db P) (k : Text)
      → get_node P (delete_entries P es db) k
        ≡ (if any (at_path k) es then none else get_node P db k)
  unfolding delete_entries delete_entry
  get_node-delete_entries [] db k = refl
  get_node-delete_entries (e ∷ es) db k = ground (
    arith,
    get_node-delete_entries es (delete_entry P e db) k,
    P.Nodes.get-delete db.nodes e.path k,
  )

  pub get_record-delete_entries :
      (es : List Node) (db : Db P) (k : Text)
      → get_record P (delete_entries P es db) k
        ≡ (if any (owns k) es then none else get_record P db k)
  unfolding delete_entries
  get_record-delete_entries [] db k = refl
  get_record-delete_entries (e ∷ es) db k =
      ground (
        arith,
        get_record-delete_entries es (delete_entry P e db) k,
        get_record-delete_entry e db k,
      )

  issued-delete_entries : (es : List Node) (db : Db P) → (delete_entries P es db).issued ≡ db.issued
  unfolding delete_entries delete_entry
  issued-delete_entries [] db = refl
  issued-delete_entries (e ∷ es) db = issued-delete_entries es (delete_entry P e db)

-- The entries of a deletion: nodes that stand where they say, with all that is below them.
pub record IsClosed (P : Platform) (db : Db P) (es : List Node) : Type 0 where
  pub standing : (e : Node) → In e es → get_node P db e.path ≡ some e
  pub downwards :
      (p : Text) (n : Node)
      → get_node P db p ≡ some n
      → any (at_path (path_parent p)) es ≡ true
      → any (at_path p) es ≡ true

module _ (P : Platform) (db : Db P) (es : List Node) (w : WellFormed P db)
    (c : IsClosed P db es) where
  abbrev after : Db P
  after = delete_entries P es db

  -- What is left was there, and its path is not deleted.
  left :
      (p : Text) (n : Node)
      → get_node P after p ≡ some n
      → (get_node P db p ≡ some n) × (any (at_path p) es ≡ false)
  left p n e = ground (arith, get_node-delete_entries P es db p)

  left_record :
      (k : Text) (r : BlobRecord)
      → get_record P after k ≡ some r
      → (get_record P db k ≡ some r) × (any (owns k) es ≡ false)
  left_record k r e = ground (arith, get_record-delete_entries P es db k)

  -- Contents of a node that is left belong to no entry.
  owns_left :
      (p : Text) (n : Node) (k : Text)
      → get_node P db p ≡ some n
      → any (at_path p) es ≡ false
      → n.blob_id ≡ some k
      → any (owns k) es ≡ false
  owns_left p n k e away b = elim (Bool-cases (any (owns k) es)) [
    | inl h ↦
        let (d, i, q) = any→In (owns k) es h in
        let same = w.unshared d.path p d n k (c.standing d i) e (truthy-eq d.blob_id k q) b in
        cc (away, In→any (at_path p) es d i ((text_eq_iff d.path p).1 same))
    | inr h ↦ h
  ]

  IsFolder-left : (k : Text) → IsFolder P db k → any (at_path k) es ≡ false → IsFolder P after k
  IsFolder-left k (inl e) away = inl e
  IsFolder-left k (inr (d, e, t)) away =
      inr (d, ground (arith, get_node-delete_entries P es db k), t)

  parent-left :
      (p : Text) (n : Node)
      → get_node P db p ≡ some n
      → any (at_path p) es ≡ false
      → any (at_path (path_parent p)) es ≡ false
  parent-left p n e away = elim (Bool-cases (any (at_path (path_parent p)) es)) [
    | inl h ↦ cc (away, c.downwards p n e h)
    | inr h ↦ h
  ]

  IsPlaced-left :
      (p : Text) (n : Node)
      → get_node P db p ≡ some n
      → any (at_path p) es ≡ false
      → IsPlaced P after p n
  IsPlaced-left p n e away =
      let h = w.placed p n e in
      record {
        path = h.path;
        parent = h.parent;
        name = h.name;
        folder = IsFolder-left (path_parent p) h.folder (parent-left p n e away);
        empty = h.empty;
        stored = λ f.
            let (k, r, b, ne, at, size) = h.stored f in
            (
              k,
              r,
              b,
              ne,
              ground (arith, get_record-delete_entries P es db k, owns_left p n k e away b, at),
              size,
            );
      }

  pub id-nonempty :
      (p : Text) (n : Node) (k : Text)
      → get_node P db p ≡ some n
      → n.blob_id ≡ some k
      → is_empty k ≡ false
  id-nonempty p n k e b = elim (Bool-cases n.is_dir) [
    | inl d ↦ cc (b, (w.placed p n e).empty d)
    | inr f ↦
        let (j, r, q, ne, _, _) = (w.placed p n e).stored f in
        let same : j ≡ k = cc in subst (λ i. is_empty i ≡ false) same ne
  ]

  -- The owner of contents that are left is left.
  owner-left :
      (p : Text) (n : Node) (k : Text)
      → get_node P db p ≡ some n
      → n.blob_id ≡ some k
      → any (owns k) es ≡ false
      → get_node P after p ≡ some n
  owner-left p n k e b away = elim (Bool-cases (any (at_path p) es)) [
    | inl h ↦
        let (d, i, q) = any→In (at_path p) es h in
        let same : n ≡ d = cc (e, c.standing d i, (text_eq_iff d.path p).0 q) in
        cc (
          away,
          In→any (owns k) es d i (eq-truthy d.blob_id k (cc (b, same)) (id-nonempty p n k e b)),
        )
    | inr h ↦ ground (arith, get_node-delete_entries P es db p)
  ]

  pub delete_entries-WellFormed : WellFormed P after
  delete_entries-WellFormed = record {
    placed = λ p n e. let (e', away) = left p n e in IsPlaced-left p n e' away;
    unshared = λ p q n m k e f b b'. w.unshared p q n m k (left p n e).0 (left q m f).0 b b';
    owned = λ k r e.
        let (e', away) = left_record k r e in
        let (p, n, h, b) = w.owned k r e' in (p, n, owner-left p n k h b away, b);
    fresh = λ k r e.
        let (i, lt, q) = w.fresh k r (left_record k r e).0 in
        (i, omega (arith, issued-delete_entries P es db, lt), q);
  }
