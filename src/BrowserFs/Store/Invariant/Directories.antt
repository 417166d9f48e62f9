-- ===== src/BrowserFs/Store/Invariant/Directories.antt =====
-- `ensureDirectory` and `makeDirectory` keep the tree well formed.
use zfiles.Common.{
  ℕ, ◌≡◌, refl, ap, ◌⊎◌, inl, inr, none, some, Text, text_eq, text_eq_iff, arith, Bool-cases,
  if◌then◌else◌,
}
use zfiles.BrowserFs.Paths.{path_parent}
use zfiles.BrowserFs.Store.Types.{Node, BlobRecord, Platform, Db}
use zfiles.BrowserFs.Store.Requests.{get_node, directory_node, put_directory}
use zfiles.BrowserFs.Store.Invariant.{IsPath, get_record, IsFolder, IsPlaced, WellFormed}

module _ (P : Platform) (now : ℕ) (path : Text) (db : Db P) where
  abbrev pub after : Db P
  after = put_directory P now path db

  -- What stands at a path once a directory has been put.
  pub get_node-put_directory :
      (k : Text)
      → get_node P after k
        ≡ (if text_eq path k then some (directory_node now path) else get_node P db k)
  unfolding put_directory directory_node
  get_node-put_directory k = P.Nodes.get-put db.nodes (directory_node now path) k

  IsFolder-put_directory : (k : Text) → IsFolder P db k → IsFolder P after k
  unfolding directory_node
  IsFolder-put_directory k (inl e) = inl e
  IsFolder-put_directory k (inr (d, e, t)) = elim (Bool-cases (text_eq path k)) [
    | inl same ↦ inr (directory_node now path, ground (arith, get_node-put_directory k), refl)
    | inr differ ↦ inr (d, ground (arith, get_node-put_directory k), t)
  ]

  IsPlaced-put_directory : (p : Text) (n : Node) → IsPlaced P db p n → IsPlaced P after p n
  IsPlaced-put_directory p n h = record {
    path = h.path;
    parent = h.parent;
    name = h.name;
    folder = IsFolder-put_directory (path_parent p) h.folder;
    empty = h.empty;
    stored = unfold put_directory in h.stored;
  }

  module _ (w : WellFormed P db) (free : get_node P db path ≡ none) where
    -- A node that is there after the step is the new directory, or was there before.
    get_node-cases :
        (p : Text) (n : Node)
        → get_node P after p ≡ some n
        → ((p ≡ path) × (n ≡ directory_node now path)) ⊎ (get_node P db p ≡ some n)
    get_node-cases p n e = ground (arith, get_node-put_directory p, text_eq_iff path p)

    no_contents :
        (p : Text) (n : Node) (id : Text)
        → get_node P after p ≡ some n
        → n.blob_id ≡ some id
        → get_node P db p ≡ some n
    unfolding directory_node
    no_contents p n id e b = elim (get_node-cases p n e) [
      | inl (at, new) ↦ cc (ap (λ (m : Node). m.blob_id) new, b)
      | inr old ↦ old
    ]

    owned_after :
        (id : Text) (r : BlobRecord)
        → get_record P after id ≡ some r
        → (p : Text) × (n : Node) × (get_node P after p ≡ some n) × (n.blob_id ≡ some id)
    unfolding put_directory
    owned_after id r e =
        let (p, n, h, b) = w.owned id r e in
        (p, n, ground (arith, get_node-put_directory p, text_eq_iff path p), b)

    module _ (is : IsPath path) (up : IsFolder P db (path_parent path)) where
      IsPlaced-new : IsPlaced P after path (directory_node now path)
      unfolding directory_node
      IsPlaced-new = record {
        path = is;
        parent = refl;
        name = refl;
        folder = IsFolder-put_directory (path_parent path) up;
        empty = λ _. refl;
        stored = λ e. cc;
      }

      pub put_directory-WellFormed : WellFormed P after
      put_directory-WellFormed = record {
        placed = λ p n e. elim (get_node-cases p n e) [
          | inl (at, new) ↦ rw (at, new) IsPlaced-new
          | inr old ↦ IsPlaced-put_directory p n (w.placed p n old)
        ];
        unshared = λ p q n m id e f b c.
            w.unshared p q n m id (no_contents p n id e b) (no_contents q m id f c) b c;
        owned = owned_after;
        fresh = unfold put_directory in w.fresh;
      }
