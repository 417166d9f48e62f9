-- ===== src/BrowserFs/Store/Invariant.antt =====
-- When the two object stores of the browser filesystem are a tree of files with their contents.
pub mod Directories
pub mod Ensure
pub mod Files
pub mod Removal
pub mod Subtrees
use zfiles.Common.{
  ℕ, ◌<◌, ◌≡◌, ◌≢◌, ◌⊎◌, Bool, true, false, List, [], Option, none, some, Text, is_empty, join, All,
}
use zfiles.BrowserFs.Paths.{slash, path_segments, path_parent, path_name}
use zfiles.BrowserFs.Store.Types.{Node, BlobRecord, Platform, Db}
use zfiles.BrowserFs.Store.Requests.{get_node}
use zfiles.BrowserFs.Store.Operations.{blob_size}

abbrev pub IsBounded : Text → Type 0
IsBounded s = All (λ c. c < 0xffff) s

-- A path in normal form, of one name at least, in code units that a scan's upper end bounds.
pub record IsPath (p : Text) : Type 0 where
  pub named : path_segments p ≢ []
  pub normal : join slash (path_segments p) ≡ p
  pub bounded : All IsBounded (path_segments p)

module _ (P : Platform) (db : Db P) where
  abbrev pub get_record : Text → Option BlobRecord
  get_record id = P.Blobs.get db.blobs id

  -- A path at which a directory stands, the root among them.
  abbrev pub IsFolder : Text → Type 0
  IsFolder p = (p ≡ []) ⊎ ((d : Node) × (get_node P db p ≡ some d) × (d.is_dir ≡ true))

  -- The fields of a node agree with its path, its parent is a directory, and its contents, where it
  -- is a file, are stored with the size that it states.
  pub record IsPlaced (p : Text) (n : Node) : Type 0 where
    pub path : IsPath p
    pub parent : n.parent ≡ path_parent p
    pub name : n.name ≡ path_name p
    pub folder : IsFolder (path_parent p)
    pub empty : n.is_dir ≡ true → n.blob_id ≡ none
    pub stored :
        n.is_dir ≡ false
        → (id : Text) × (r : BlobRecord) × (n.blob_id ≡ some id)
          × (is_empty id ≡ false)
          × (get_record id ≡ some r)
          × (n.size ≡ blob_size r.blob)

  pub record WellFormed : Type 0 where
    pub placed : (p : Text) (n : Node) → get_node P db p ≡ some n → IsPlaced p n
    -- No two files share contents.
    pub unshared :
        (p q : Text) (n m : Node) (id : Text)
        → get_node P db p ≡ some n
        → get_node P db q ≡ some m
        → n.blob_id ≡ some id
        → m.blob_id ≡ some id
        → p ≡ q
    -- No contents are left over.
    pub owned :
        (id : Text) (r : BlobRecord)
        → get_record id ≡ some r
        → (p : Text) × (n : Node) × (get_node P db p ≡ some n) × (n.blob_id ≡ some id)
    pub fresh :
        (id : Text) (r : BlobRecord)
        → get_record id ≡ some r
        → (i : ℕ) × (i < db.issued) × (id ≡ P.create_id i)
