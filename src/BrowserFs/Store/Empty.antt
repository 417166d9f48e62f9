-- ===== src/BrowserFs/Store/Empty.antt =====
-- A browser that keeps its object stores in lists, and an empty volume in it.
use zfiles.Common.{ℕ, ◌≡◌, refl, [], ◌∷◌, Text}
use zfiles.BrowserFs.ObjectStore.Lists.{list_store}
use zfiles.BrowserFs.Store.Types.{Platform, Db, node_path, node_parent, record_id}
use zfiles.BrowserFs.Store.Invariant.{WellFormed}

pub singleton-injective : (i j : ℕ) → ◌≡◌ {A = Text} (i ∷ []) (j ∷ []) → i ≡ j
singleton-injective i j e = cc

abbrev pub lists : Platform
lists = record {
  Nodes = list_store node_path node_parent;
  Blobs = list_store record_id record_id;
  create_id = λ i. i ∷ [];
  create_id-injective = singleton-injective;
  create_id-ne-nil = λ i. refl;
}

abbrev pub empty_db : Db lists
empty_db = record { nodes = ([], tt); blobs = ([], tt); issued = 0 }

pub empty_db-WellFormed : WellFormed lists empty_db
empty_db-WellFormed = record {
  placed = λ p n e. cc;
  unshared = λ p q n m id e f b c. cc;
  owned = λ id r e. cc;
  fresh = λ id r e. cc;
}
