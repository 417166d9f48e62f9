-- ===== src/BrowserFs/Store/Types.antt =====
-- The records of web/src/browserfs/db.ts, the errors of errors.ts, what store.ts takes from the
-- browser, and its functions of paths and nodes alone.
use zfiles.Common.{
  ℕ, ◌≡◌, refl, Bool, false, not, ◌||◌, List, [], ◌∷◌, Option, none, some, Text, is_empty,
  if◌then◌else◌,
}
use zfiles.BrowserFs.ObjectStore.{ObjectStore}
use zfiles.BrowserFs.Paths.{normalize_path, path_parent, path_name, path_is_within, is_valid_path}

pub record Node : Type 0 where
  pub path : Text
  pub parent : Text
  pub name : Text
  pub is_dir : Bool
  pub size : ℕ
  pub modified : ℕ
  pub content_type : Option Text
  pub blob_id : Option Text

-- The browser's `Blob`: its bytes and its `type`.
pub record Blob : Type 0 where
  pub bytes : List ℕ
  pub mime : Text

pub record BlobRecord : Type 0 where
  pub id : Text
  pub blob : Blob

pub data Error : Type 0 where
  not_found already_exists invalid_name into_descendant quota_exceeded unavailable : Error

-- What a request or a commit of IndexedDB fails with.
pub data Failure : Type 0 where
  quota other : Failure

pub data Result (A : Type 0) : Type 0 where
  ok : A → Result A
  err : Error → Result A

infixl 5 ◌>>=◌ ◌>>◌
abbrev pub ◌>>=◌ : {A B : Type 0} → Result A → (A → Result B) → Result B
err code >>= next = err code
ok value >>= next = next value

abbrev pub ◌>>◌ : {B : Type 0} → Result (Unit {0}) → Result B → Result B
first >> second = first >>= λ _. second

abbrev pub guard : Bool → Error → Result (Unit {0})
guard holds code = if holds then ok tt else err code

pub ok-injective : {A : Type 0} {a b : A} → ok a ≡ ok b → a ≡ b
ok-injective h = cc

-- A chain that succeeds has succeeded at its first step, and at what follows.
pub >>=-eq-ok :
    {A B : Type 0} (first : Result A) (next : A → Result B) {value : B}
    → (first >>= next) ≡ ok value
    → (mid : A) × (first ≡ ok mid) × (next mid ≡ ok value)
>>=-eq-ok (err code) next e = cc
>>=-eq-ok (ok mid) next e = (mid, refl, e)

abbrev pub node_path : Node → Text
node_path n = n.path

abbrev pub node_parent : Node → Text
node_parent n = n.parent

abbrev pub record_id : BlobRecord → Text
record_id r = r.id

-- What the program takes from the browser: the two object stores, and the ids that `createId`
-- returns, call by call: no two are equal and none is empty.
pub record Platform : Type 1 where
  pub Nodes : ObjectStore node_path node_parent
  pub Blobs : ObjectStore record_id record_id
  pub create_id : ℕ → Text
  pub create_id-injective : (i j : ℕ) → create_id i ≡ create_id j → i ≡ j
  pub create_id-ne-nil : (i : ℕ) → is_empty (create_id i) ≡ false

-- `toBrowserFsError` at a failure that is not yet coded.
unfoldable pub to_browser_fs_error : Failure → Error
to_browser_fs_error quota = quota_exceeded
to_browser_fs_error other = unavailable

-- A text that JavaScript takes for true.
abbrev pub truthy : Option Text → Option Text
truthy none = none
truthy (some []) = none
truthy (some (c ∷ s)) = some (c ∷ s)

unfoldable pub relocate : Node → Text → Node
relocate node next_path = record node {
  path = next_path;
  parent = path_parent next_path;
  name = path_name next_path;
}

unfoldable pub require_writable_path : Text → Result Text
require_writable_path path =
    let target = normalize_path path in
    if is_empty target || not (is_valid_path target) then err invalid_name else ok target

unfoldable pub require_transfer_paths : Text → Text → Result (Text × Text)
unfolding require_writable_path
require_transfer_paths source dest = do
  from ← require_writable_path source
  to ← require_writable_path dest
  guard (not (path_is_within to from)) into_descendant
  ok (from, to)

-- The two object stores, and how many ids have been created.
pub record Db (P : Platform) : Type 0 where
  pub nodes : P.Nodes.Records
  pub blobs : P.Blobs.Records
  pub issued : ℕ
