-- ===== src/BrowserFs/ObjectStore.antt =====
-- What web/src/browserfs/store.ts uses of an IndexedDB object store: records under the key path
-- `key`, an index over `index`, and the documented behaviour of the requests. IndexedDB itself is
-- not part of the program, so a store is a parameter of the model.
pub mod Lists
use zfiles.Common.{
  ℕ, ◌≡◌, ◌↔◌, Bool, true, List, Option, none, some, Text, text_eq, text_le, In, All, length, map,
  if◌then◌else◌, Distinct,
}

pub record ObjectStore {V : Type 0} (key index : V → Text) : Type 1 where
  pub Records : Type 0
  pub empty : Records
  pub get : Records → Text → Option V
  pub put : Records → V → Records
  pub delete : Records → Text → Records
  pub get_all : Records → List V
  -- `getAll(IDBKeyRange.bound(lower, upper))`.
  pub get_range : Records → Text → Text → List V
  -- `index(…).getAll(IDBKeyRange.only(value))`.
  pub get_index : Records → Text → List V
  pub count : Records → ℕ
  pub get-empty : (k : Text) → get empty k ≡ none
  pub get-key : (s : Records) (k : Text) (v : V) → get s k ≡ some v → key v ≡ k
  pub get-put :
      (s : Records) (v : V) (k : Text)
      → get (put s v) k ≡ (if text_eq (key v) k then some v else get s k)
  pub get-delete :
      (s : Records) (j k : Text) → get (delete s j) k ≡ (if text_eq j k then none else get s k)
  pub In-get_all : (s : Records) (v : V) → In v (get_all s) ↔ (get s (key v) ≡ some v)
  pub In-get_range :
      (s : Records) (lower upper : Text) (v : V)
      → In v (get_range s lower upper) ↔ (
          (get s (key v) ≡ some v)
          × (text_le lower (key v) ≡ true)
          × (text_le (key v) upper ≡ true))
  pub In-get_index :
      (s : Records) (value : Text) (v : V)
      → In v (get_index s value) ↔ ((get s (key v) ≡ some v) × (index v ≡ value))
  pub Distinct-get_all : (s : Records) → Distinct (map key (get_all s))
  pub Distinct-get_range :
      (s : Records) (lower upper : Text) → Distinct (map key (get_range s lower upper))
  pub count-get_all : (s : Records) → count s ≡ length (get_all s)
