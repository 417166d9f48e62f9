-- ===== src/BrowserFs/Store/Methods/Contents.antt =====
-- What the methods of `BrowserFsStore` leave at each path, and what is read there.
use zfiles.Common.{
  ◌≡◌, refl, ap, ◌∙◌, sym, subst, ap₂, Bool, false, ◌||◌, List, [], ◌∷◌, Option, none, some, Text,
  arith, if◌then◌else◌,
}
use zfiles.BrowserFs.Paths.{path_is_within}
use zfiles.BrowserFs.Paths.Within.{path_is_within-normalize_path}
use zfiles.BrowserFs.Store.Types.{
  Platform, Db, Failure, Result, ok, err, >>=-eq-ok, ok-injective, require_writable_path,
}
use zfiles.BrowserFs.Store.Requests.{get_node, run}
use zfiles.BrowserFs.Store.Operations.{remove, remove_all, remove_one, require_all, checked}
use zfiles.BrowserFs.Store.Invariant.{WellFormed}
use zfiles.BrowserFs.Store.Invariant.Subtrees.{delete_subtree-WellFormed, get_node-delete_subtree}
use zfiles.BrowserFs.Store.Methods.{require_writable_path-normalize_path}
use zfiles.BrowserFs.Store.Methods.Trees.{remove_one-cases}

-- Whether a path is within one of the targets.
abbrev pub is_within_any : List Text → Text → Bool
is_within_any [] p = false
is_within_any (target ∷ targets) p = path_is_within p target || is_within_any targets p

get_node-remove_all :
    (P : Platform) (targets : List Text) (db : Db P) (u : Unit {0}) (after : Db P)
    → WellFormed P db
    → remove_all P targets db ≡ ok (u, after)
    → (p : Text) → get_node P after p ≡ (if is_within_any targets p then none else get_node P db p)
unfolding remove_all
get_node-remove_all P [] db u after w e p =
    let same : after ≡ db = cc in ap (λ (d : Db P). get_node P d p) same
get_node-remove_all P (target ∷ targets) db u after w e p =
    let (mid, e₁, e₂) = >>=-eq-ok (remove_one P target db) (remove_all P targets) e in
    let (n, at, same) = remove_one-cases P target db mid e₁ in
    let well : WellFormed P mid =
      subst (WellFormed P) (sym same) (delete_subtree-WellFormed P db w target n at) in
    ground (
      arith,
      get_node-remove_all P targets mid u after well e₂ p,
      get_node-delete_subtree P db w target n at p,
      ap (λ d. get_node P d p) same,
    )

module _ {A B : Type 0} (P : Platform) where
  -- A call that succeeds has checked its paths, and its transaction was completed.
  pub checked-eq-ok :
      (m : Result A) (body : A → Db P → Result (B × Db P)) (failure : Option Failure) (db : Db P)
      (b : B) (after : Db P)
      → checked P m body failure db ≡ (ok b, after)
      → (a : A) × (m ≡ ok a) × (body a db ≡ ok (b, after))
  unfolding run
  checked-eq-ok (err e) body failure db b after h = cc
  checked-eq-ok (ok a) body (some f) db b after h = cc
  checked-eq-ok (ok a) body none db b after h = (a, refl, ground arith)

require_all-within :
    (P : Platform) (paths targets : List Text) (p : Text)
    → require_all P paths ≡ ok targets
    → is_within_any targets p ≡ is_within_any paths p
unfolding require_all
require_all-within P [] targets p e = ap (λ ts. is_within_any ts p) (sym (ok-injective e))
require_all-within P (path ∷ paths) targets p e =
    let (t, e₁, e') = >>=-eq-ok (require_writable_path path) _ e in
    let (ts, e₂, e₃) = >>=-eq-ok (require_all P paths) _ e' in
    let (_, same) = require_writable_path-normalize_path path t e₁ in
    let head : path_is_within p t ≡ path_is_within p path =
      ap (path_is_within p) same ∙ path_is_within-normalize_path p path in
    ap (λ us. is_within_any us p) (sym (ok-injective e₃))
    ∙ ap₂ (λ a b. a || b) head (require_all-within P paths ts p e₂)

-- A successful `remove` leaves nothing within any of the paths that it is given, and everything
-- else as it was.
pub get_node-remove :
    (P : Platform) (failure : Option Failure) (paths : List Text) (db after : Db P)
    → WellFormed P db
    → remove P failure paths db ≡ (ok tt, after)
    → (p : Text) → get_node P after p ≡ (if is_within_any paths p then none else get_node P db p)
unfolding remove
get_node-remove P failure paths db after w e p =
    let (targets, e₁, e₂) = checked-eq-ok P (require_all P paths) _ failure db tt after e in
    get_node-remove_all P targets db tt after w e₂ p
    ∙ ap (λ b. if b then none else get_node P db p) (require_all-within P paths targets p e₁)
