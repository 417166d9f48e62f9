-- ===== src/Uploads/Sessions/Scopes.antt =====
-- A JavaScript object from scopes to lists of records, as an association list.
use zfiles.Common.{
  ◌≡◌, refl, Bool, true, false, List, [], ◌∷◌, Text, text_eq, text_eq_iff, if◌then◌else◌, arith,
}

abbrev pub ScopedStore : Type 0 → Type 0
ScopedStore R = List (Text × List R)

unfoldable pub delete_scope : {R : Type 0} → ScopedStore R → Text → ScopedStore R
delete_scope [] s = []
delete_scope ((k, rs) ∷ rest) s =
    let others = delete_scope rest s in if text_eq k s then others else (k, rs) ∷ others

unfoldable pub set_scope : {R : Type 0} → ScopedStore R → Text → List R → ScopedStore R
unfolding delete_scope
set_scope store s rs = (s, rs) ∷ delete_scope store s

-- `store[scopeId] ?? []`.
unfoldable pub records_of : {R : Type 0} → ScopedStore R → Text → List R
records_of [] s = []
records_of ((k, rs) ∷ rest) s = let others = records_of rest s in if text_eq k s then rs else others

unfoldable pub has_scope : {R : Type 0} → ScopedStore R → Text → Bool
has_scope [] s = false
has_scope ((k, rs) ∷ rest) s = let others = has_scope rest s in if text_eq k s then true else others

module _ {R : Type 0} where
  pub records_of-delete_scope :
      (store : ScopedStore R) (s t : Text)
      → records_of (delete_scope store s) t ≡ (if text_eq s t then [] else records_of store t)
  unfolding records_of delete_scope
  records_of-delete_scope [] s t = ground arith
  records_of-delete_scope ((k, rs) ∷ rest) s t =
      ground
        (arith, records_of-delete_scope rest s t, text_eq_iff k s, text_eq_iff s t, text_eq_iff k t)

  pub records_of-set_scope :
      (store : ScopedStore R) (s t : Text) (rs : List R)
      → records_of (set_scope store s rs) t ≡ (if text_eq s t then rs else records_of store t)
  unfolding records_of set_scope
  records_of-set_scope store s t rs = ground (arith, records_of-delete_scope store s t)

  pub records_of_absent :
      (store : ScopedStore R) (s : Text) → has_scope store s ≡ false → records_of store s ≡ []
  unfolding records_of has_scope
  records_of_absent [] s h = refl
  records_of_absent ((k, rs) ∷ rest) s h = ground (arith, records_of_absent rest s)
