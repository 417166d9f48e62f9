-- ===== src/BrowserFs/ObjectStore/Lists.antt =====
-- An object store kept as a list of records with distinct keys: the interface can be met.
use zfiles.Common.{
  ◌≡◌, refl, ap, sym, subst, ◌↔◌, inl, inr, Bool, true, false, not, ◌&&◌, List, [], ◌∷◌, Option,
  none, some, Text, text_eq, text_eq_iff, text_le, In, filter, length, map, arith, if◌then◌else◌,
  Distinct, Bool-cases, In-filter, In-of_filter,
}
use zfiles.BrowserFs.ObjectStore.{ObjectStore}

module _ {V : Type 0} (key index : V → Text) where
  abbrev pub Keyed : Type 0
  Keyed = (vs : List V) × Distinct (map key vs)

  abbrev pub find_key : List V → Text → Option V
  find_key [] k = none
  find_key (v ∷ vs) k = if text_eq (key v) k then some v else find_key vs k

  abbrev pub other : Text → V → Bool
  other k v = not (text_eq (key v) k)

  In-map : (vs : List V) (v : V) → In v vs → In (key v) (map key vs)
  In-map [] v i = i
  In-map (w ∷ vs) v (inl e) = inl (ap key e)
  In-map (w ∷ vs) v (inr i) = inr (In-map vs v i)

  In-map-filter :
      (p : V → Bool) (vs : List V) (k : Text) → In k (map key (filter p vs)) → In k (map key vs)
  In-map-filter p [] k i = i
  In-map-filter p (v ∷ vs) k i = elim (Bool-cases (p v)) [
    | inl e ↦ kept (In-map-filter p vs k) (rw e at i)
    | inr e ↦ inr (In-map-filter p vs k (rw e at i))
  ]
    where
      kept :
          (In k (map key (filter p vs)) → In k (map key vs))
          → In k (key v ∷ map key (filter p vs))
          → In k (key v ∷ map key vs)
      kept f (inl e) = inl e
      kept f (inr j) = inr (f j)

  pub Distinct-filter :
      (p : V → Bool) (vs : List V) → Distinct (map key vs) → Distinct (map key (filter p vs))
  Distinct-filter p [] d = tt
  Distinct-filter p (v ∷ vs) d = elim (Bool-cases (p v)) [
    | inl e ↦ rw e ((λ i. d.0 (In-map-filter p vs (key v) i)), Distinct-filter p vs d.1)
    | inr e ↦ rw e (Distinct-filter p vs d.1)
  ]

  pub not-In-erase : (vs : List V) (k : Text) → ¬ In k (map key (filter (other k) vs))
  not-In-erase [] k i = i
  not-In-erase (v ∷ vs) k i = elim (Bool-cases (text_eq (key v) k)) [
    | inl e ↦ not-In-erase vs k (rw e at i)
    | inr e ↦ away e (not-In-erase vs k) (rw e at i)
  ]
    where
      away :
          text_eq (key v) k ≡ false
          → ¬ In k (map key (filter (other k) vs))
          → ¬ In k (key v ∷ map key (filter (other k) vs))
      away e h (inl q) = cc (e, (text_eq_iff (key v) k).1 q)
      away e h (inr j) = h j

  pub find_key-erase :
      (vs : List V) (j k : Text)
      → find_key (filter (other j) vs) k ≡ (if text_eq j k then none else find_key vs k)
  find_key-erase [] j k = ground arith
  find_key-erase (v ∷ vs) j k =
      ground (
        arith,
        find_key-erase vs j k,
        text_eq_iff (key v) j,
        text_eq_iff (key v) k,
        text_eq_iff j k,
      )

  pub find_key-put :
      (vs : List V) (v : V) (k : Text)
      → find_key (v ∷ filter (other (key v)) vs) k
        ≡ (if text_eq (key v) k then some v else find_key vs k)
  find_key-put vs v k = ground (arith, find_key-erase vs (key v) k)

  pub find_key-key : (vs : List V) (k : Text) (v : V) → find_key vs k ≡ some v → key v ≡ k
  find_key-key [] k v e = cc
  find_key-key (w ∷ vs) k v e = ground (arith, find_key-key vs k v, text_eq_iff (key w) k)

  find_key-In : (vs : List V) (k : Text) (v : V) → find_key vs k ≡ some v → In v vs
  find_key-In [] k v e = cc
  find_key-In (w ∷ vs) k v e = ground (arith, find_key-In vs k v)

  In-find_key :
      (vs : List V) (v : V) → Distinct (map key vs) → In v vs → find_key vs (key v) ≡ some v
  In-find_key [] v d i = absurd i
  In-find_key (w ∷ vs) v d (inl e) = ground (arith, text_eq_iff (key w) (key v), ap key e)
  In-find_key (w ∷ vs) v d (inr i) = elim (Bool-cases (text_eq (key w) (key v))) [
    | inl e ↦ absurd (
        d.0 (
          subst (λ k. In k (map key vs)) (sym ((text_eq_iff (key w) (key v)).0 e)) (In-map vs v i)))
    | inr e ↦ rw e (In-find_key vs v d.1 i)
  ]

  pub In-find_key_iff : (s : Keyed) (v : V) → In v s.0 ↔ (find_key s.0 (key v) ≡ some v)
  In-find_key_iff s v = (In-find_key s.0 v s.1, find_key-In s.0 (key v) v)

  abbrev pub in_range : Text → Text → V → Bool
  in_range lower upper v = text_le lower (key v) && text_le (key v) upper

  pub In-range :
      (lower upper : Text) (s : Keyed) (v : V)
      → In v (filter (in_range lower upper) s.0) ↔ (
          (find_key s.0 (key v) ≡ some v)
          × (text_le lower (key v) ≡ true)
          × (text_le (key v) upper ≡ true))
  In-range lower upper s v = (
    λ i.
        let (j, e) = In-of_filter (in_range lower upper) s.0 i in
        (In-find_key s.0 v s.1 j, ground arith, ground arith),
    λ h. In-filter (in_range lower upper) s.0 (find_key-In s.0 (key v) v h.0) (ground arith),
  )

  abbrev pub at_index : Text → V → Bool
  at_index value v = text_eq (index v) value

  pub In-index :
      (value : Text) (s : Keyed) (v : V)
      → In v (filter (at_index value) s.0) ↔ ((find_key s.0 (key v) ≡ some v) × (index v ≡ value))
  In-index value s v = (
    λ i.
        let (j, e) = In-of_filter (at_index value) s.0 i in
        (In-find_key s.0 v s.1 j, (text_eq_iff _ _).0 e),
    λ h.
        In-filter (at_index value) s.0 (find_key-In s.0 (key v) v h.0)
          ((text_eq_iff (index v) value).1 h.1),
  )

  -- The list kept in no order: the interface promises none.
  abbrev pub list_store : ObjectStore key index
  list_store = record {
    Records = Keyed;
    empty = ([], tt);
    get = λ s k. find_key s.0 k;
    put = λ s v. (
      v ∷ filter (other (key v)) s.0,
      (not-In-erase s.0 (key v), Distinct-filter (other (key v)) s.0 s.1),
    );
    delete = λ s k. (filter (other k) s.0, Distinct-filter (other k) s.0 s.1);
    get_all = λ s. s.0;
    get_range = λ s lower upper. filter (in_range lower upper) s.0;
    get_index = λ s value. filter (at_index value) s.0;
    count = λ s. length s.0;
    get-empty = λ k. refl;
    get-key = λ s. find_key-key s.0;
    get-put = λ s v k. find_key-put s.0 v k;
    get-delete = λ s j k. find_key-erase s.0 j k;
    In-get_all = In-find_key_iff;
    In-get_range = λ s lower upper. In-range lower upper s;
    In-get_index = λ s value. In-index value s;
    Distinct-get_all = λ s. s.1;
    Distinct-get_range = λ s lower upper. Distinct-filter (in_range lower upper) s.0 s.1;
    count-get_all = λ s. refl;
  }
