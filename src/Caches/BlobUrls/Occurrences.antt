-- ===== src/Caches/BlobUrls/Occurrences.antt =====
-- Entries of the cache taken out and put in, and how often a URL occurs among them.
use zfiles.Common.{
  ℕ, suc, ◌+◌, ◌≡◌, ◌≢◌, ◌⊎◌, refl, sym, ap, ◌∙◌, subst, true, List, [], ◌∷◌, ◌++◌, none, some,
  Text, text_eq, text_eq_iff, text_eq_refl, if◌then◌else◌, length, Entries, lookup, erase,
  lookup-erase, In, Distinct, arith, Bool-cases, inl, inr,
}
use zfiles.Caches.BlobUrls.{keys, values}

unfoldable pub occurrences : Text → List Text → ℕ
occurrences u [] = 0
occurrences u (x ∷ xs) = let rest = occurrences u xs in if text_eq x u then suc rest else rest

pub occurrences-append :
    (u : Text) (xs ys : List Text) → occurrences u (xs ++ ys) ≡ occurrences u xs + occurrences u ys
unfolding occurrences
occurrences-append u [] ys = omega arith
occurrences-append u (x ∷ xs) ys = ground (arith, occurrences-append u xs ys)

some-ne-none : {A : Type 0} {a : A} → some a ≢ none
some-ne-none = cc

pub absent : (l k : Text) (names : List Text) → text_eq l k ≡ true → ¬ In l names → ¬ In k names
absent l k names t h = subst (λ x. ¬ In x names) ((text_eq_iff l k).0 t) h

pub In-keys-erase : (m : Entries Text) (k j : Text) → In j (keys (erase m k)) → In j (keys m)
unfolding erase
In-keys-erase [] k j i = i
In-keys-erase ((l, u) ∷ rest) k j i = elim (Bool-cases (text_eq l k)) [
  | inl e ↦ inr (In-keys-erase rest k j (rw e at i))
  | inr e ↦ elim (rw e at i) [
    | inl same ↦ inl same
    | inr later ↦ inr (In-keys-erase rest k j later)
  ]
]

pub Distinct-erase : (m : Entries Text) (k : Text) → Distinct (keys m) → Distinct (keys (erase m k))
unfolding erase
Distinct-erase [] k d = tt
Distinct-erase ((l, u) ∷ rest) k d = elim (Bool-cases (text_eq l k)) [
  | inl e ↦ rw e (Distinct-erase rest k d.1)
  | inr e ↦ rw e ((λ i. d.0 (In-keys-erase rest k l i)), Distinct-erase rest k d.1)
]

pub erase-absent : (m : Entries Text) (k : Text) → ¬ In k (keys m) → erase m k ≡ m
unfolding erase
erase-absent [] k h = refl
erase-absent ((j, u) ∷ rest) k h =
    ground (arith, erase-absent rest k (λ i. h (inr i)), text_eq_iff j k, λ (e : j ≡ k). h (inl e))

-- Where no key stands twice, one entry is erased.
pub occurrences-erase :
    (m : Entries Text) (k url u : Text)
    → Distinct (keys m)
    → lookup m k ≡ some url
    → occurrences u (values m) ≡ occurrences u (values (erase m k)) + occurrences u (url ∷ [])
unfolding erase lookup occurrences values
occurrences-erase [] k url u d e = cc
occurrences-erase ((l, v) ∷ rest) k url u d e = elim (Bool-cases (text_eq l k)) [
  | inl t ↦
      let found : v ≡ url = ground (arith, e, t) in
      rw (t, found, erase-absent rest k (absent l k (keys rest) t d.0)) (ground arith)
  | inr t ↦
      let later = occurrences-erase rest k url u d.1 (rw t at e) in rw t (ground (arith, later))
]

pub length-erase :
    (m : Entries Text) (k url : Text)
    → Distinct (keys m)
    → lookup m k ≡ some url
    → length m ≡ suc (length (erase m k))
unfolding erase lookup
length-erase [] k url d e = cc
length-erase ((l, v) ∷ rest) k url d e = elim (Bool-cases (text_eq l k)) [
  | inl t ↦ rw (t, erase-absent rest k (absent l k (keys rest) t d.0)) refl
  | inr t ↦ let later = length-erase rest k url d.1 (rw t at e) in rw t (omega (arith, later))
]

pub lookup-absent : (m : Entries Text) (k : Text) → lookup m k ≡ none → ¬ In k (keys m)
unfolding lookup
lookup-absent [] k e i = i
lookup-absent ((l, v) ∷ rest) k e i = elim (Bool-cases (text_eq l k)) [
  | inl t ↦ some-ne-none {a = v} (rw t at e)
  | inr t ↦ elim i [
    | inl same ↦ ground (arith, t, same, text_eq_iff l k)
    | inr later ↦ lookup-absent rest k (rw t at e) later
  ]
]

pub not-In-erase : (m : Entries Text) (k : Text) → ¬ In k (keys (erase m k))
not-In-erase m k =
    lookup-absent (erase m k) k
      (lookup-erase m k k ∙ ap (λ b. if b then none else lookup m k) (text_eq_refl k))

pub keys-snoc :
    (m : Entries Text) (k u j : Text) → In j (keys (m ++ ((k, u) ∷ []))) → In j (keys m) ⊎ (k ≡ j)
keys-snoc [] k u j (inl e) = inr e
keys-snoc [] k u j (inr i) = absurd i
keys-snoc ((l, v) ∷ m) k u j (inl e) = inl (inl e)
keys-snoc ((l, v) ∷ m) k u j (inr i) = elim (keys-snoc m k u j i) [
  | inl h ↦ inl (inr h)
  | inr h ↦ inr h
]

pub Distinct-snoc :
    (m : Entries Text) (k u : Text)
    → Distinct (keys m)
    → ¬ In k (keys m)
    → Distinct (keys (m ++ ((k, u) ∷ [])))
Distinct-snoc [] k u d h = ((λ i. i), tt)
Distinct-snoc ((l, v) ∷ m) k u d h = (
  λ i. elim (keys-snoc m k u l i) [ inl j ↦ d.0 j | inr e ↦ h (inl (sym e)) ],
  Distinct-snoc m k u d.1 (λ i. h (inr i)),
)

pub values-append : (m n : Entries Text) → values (m ++ n) ≡ values m ++ values n
unfolding values
values-append [] n = refl
values-append ((l, v) ∷ m) n = ap (λ r. v ∷ r) (values-append m n)

pub occurrences-values_snoc :
    (u : Text) (m : Entries Text) (k url : Text)
    → occurrences u (values (m ++ ((k, url) ∷ [])))
      ≡ occurrences u (values m) + occurrences u (url ∷ [])
unfolding values
occurrences-values_snoc u m k url =
    ap (occurrences u) (values-append m ((k, url) ∷ []))
    ∙ occurrences-append u (values m) (url ∷ [])
