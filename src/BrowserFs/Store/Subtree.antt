-- ===== src/BrowserFs/Store/Subtree.antt =====
-- The scan of a key range that finds the nodes below a path.
use zfiles.Common.{
  ℕ, ◌<◌, ◌≡◌, refl, ◌∙◌, sym, subst, ◌↔◌, inl, inr, true, false, List, [], ◌∷◌, ◌++◌, Text,
  is_empty, join, text_le, starts_with, arith, All, All-append, All-append_iff, In, Bool-cases,
  some,
}
use zfiles.BrowserFs.Paths.{slash, path_segments, normalize_path, descendant_prefix}
use zfiles.BrowserFs.Paths.Segments.{normalize_path_lem, is_empty-join, path_segments-IsSegment}
use zfiles.BrowserFs.Paths.Within.{starts_with→append}
use zfiles.BrowserFs.Store.Types.{Node, Platform, Db}
use zfiles.BrowserFs.Store.Requests.{subtree_nodes, max_key_suffix, get_node}
use zfiles.BrowserFs.Store.Invariant.{IsPath, IsBounded}

text_le-append : (p r : Text) → text_le p (p ++ r) ≡ true
text_le-append [] r = refl
text_le-append (c ∷ p) r = ground (arith, text_le-append p r)

-- A key with the prefix, in smaller code units, sorts below the upper end of the scan.
text_le-max_key_suffix : (p r : Text) → IsBounded r → text_le (p ++ r) (p ++ max_key_suffix) ≡ true
text_le-max_key_suffix [] [] h = refl
text_le-max_key_suffix [] (c ∷ r) h = ground arith
text_le-max_key_suffix (c ∷ p) r h = ground (arith, text_le-max_key_suffix p r h)

-- Between the two ends there is nothing but keys with the prefix.
pub starts_with_of_range :
    (p k : Text)
    → text_le p k ≡ true
    → text_le k (p ++ max_key_suffix) ≡ true
    → starts_with k p ≡ true
starts_with_of_range [] k h j = refl
starts_with_of_range (c ∷ p) [] h j = cc
starts_with_of_range (c ∷ p) (d ∷ k) h j = ground (arith, starts_with_of_range p k)

-- The normal form of a path that is normal.
pub normalize_path-IsPath : (p : Text) → IsPath p → normalize_path p ≡ p
normalize_path-IsPath p h = normalize_path_lem p ∙ h.normal

pub is_empty-IsPath : (p : Text) → IsPath p → is_empty p ≡ false
is_empty-IsPath p h = elim (Bool-cases (is_empty p)) [
  | inl e ↦ absurd (
      h.named (
        is_empty-join (path_segments p) (path_segments-IsSegment p)
          (subst (λ q. is_empty q ≡ true) (sym h.normal) e)))
  | inr e ↦ e
]

pub descendant_prefix-IsPath : (p : Text) → IsPath p → descendant_prefix p ≡ p ++ (slash ∷ [])
unfolding descendant_prefix
descendant_prefix-IsPath p h = rw (normalize_path-IsPath p h, is_empty-IsPath p h)

pub is_empty-snoc : (p : Text) (c : ℕ) → is_empty (p ++ (c ∷ [])) ≡ false
is_empty-snoc [] c = refl
is_empty-snoc (d ∷ p) c = refl

pub IsBounded-join : (xs : List Text) → All IsBounded xs → IsBounded (join slash xs)
IsBounded-join [] h = tt
IsBounded-join (x ∷ []) h = h.0
IsBounded-join (x ∷ y ∷ ys) h =
    All-append (λ c. c < 0xffff) x (slash ∷ join slash (y ∷ ys)) h.0
      (omega arith, IsBounded-join (y ∷ ys) h.1)

pub IsPath-IsBounded : (p : Text) → IsPath p → IsBounded p
IsPath-IsBounded p h = subst IsBounded h.normal (IsBounded-join (path_segments p) h.bounded)

-- `subtreeNodes` finds the nodes at the paths that begin with the path and a slash, and no others.
pub In-subtree_nodes :
    (P : Platform) (db : Db P) (path : Text) (n : Node)
    → IsPath path
    → IsBounded n.path
    → In n (subtree_nodes P db path)
      ↔ ((get_node P db n.path ≡ some n) × (starts_with n.path (path ++ (slash ∷ [])) ≡ true))
unfolding subtree_nodes
In-subtree_nodes P db path n h b =
    rw (descendant_prefix-IsPath path h, is_empty-snoc path slash)
      (
        λ i.
            let (e, l, u) =
              (P.Nodes.In-get_range db.nodes prefix (prefix ++ max_key_suffix) n).0 i in
            (e, starts_with_of_range prefix n.path l u),
        λ i.
            let (r, e) = starts_with→append n.path prefix i.1 in
            let rest = All-append_iff (λ c. c < 0xffff) prefix r (subst IsBounded e b) in
            (P.Nodes.In-get_range db.nodes prefix (prefix ++ max_key_suffix) n).1
              (i.0, rw e (text_le-append prefix r), rw e (text_le-max_key_suffix prefix r rest.1)),
      )
  where
    prefix : Text
    prefix = path ++ (slash ∷ [])

-- What the scan finds stands in the store, below the path.
pub subtree_nodes-below :
    (P : Platform) (db : Db P) (path : Text) (n : Node)
    → IsPath path
    → In n (subtree_nodes P db path)
    → (get_node P db n.path ≡ some n) × (starts_with n.path (path ++ (slash ∷ [])) ≡ true)
unfolding subtree_nodes
subtree_nodes-below P db path n h i =
    let prefix = path ++ (slash ∷ []) in
    let (e, l, u) =
      (P.Nodes.In-get_range db.nodes prefix (prefix ++ max_key_suffix) n).0
        (rw (descendant_prefix-IsPath path h, is_empty-snoc path slash) at i) in
    (e, starts_with_of_range prefix n.path l u)
