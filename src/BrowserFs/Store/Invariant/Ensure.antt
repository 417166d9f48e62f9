-- ===== src/BrowserFs/Store/Invariant/Ensure.antt =====
-- `ensureDirectory`: the directories on the way are there afterwards, and nothing else changes.
use zfiles.Common.{
  ℕ, ◌≡◌, refl, ap, ◌∙◌, sym, subst, ◌⊎◌, inl, inr, true, List, [], ◌∷◌, ◌++◌, none, some, Text,
  is_empty, join, All, All-append, All-append_iff, text_eq, text_eq_iff, text_eq_refl, arith,
  Bool-cases, Option-cases, append_assoc, append-nil,
}
use zfiles.BrowserFs.Paths.{slash, path_segments, path_parent}
use zfiles.BrowserFs.Paths.Segments.{
  IsSegment, path_segments-join, path_segments-IsSegment, is_empty-join, join-append,
}
use zfiles.BrowserFs.Paths.Laws.{init-snoc}
use zfiles.BrowserFs.Paths.Within.{IsPrefix}
use zfiles.BrowserFs.Store.Types.{
  Node, Platform, Db, ok, err, ok-injective, >>=-eq-ok, already_exists,
}
use zfiles.BrowserFs.Store.Requests.{
  get_node, directory_node, put_directory, ensure_one, ensure_from, ensure_directory, step_into,
}
use zfiles.BrowserFs.Store.Invariant.{IsPath, IsBounded, IsFolder, WellFormed}
use zfiles.BrowserFs.Store.Invariant.Directories.{put_directory-WellFormed, get_node-put_directory}

-- The names of a normal path.
abbrev pub IsName : Text → Type 0
IsName s = IsSegment s × IsBounded s

All-IsSegment : (xs : List Text) → All IsName xs → All IsSegment xs
All-IsSegment [] h = tt
All-IsSegment (x ∷ xs) h = (h.0.0, All-IsSegment xs h.1)

All-IsBounded : (xs : List Text) → All IsName xs → All IsBounded xs
All-IsBounded [] h = tt
All-IsBounded (x ∷ xs) h = (h.0.1, All-IsBounded xs h.1)

pub IsPath-join : (x : Text) (xs : List Text) → All IsName (x ∷ xs) → IsPath (join slash (x ∷ xs))
IsPath-join x xs h =
    let e = path_segments-join (x ∷ xs) (All-IsSegment (x ∷ xs) h) in
    record {
      named = λ q. cc (e, q);
      normal = ap (join slash) e;
      bounded = subst (All IsBounded) (sym e) (All-IsBounded (x ∷ xs) h);
    }

step_into-join :
    (xs : List Text) (s : Text)
    → All IsName xs
    → step_into (join slash xs) s ≡ join slash (xs ++ (s ∷ []))
unfolding step_into
step_into-join [] s h = refl
step_into-join (x ∷ xs) s h = elim (Bool-cases (is_empty (join slash (x ∷ xs)))) [
  | inl e ↦ cc (is_empty-join (x ∷ xs) (All-IsSegment (x ∷ xs) h) e)
  | inr e ↦ rw e (sym (join-append (x ∷ xs) s [] (λ q. cc)))
]

path_parent-join :
    (xs : List Text) (s : Text)
    → All IsName (xs ++ (s ∷ []))
    → path_parent (join slash (xs ++ (s ∷ []))) ≡ join slash xs
unfolding path_parent
path_parent-join xs s h =
    rw (path_segments-join (xs ++ (s ∷ [])) (All-IsSegment _ h)) (ap (join slash) (init-snoc xs s))

module _ (P : Platform) (before : Db P) where
  -- What a step from `before` leaves at a path: what was there, or a directory where nothing was,
  -- on the way to `path`.
  abbrev pub OnlyAdds : Text → Db P → Type 0
  OnlyAdds path after =
      (k : Text)
      → (get_node P after k ≡ get_node P before k)
        ⊎ ((n : Node) × (get_node P before k ≡ none)
            × (get_node P after k ≡ some n)
            × (n.is_dir ≡ true)
            × (n.blob_id ≡ none)
            × IsPrefix (path_segments k) (path_segments path))

  pub record Ensured (path : Text) (after : Db P) : Type 0 where
    pub well : WellFormed P after
    pub there : IsFolder P after path
    pub adds : OnlyAdds path after
    pub blobs : after.blobs ≡ before.blobs
    pub issued : after.issued ≡ before.issued

module _ (P : Platform) (now : ℕ) where
  IsPrefix-trans : (xs ys zs : List Text) → IsPrefix xs ys → IsPrefix ys zs → IsPrefix xs zs
  IsPrefix-trans xs ys zs (u, e) (v, f) = (u ++ v, f ∙ ap (λ t. t ++ v) e ∙ append_assoc xs u v)

  OnlyAdds-trans :
      (p q : Text) (a b c : Db P)
      → IsPrefix (path_segments p) (path_segments q)
      → OnlyAdds P a p b
      → OnlyAdds P b q c
      → OnlyAdds P a q c
  OnlyAdds-trans p q a b c pre h k r = elim (k r) [
    | inl same ↦ elim (h r) [
      | inl same' ↦ inl (same ∙ same')
      | inr (n, free, at, d, e, f) ↦ inr (n, free, same ∙ at, d, e, IsPrefix-trans _ _ _ f pre)
    ]
    | inr (n, free, at, d, e, f) ↦ elim (h r) [
      | inl same' ↦ inr (n, sym same' ∙ free, at, d, e, f)
      | inr (m, free', at', _, _, _) ↦ cc (free, at')
    ]
  ]

  module _ (current : Text) (db : Db P) (w : WellFormed P db) where
    put_directory-Ensured :
        IsPath current
        → IsFolder P db (path_parent current)
        → get_node P db current ≡ none
        → Ensured P db current (put_directory P now current db)
    unfolding directory_node
    put_directory-Ensured p f e =
        let at = get_node-put_directory P now current db in
        record {
          well = put_directory-WellFormed P now current db w e p f;
          there =
              inr (
                directory_node now current,
                ground (arith, at current, text_eq_refl current),
                refl,
              );
          adds = λ k. elim (Bool-cases (text_eq current k)) [
            | inl same ↦ inr (
              directory_node now current,
              ground (arith, text_eq_iff current k),
              ground (arith, at k),
              refl,
              refl,
              ([], ap path_segments ((text_eq_iff current k).0 same) ∙ sym (append-nil _)),
            )
            | inr differ ↦ inl (ground (arith, at k))
          ];
          blobs = unfold put_directory in refl;
          issued = unfold put_directory in refl;
        }

    same-Ensured :
        (n : Node) → get_node P db current ≡ some n → n.is_dir ≡ true → Ensured P db current db
    same-Ensured n e d = record {
      well = w;
      there = inr (n, e, d);
      adds = λ k. inl refl;
      blobs = refl;
      issued = refl;
    }

    ensure_one-Ensured :
        (after : Db P)
        → IsPath current
        → IsFolder P db (path_parent current)
        → ensure_one P now current db ≡ ok after
        → Ensured P db current after
    unfolding ensure_one
    ensure_one-Ensured after p f e = elim (Option-cases (get_node P db current)) [
      | inl none_there ↦
          subst (Ensured P db current) (ok-injective (rw (none_there, ensure_one) at e))
            (put_directory-Ensured p f none_there)
      | inr (n, found) ↦ elim (Bool-cases n.is_dir) [
        | inl folder ↦
            subst (Ensured P db current) (ok-injective (rw (found, ensure_one, folder) at e))
              (same-Ensured n found folder)
        | inr file ↦ let q : ok after ≡ err already_exists = ground (arith, found, file) in cc q
      ]
    ]

  Ensured-trans :
      (p q : Text) (a b c : Db P)
      → IsPrefix (path_segments p) (path_segments q)
      → Ensured P a p b
      → Ensured P b q c
      → Ensured P a q c
  Ensured-trans p q a b c pre m n = record {
    well = n.well;
    there = n.there;
    adds = OnlyAdds-trans p q a b c pre m.adds n.adds;
    blobs = n.blobs ∙ m.blobs;
    issued = n.issued ∙ m.issued;
  }

  -- One name further down from a directory.
  ensure_next-Ensured :
      (xs : List Text) (y : Text) (db mid : Db P)
      → WellFormed P db
      → All IsName (xs ++ (y ∷ []))
      → IsFolder P db (join slash xs)
      → ensure_one P now (join slash (xs ++ (y ∷ []))) db ≡ ok mid
      → Ensured P db (join slash (xs ++ (y ∷ []))) mid
  ensure_next-Ensured xs y db mid w h f e =
      ensure_one-Ensured (join slash (xs ++ (y ∷ []))) db w mid (IsPath-snoc xs h)
        (subst (IsFolder P db) (sym (path_parent-join xs y h)) f) e
    where
      IsPath-snoc :
          (xs : List Text) → All IsName (xs ++ (y ∷ [])) → IsPath (join slash (xs ++ (y ∷ [])))
      IsPath-snoc [] k = IsPath-join y [] k
      IsPath-snoc (x ∷ xs) k = IsPath-join x (xs ++ (y ∷ [])) k

  ensure_from-Ensured :
      (xs ys : List Text) (db after : Db P)
      → WellFormed P db
      → All IsName (xs ++ ys)
      → IsFolder P db (join slash xs)
      → ensure_from P now (join slash xs) ys db ≡ ok after
      → Ensured P db (join slash (xs ++ ys)) after
  unfolding ensure_from
  ensure_from-Ensured xs [] db after w h f e =
      rw (append-nil xs, ← ok-injective e)
        (record { well = w; there = f; adds = λ k. inl refl; blobs = refl; issued = refl })
  ensure_from-Ensured xs (y ∷ ys) db after w h f e =
      let (hx, hys) = All-append_iff IsName xs (y ∷ ys) h in
      let next : step_into (join slash xs) y ≡ join slash (xs ++ (y ∷ [])) =
        step_into-join xs y hx in
      let assoc = append_assoc xs (y ∷ []) ys in
      let (mid, e₁, e₂) =
        >>=-eq-ok (ensure_one P now (join slash (xs ++ (y ∷ []))) db)
          (ensure_from P now (join slash (xs ++ (y ∷ []))) ys) (rw next at e) in
      let m =
        ensure_next-Ensured xs y db mid w (All-append IsName xs (y ∷ []) hx (hys.0, tt)) f e₁ in
      let n = ensure_from-Ensured (xs ++ (y ∷ [])) ys mid after m.well (rw assoc h) m.there e₂ in
      subst (λ zs. Ensured P db (join slash zs) after) assoc
        (Ensured-trans (join slash (xs ++ (y ∷ []))) (join slash ((xs ++ (y ∷ [])) ++ ys)) db mid
          after (prefix hx (rw assoc h)) m n)
    where
      prefix :
          All IsName xs
          → All IsName ((xs ++ (y ∷ [])) ++ ys)
          → IsPrefix
              (path_segments (join slash (xs ++ (y ∷ []))))
              (path_segments (join slash ((xs ++ (y ∷ [])) ++ ys)))
      prefix k l =
          let front = All-append_iff IsName (xs ++ (y ∷ [])) ys l in
          (
            ys,
            path_segments-join _ (All-IsSegment _ l)
                ∙ ap (λ t. t ++ ys) (sym (path_segments-join _ (All-IsSegment _ front.0))),
          )

  pub ensure_directory-Ensured :
      (path : Text) (db after : Db P)
      → WellFormed P db
      → All IsBounded (path_segments path)
      → ensure_directory P now path db ≡ ok after
      → Ensured P db (join slash (path_segments path)) after
  unfolding ensure_directory
  ensure_directory-Ensured path db after w h e =
      ensure_from-Ensured [] (path_segments path) db after w
        (names (path_segments path) (path_segments-IsSegment path) h) (inl refl) e
    where
      names : (xs : List Text) → All IsSegment xs → All IsBounded xs → All IsName xs
      names [] h k = tt
      names (x ∷ xs) h k = ((h.0, k.0), names xs h.1 k.1)
