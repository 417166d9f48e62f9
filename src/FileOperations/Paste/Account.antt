-- ===== src/FileOperations/Paste/Account.antt =====
-- What becomes of each path of a paste, and how the paste ends.
use zfiles.Common.{
  ◌≡◌, ◌≢◌, ◌⊎◌, inl, inr, refl, sym, ap, ◌∙◌, Bool, true, false, not, ◌&&◌, List, [], ◌∷◌, ◌++◌,
  Option, none, some, get_or, Text, text_eq, if◌then◌else◌, lookup, append_assoc,
}
use zfiles.FileOperations.Paths.{
  basename, is_descendant_path, join_explorer_path, parent_explorer_path,
}
use zfiles.FileOperations.Names.{unique_sibling_name}
use zfiles.FileOperations.Paste.{
  PasteBatchOnError, stop, continue, PasteConflictRequest, PasteConflictResolution, skip, replace,
  cancel, RunActionParams, Reply, done, credentials_error, other_error, Event, asked, ran,
  IndexedEntry, Paste, Step, go_on, returned, thrown, source_is_dir, is_cut, bool_ne, fail, settle,
  transfer, resolve, paste_onto, paste_path, paste_paths, perform_paste, PasteOptions, state_of,
}

-- Each path, in its order, was pasted, failed or was passed over.
pub data Accounted : List Text → List Text → List Text → Type 0 where
  nothing : Accounted [] [] []
  pasted :
      {ps ss fs : List Text} (p : Text)
      → Accounted ps ss fs
      → Accounted (ps ++ (p ∷ [])) (ss ++ (p ∷ [])) fs
  refused :
      {ps ss fs : List Text} (p : Text)
      → Accounted ps ss fs
      → Accounted (ps ++ (p ∷ [])) ss (fs ++ (p ∷ []))
  passed : {ps ss fs : List Text} (p : Text) → Accounted ps ss fs → Accounted (ps ++ (p ∷ [])) ss fs

-- The paths of the actions that were done, the first one first.
abbrev pub done_paths : List Event → List Text
done_paths [] = []
done_paths (ran p done ∷ es) = done_paths es ++ (p.path ∷ [])
done_paths (ran p credentials_error ∷ es) = done_paths es
done_paths (ran p other_error ∷ es) = done_paths es
done_paths (asked r a ∷ es) = done_paths es

abbrev pub JustCancelled : List Event → Type 0
JustCancelled (asked r cancel ∷ es) = Unit
JustCancelled _ = ⊥

abbrev pub JustThrew : List Event → Type 0
JustThrew (ran p credentials_error ∷ es) = Unit
JustThrew _ = ⊥

-- How a paste may end, with the paths it did not come to.
abbrev pub Ended : PasteBatchOnError → Step → List Text → Type 0
Ended b (go_on s) rest = ⊥
Ended b (returned true s) rest = JustCancelled s.events × (b ≡ stop → s.failed ≡ [])
Ended b (returned false s) rest =
    ((rest ≡ []) × (b ≡ stop → s.failed ≡ [])) ⊎ ((b ≡ stop) × ((p : Text) × (s.failed ≡ p ∷ [])))
Ended b (thrown s) rest = JustThrew s.events × (b ≡ stop → s.failed ≡ [])

stop-ne-continue : stop ≢ continue
stop-ne-continue = cc

module _ (options : PasteOptions) where
  record Tally (processed : List Text) (s : Paste) : Type 0 where
    accounted : Accounted processed s.succeeded s.failed
    pasted_paths : done_paths s.events ≡ s.succeeded
    unfailed : options.batch_on_error ≡ stop → s.failed ≡ []

  abbrev Treated : List Text → Text → Step → Type 0
  Treated processed source (go_on s) = Tally (processed ++ (source ∷ [])) s
  Treated processed source (returned true s) = Tally processed s × JustCancelled s.events
  Treated processed source (returned false s) =
      Accounted (processed ++ (source ∷ [])) s.succeeded s.failed
      × (done_paths s.events ≡ s.succeeded)
      × (options.batch_on_error ≡ stop)
      × (s.failed ≡ source ∷ [])
  Treated processed source (thrown s) = Tally processed s × JustThrew s.events

  module _ (processed : List Text) (source : Text) where
    fail-Treated :
        (s : Paste) → Tally processed s → Treated processed source (fail options source s)
    unfolding fail
    fail-Treated s t = go options.batch_on_error refl
      where
        go :
            (b : PasteBatchOnError)
            → options.batch_on_error ≡ b
            → Treated processed source (elim b as (λ x. Step) [
              | stop ↦ returned false (record s { failed = s.failed ++ (source ∷ []) })
              | continue ↦ go_on (record s { failed = s.failed ++ (source ∷ []) })
            ])
        go stop e = (
          refused source t.accounted,
          t.pasted_paths,
          e,
          ap (λ fs. fs ++ (source ∷ [])) (t.unfailed e),
        )
        go continue e = record {
          accounted = refused source t.accounted;
          pasted_paths = t.pasted_paths;
          unfailed = λ q. absurd (stop-ne-continue (sym q ∙ e));
        }

    settle-Treated :
        (dest_name : Text) (params : RunActionParams) (reply : Reply) (s : Paste)
        → params.path ≡ source
        → Tally processed s
        → Treated processed source (settle options source dest_name params reply s)
    unfolding settle
    settle-Treated dest_name params done s same t = record {
      accounted = pasted source t.accounted;
      pasted_paths =
          ap (λ p. done_paths s.events ++ (p ∷ [])) same
          ∙ ap (λ xs. xs ++ (source ∷ [])) t.pasted_paths;
      unfailed = t.unfailed;
    }
    settle-Treated dest_name params credentials_error s same t = (
      record { accounted = t.accounted; pasted_paths = t.pasted_paths; unfailed = t.unfailed },
      tt,
    )
    settle-Treated dest_name params other_error s same t =
        fail-Treated (record s { events = ran params other_error ∷ s.events })
          (record { accounted = t.accounted; pasted_paths = t.pasted_paths; unfailed = t.unfailed })

    Treated-if :
        (b : Bool) (x y : Step)
        → Treated processed source x
        → Treated processed source y
        → Treated processed source (if b then x else y)
    Treated-if true x y hx hy = hx
    Treated-if false x y hx hy = hy

    Tally-passed : (s : Paste) → Tally processed s → Tally (processed ++ (source ∷ [])) s
    Tally-passed s t = record {
      accounted = passed source t.accounted;
      pasted_paths = t.pasted_paths;
      unfailed = t.unfailed;
    }

    transfer-Treated :
        (dest_name : Text) (overwrite : Bool) (s : Paste)
        → Tally processed s
        → Treated processed source (transfer options source dest_name overwrite s)
    unfolding transfer
    transfer-Treated dest_name overwrite s t =
        Treated-if
          (text_eq (join_explorer_path options.dest_dir dest_name) source
            && is_cut options.clipboard.operation)
          (go_on s) _ (Tally-passed s t) (settle-Treated dest_name _ _ s refl t)

    Tally-asked :
        (r : PasteConflictRequest) (a : PasteConflictResolution) (s : Paste)
        → Tally processed s
        → Tally processed (record s { events = asked r a ∷ s.events })
    Tally-asked r a s t = record {
      accounted = t.accounted;
      pasted_paths = t.pasted_paths;
      unfailed = t.unfailed;
    }

    resolve-Treated :
        (r : PasteConflictRequest) (a : PasteConflictResolution) (s : Paste)
        → Tally processed s
        → Treated processed source (resolve options source r a s)
    unfolding resolve
    resolve-Treated r cancel s t = (Tally-asked r cancel s t, tt)
    resolve-Treated r skip s t = Tally-passed _ (Tally-asked r skip s t)
    resolve-Treated r replace s t =
        Treated-if r.type_mismatch _ _ (Tally-passed _ (Tally-asked r replace s t))
          (transfer-Treated r.dest_name true _ (Tally-asked r replace s t))

    paste_onto-Treated :
        (existing : IndexedEntry) (s : Paste)
        → Tally processed s
        → Treated processed source (paste_onto options source existing s)
    unfolding paste_onto
    paste_onto-Treated existing s t =
        Treated-if
          (text_eq (parent_explorer_path source) options.dest_dir
            && not (is_cut options.clipboard.operation))
          (transfer options source free_name false s)
          (resolve options source request (options.ask_conflict s.events request) s)
          (transfer-Treated free_name false s t)
          (resolve-Treated request (options.ask_conflict s.events request) s t)
      where
        free_name : Text
        free_name = get_or (unique_sibling_name (basename source) s.dest_names) (basename source)

        request : PasteConflictRequest
        request = record {
          source_name = basename source;
          dest_name = basename source;
          type_mismatch =
              bool_ne existing.is_dir (source_is_dir source options.all_entries_by_path);
        }

    paste_path-Treated :
        (s : Paste) → Tally processed s → Treated processed source (paste_path options source s)
    unfolding paste_path
    paste_path-Treated s t =
        Treated-if (is_descendant_path options.dest_dir source) _ _ (fail-Treated s t)
          (go (lookup s.dest_index (basename source)))
      where
        go :
            (o : Option IndexedEntry)
            → Treated processed source (elim o as (λ x. Step) [
              | none ↦ transfer options source (basename source) false s
              | some existing ↦ paste_onto options source existing s
            ])
        go none = transfer-Treated (basename source) false s t
        go (some existing) = paste_onto-Treated existing s t

  abbrev Outcome : List Text → List Text → Step → Type 0
  Outcome processed sources r =
      (seen : List Text) × (rest : List Text) × (processed ++ sources ≡ seen ++ rest)
      × Accounted seen (state_of r).succeeded (state_of r).failed
      × (done_paths (state_of r).events ≡ (state_of r).succeeded)
      × Ended options.batch_on_error r rest

  paste_paths-Outcome :
      (processed sources : List Text) (s : Paste)
      → Tally processed s
      → Outcome processed sources (paste_paths options sources s)
  unfolding paste_paths
  paste_paths-Outcome processed [] s t =
      (processed, [], refl, t.accounted, t.pasted_paths, inl (refl, t.unfailed))
  paste_paths-Outcome processed (source ∷ sources) s t =
      go (paste_path options source s) (paste_path-Treated processed source s t)
        (paste_paths-Outcome (processed ++ (source ∷ [])) sources)
    where
      go :
          (r : Step)
          → Treated processed source r
          → ((s' : Paste)
              → Tally (processed ++ (source ∷ [])) s'
              → Outcome (processed ++ (source ∷ [])) sources (paste_paths options sources s'))
          → Outcome processed (source ∷ sources) (elim r as (λ x. Step) [
            | go_on s' ↦ paste_paths options sources s'
            | returned cancelled s' ↦ returned cancelled s'
            | thrown s' ↦ thrown s'
          ])
      go (go_on s') h later =
          let (seen, rest, e, a, d, ended) = later s' h in
          (seen, rest, sym (append_assoc processed (source ∷ []) sources) ∙ e, a, d, ended)
      go (returned true s') h later =
          (processed, source ∷ sources, refl, h.0.accounted, h.0.pasted_paths, (h.1, h.0.unfailed))
      go (returned false s') h later = (
        processed ++ (source ∷ []),
        sources,
        sym (append_assoc processed (source ∷ []) sources),
        h.0,
        h.1,
        inr (h.2, (source, h.3)),
      )
      go (thrown s') h later =
          (processed, source ∷ sources, refl, h.0.accounted, h.0.pasted_paths, (h.1, h.0.unfailed))

-- A paste always ends. The paths up to some point were pasted, failed or passed over, in their
-- order; those reported as pasted are those whose action was done. It ends with all paths treated;
-- or after the first failure, where the setting is to stop there; or directly after the user has
-- cancelled; or with the error of signing in that the backend has just thrown. With that setting
-- no more than one path fails.
pub perform_paste-Accounted :
    (options : PasteOptions)
    → (seen : List Text) × (rest : List Text) × (options.clipboard.paths ≡ seen ++ rest)
      × Accounted seen
          (state_of (perform_paste options)).succeeded
          (state_of (perform_paste options)).failed
      × (done_paths (state_of (perform_paste options)).events
          ≡ (state_of (perform_paste options)).succeeded)
      × Ended options.batch_on_error (perform_paste options) rest
unfolding perform_paste
perform_paste-Accounted options =
    paste_paths-Outcome options [] options.clipboard.paths _
      (record { accounted = nothing; pasted_paths = refl; unfailed = λ e. refl })
