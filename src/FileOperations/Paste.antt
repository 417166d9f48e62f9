-- ===== src/FileOperations/Paste.antt =====
-- web/src/fileOperations/performPaste.ts. The backend and the dialog on conflicts are functions of
-- what has happened so far, so the answers may be any at all.
pub mod Agreement
pub mod Index
pub mod Consent
pub mod Account
use zfiles.Common.{
  Bool, true, false, not, ◌&&◌, List, [], ◌∷◌, ◌++◌, Option, none, some, get_or, Text, text_eq,
  if◌then◌else◌, Entries, lookup, assign, has_name,
}
use zfiles.FileOperations.Paths.{
  basename, is_descendant_path, join_explorer_path, parent_explorer_path,
}
use zfiles.FileOperations.Names.{unique_sibling_name}

pub data FileClipboardOperation : Type 0 where
  copy : FileClipboardOperation
  cut : FileClipboardOperation

pub record FileClipboard : Type 0 where
  pub operation : FileClipboardOperation
  pub paths : List Text

pub record FileEntry : Type 0 where
  pub name : Text
  pub path : Text
  pub is_dir : Bool

pub data PasteBatchOnError : Type 0 where
  stop : PasteBatchOnError
  continue : PasteBatchOnError

pub record PasteConflictRequest : Type 0 where
  pub source_name : Text
  pub dest_name : Text
  pub type_mismatch : Bool

pub data PasteConflictResolution : Type 0 where
  skip : PasteConflictResolution
  replace : PasteConflictResolution
  cancel : PasteConflictResolution

-- The parameters of `backend.runAction`, for the one path that it is given.
pub record RunActionParams : Type 0 where
  pub action_id : FileClipboardOperation
  pub path : Text
  pub dest_dir : Text
  pub new_name : Option Text
  pub overwrite : Bool

-- The action succeeds, or throws an error of signing in or another one.
pub data Reply : Type 0 where
  done : Reply
  credentials_error : Reply
  other_error : Reply

pub data Event : Type 0 where
  asked : PasteConflictRequest → PasteConflictResolution → Event
  ran : RunActionParams → Reply → Event

pub record IndexedEntry : Type 0 where
  pub path : Text
  pub is_dir : Bool

-- The variables of the loop, and the events up to now, the last one first.
pub record Paste : Type 0 where
  pub events : List Event
  pub dest_index : Entries IndexedEntry
  pub dest_names : List Text
  pub succeeded : List Text
  pub failed : List Text

pub data Step : Type 0 where
  go_on : Paste → Step
  returned : (cancelled : Bool) → Paste → Step
  thrown : Paste → Step

abbrev pub state_of : Step → Paste
state_of (go_on s) = s
state_of (returned cancelled s) = s
state_of (thrown s) = s

unfoldable pub build_entry_index : List FileEntry → Entries IndexedEntry → Entries IndexedEntry
build_entry_index [] index = index
build_entry_index (e ∷ es) index =
    build_entry_index es (assign index e.name (record { path = e.path; is_dir = e.is_dir }))

unfoldable pub keys : Entries IndexedEntry → List Text
keys [] = []
keys ((k, v) ∷ rest) = k ∷ keys rest

unfoldable pub find_entry : List FileEntry → Text → Option FileEntry
find_entry [] p = none
find_entry (e ∷ es) p = let rest = find_entry es p in if text_eq e.path p then some e else rest

unfoldable pub source_is_dir : Text → List FileEntry → Bool
unfolding find_entry
source_is_dir p entries_by_path = elim (find_entry entries_by_path p) [
  | none ↦ false
  | some e ↦ e.is_dir
]

unfoldable pub is_cut : FileClipboardOperation → Bool
is_cut o = elim o [ copy ↦ false | cut ↦ true ]

unfoldable pub bool_ne : Bool → Bool → Bool
bool_ne true b = not b
bool_ne false b = b

unfoldable pub new_name_of : Text → Text → Option Text
new_name_of source_name dest_name = if text_eq dest_name source_name then none else some dest_name

-- The argument of `performPaste`.
pub record PasteOptions : Type 0 where
  pub run_action : List Event → RunActionParams → Reply
  pub ask_conflict : List Event → PasteConflictRequest → PasteConflictResolution
  pub clipboard : FileClipboard
  pub dest_dir : Text
  pub listing_entries : List FileEntry
  pub all_entries_by_path : List FileEntry
  pub batch_on_error : PasteBatchOnError

module _ (options : PasteOptions) where
  -- A failure of this path: the loop is left, or goes on.
  unfoldable pub fail : Text → Paste → Step
  fail source s =
      let s' : Paste = record s { failed = s.failed ++ (source ∷ []) } in
      elim options.batch_on_error [ stop ↦ returned false s' | continue ↦ go_on s' ]

  unfoldable pub settle : Text → Text → RunActionParams → Reply → Paste → Step
  unfolding fail source_is_dir
  settle source dest_name params reply s =
      let s' : Paste = record s { events = ran params reply ∷ s.events } in
      elim reply [
        | done ↦ go_on (record s' {
          succeeded = s.succeeded ++ (source ∷ []);
          dest_names = dest_name ∷ s.dest_names;
          dest_index = assign s.dest_index dest_name (record {
            path = join_explorer_path options.dest_dir dest_name;
            is_dir = source_is_dir source options.all_entries_by_path;
          });
        })
        | credentials_error ↦ thrown s'
        | other_error ↦ fail source s'
      ]

  -- From the comparison of the destination with the source on.
  unfoldable pub transfer : Text → Text → Bool → Paste → Step
  unfolding settle new_name_of is_cut
  transfer source dest_name overwrite s =
      let params : RunActionParams = record {
        action_id = options.clipboard.operation;
        path = source;
        dest_dir = options.dest_dir;
        new_name = new_name_of (basename source) dest_name;
        overwrite = overwrite;
      } in
      if text_eq (join_explorer_path options.dest_dir dest_name) source
        && is_cut options.clipboard.operation
      then go_on s
      else settle source dest_name params (options.run_action s.events params) s

  unfoldable pub resolve : Text → PasteConflictRequest → PasteConflictResolution → Paste → Step
  unfolding transfer
  resolve source request resolution s =
      let s' : Paste = record s { events = asked request resolution ∷ s.events } in
      elim resolution [
        | cancel ↦ returned true s'
        | skip ↦ go_on s'
        | replace ↦
            if request.type_mismatch then go_on s' else transfer source request.dest_name true s'
      ]

  -- The name is taken in the destination. The search for a free one always finds one.
  unfoldable pub paste_onto : Text → IndexedEntry → Paste → Step
  unfolding resolve transfer bool_ne is_cut source_is_dir
  paste_onto source existing s =
      let source_name = basename source in
      let request : PasteConflictRequest = record {
        source_name = source_name;
        dest_name = source_name;
        type_mismatch = bool_ne existing.is_dir (source_is_dir source options.all_entries_by_path);
      } in
      if text_eq (parent_explorer_path source) options.dest_dir
        && not (is_cut options.clipboard.operation)
      then transfer source (get_or (unique_sibling_name source_name s.dest_names) source_name) false
          s
      else resolve source request (options.ask_conflict s.events request) s

  unfoldable pub paste_path : Text → Paste → Step
  unfolding paste_onto transfer fail
  paste_path source s =
      if is_descendant_path options.dest_dir source
      then fail source s
      else elim (lookup s.dest_index (basename source)) [
        | none ↦ transfer source (basename source) false s
        | some existing ↦ paste_onto source existing s
      ]

  unfoldable pub paste_paths : List Text → Paste → Step
  unfolding paste_path
  paste_paths [] s = returned false s
  paste_paths (source ∷ sources) s = elim (paste_path source s) [
    | go_on s' ↦ paste_paths sources s'
    | returned cancelled s' ↦ returned cancelled s'
    | thrown s' ↦ thrown s'
  ]

  unfoldable pub perform_paste : Step
  unfolding paste_paths build_entry_index keys
  perform_paste =
      let dest_index = build_entry_index options.listing_entries [] in
      paste_paths options.clipboard.paths (record {
        events = [];
        dest_index = dest_index;
        dest_names = keys dest_index;
        succeeded = [];
        failed = [];
      })
