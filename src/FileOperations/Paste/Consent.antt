-- ===== src/FileOperations/Paste/Consent.antt =====
-- What a paste asks of the backend, against the names in the destination and the user's answers.
use zfiles.Common.{◌≡◌, none, Text, lookup, In}
use zfiles.FileOperations.Paste.{Paste, PasteOptions}
use zfiles.FileOperations.Paste.Agreement.{names_after, listed, kind_after, Consented}
use zfiles.FileOperations.Paste.Index.{kind_indexed}

module _ (options : PasteOptions) where
  -- The index and the set of names know every name in the destination.
  record Knows (s : Paste) : Type 0 where
    consented : Consented options s.events
    indexed :
        (n : Text) → lookup s.dest_index n ≡ none → ¬ In n (names_after (listed options) s.events)
    kinds : (n : Text) → kind_indexed (lookup s.dest_index n) ≡ kind_after options s.events n
    named : (n : Text) → ¬ In n s.dest_names → ¬ In n (names_after (listed options) s.events)
