-- ===== src/BrowserFs/Store/Methods/Reads.antt =====
-- What is read after a write: the new contents at its path, and at every other path what was there.
use zfiles.Common.{
  ℕ, ◌≡◌, refl, ap, ◌∙◌, ap₂, sym, ◌⊎◌, inl, inr, true, false, ◌∷◌, [], Option, none, some, Text,
  is_empty, text_eq, text_eq_refl, arith, Bool-cases, Option-cases, if◌then◌else◌, All, join,
}
use zfiles.BrowserFs.Paths.{slash, path_parent, path_segments, normalize_path}
use zfiles.BrowserFs.Store.Types.{
  Node, Blob, BlobRecord, Platform, Db, Failure, Result, ok, err, require_writable_path, truthy,
  not_found,
}
use zfiles.BrowserFs.Store.Requests.{get_node}
use zfiles.BrowserFs.Store.Operations.{write_body, write_file, put_file, read_blob, old_blob}
use zfiles.BrowserFs.Store.Invariant.{IsBounded, get_record, WellFormed}
use zfiles.BrowserFs.Store.Invariant.Files.{Writes, kept_record}
use zfiles.BrowserFs.Store.Methods.{
  require_writable_path-normalize_path, require_writable_path-IsPath,
}
use zfiles.BrowserFs.Store.Methods.Contents.{checked-eq-ok}
use zfiles.BrowserFs.Store.Invariant.Ensure.{Ensured}
use zfiles.BrowserFs.Store.Methods.Trees.{write_body-Wrote, put_file-Writes, parent-Ensured}

unfoldable pub read_id : (P : Platform) → P.Blobs.Records → Option Text → Result Blob
read_id P blobs none = err not_found
read_id P blobs (some id) = elim (P.Blobs.get blobs id) [
  | none ↦ err not_found
  | some r ↦ ok r.blob
]

unfoldable pub read_node : (P : Platform) → P.Blobs.Records → Option Node → Result Blob
read_node P blobs none = err not_found
read_node P blobs (some n) = if n.is_dir then err not_found else read_id P blobs (truthy n.blob_id)

-- What is read at a path in normal form.
unfoldable pub read_at : (P : Platform) → Db P → Text → Result Blob
read_at P db p = read_node P db.blobs (get_node P db p)

pub read_blob_lem :
    (P : Platform) (q : Text) (db : Db P)
    → (read_blob P none q db).0 ≡ read_at P db (normalize_path q)
unfolding read_blob read_at read_node read_id
read_blob_lem P q db = ground arith

truthy-nonempty : (id : Text) → is_empty id ≡ false → truthy (some id) ≡ some id
truthy-nonempty [] h = cc
truthy-nonempty (c ∷ s) h = refl

module _ (P : Platform) where
  pub read_at_file :
      (db : Db P) (p : Text) (n : Node) (id : Text) (r : BlobRecord)
      → get_node P db p ≡ some n
      → n.is_dir ≡ false
      → truthy n.blob_id ≡ some id
      → get_record P db id ≡ some r
      → read_at P db p ≡ ok r.blob
  unfolding read_at read_node read_id
  read_at_file db p n id r e f t h = ground arith

  pub read_at_missing :
      (db : Db P) (p : Text)
      → (get_node P db p ≡ none) ⊎ ((n : Node) × (get_node P db p ≡ some n) × (n.is_dir ≡ true))
      → read_at P db p ≡ err not_found
  unfolding read_at read_node
  read_at_missing db p h = ground arith

  pub stored_at :
      (db : Db P) (p : Text) (n : Node)
      → WellFormed P db
      → get_node P db p ≡ some n
      → n.is_dir ≡ false
      → (id : Text) × (r : BlobRecord) × (n.blob_id ≡ some id)
        × (truthy n.blob_id ≡ some id)
        × (get_record P db id ≡ some r)
  stored_at db p n w e f =
      let (id, r, b, ne, h, _) = (w.placed p n e).stored f in
      (id, r, b, ap truthy b ∙ truthy-nonempty id ne, h)

  -- Directories made on the way hide no file.
  pub read_at-Ensured :
      (path : Text) (db ready : Db P)
      → Ensured P db path ready
      → (p : Text) → read_at P ready p ≡ read_at P db p
  unfolding read_at
  read_at-Ensured path db ready h p = elim (h.adds p) [
    | inl same ↦ ap₂ (read_node P) h.blobs same
    | inr (n, free, at, d, _, _) ↦
        read_at_missing ready p (inr (n, at, d)) ∙ sym (read_at_missing db p (inl free))
  ]

  module _ (db after : Db P) (target : Text) (old : Option Text) (new : Node) (blob : Blob)
      (w : WellFormed P db) (wr : Writes P db after target old new blob) where
    read_at-new : (p : Text) → text_eq target p ≡ true → read_at P after p ≡ ok blob
    read_at-new p same =
        let id = P.create_id db.issued in
        read_at_file after p new id (record { id = id; blob = blob })
          (ground (arith, wr.nodes p, same)) wr.new_file.0
          (ap truthy wr.new_file.1 ∙ truthy-nonempty id (P.create_id-ne-nil db.issued))
          (ground (arith, wr.blobs id, text_eq_refl id))

    read_at-other : (p : Text) → text_eq target p ≡ false → read_at P after p ≡ read_at P db p
    read_at-other p away = elim (Option-cases (get_node P db p)) [
      | inl free ↦
          read_at_missing after p (inl (ground (arith, wr.nodes p, away)))
          ∙ sym (read_at_missing db p (inl free))
      | inr (n, at) ↦
          let at' : get_node P after p ≡ some n = ground (arith, wr.nodes p, away) in
          elim (Bool-cases n.is_dir) [
            | inl d ↦
                read_at_missing after p (inr (n, at', d))
                ∙ sym (read_at_missing db p (inr (n, at, d)))
            | inr f ↦
                let (id, r, b, t, h) = stored_at db p n w at f in
                read_at_file after p n id r at' f t
                  (kept_record P db after target old new blob w wr p n id r at b away h)
                ∙ sym (read_at_file db p n id r at f t h)
          ]
    ]

    read_at-Writes :
        (p : Text) → read_at P after p ≡ (if text_eq target p then ok blob else read_at P db p)
    read_at-Writes p = elim (Bool-cases (text_eq target p)) [
      | inl same ↦ rw same (read_at-new p same)
      | inr away ↦ rw away (read_at-other p away)
    ]

-- After a successful `writeFile` the new contents are read at its path, and at every other path
-- what was read there before, also where the call has made directories or replaced a file.
pub read_blob-write_file :
    (P : Platform) (failure : Option Failure) (now : ℕ) (path : Text) (blob : Blob)
    (content_type : Option Text) (db : Db P) (node : Node) (after : Db P)
    → WellFormed P db
    → All IsBounded (path_segments path)
    → write_file P failure now path blob content_type db ≡ (ok node, after)
    → (q : Text)
    → (read_blob P none q after).0 ≡ (
        if text_eq (normalize_path path) (normalize_path q)
        then ok blob
        else (read_blob P none q db).0)
unfolding write_file
read_blob-write_file P failure now path blob ct db node after w bounded e q =
    let (target, r, e') =
      checked-eq-ok P (require_writable_path path) (λ t d. write_body P now t blob ct d) failure db
        node after e in
    let is = require_writable_path-IsPath path target bounded r in
    let h = write_body-Wrote P now target blob ct db node after e' in
    let made = parent-Ensured P now target is db h.ready w h.made in
    let wr = put_file-Writes P now target blob ct h.ready made.well h.existing h.at h.file in
    let (_, same) = require_writable_path-normalize_path path target r in
    let n = normalize_path q in
    read_blob_lem P q after
    ∙ ap (λ (x : Node × Db P). read_at P x.1 n) (sym h.put)
    ∙ read_at-Writes P h.ready (put_file P now target blob ct h.existing h.ready).1 target
        (old_blob h.existing) (put_file P now target blob ct h.existing h.ready).0 blob made.well wr
        n
    ∙ ap₂ (λ t x. if text_eq t n then ok blob else x) same
        (read_at-Ensured P (join slash (path_segments (path_parent target))) db h.ready made n
          ∙ sym (read_blob_lem P q db))
