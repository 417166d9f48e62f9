-- ===== src/Lib.antt =====
-- zfiles is a file explorer: a React front end (web/src) that works over one of three backends,
-- a local kernel, an S3 bucket, or the browser's own storage. This library models the logic of
-- the front end: the browser's filesystem, the uploads with the sessions that resume them,
-- pasting and the names it needs, the conditions of actions, and the explorer's history, panels
-- and moves in the grid.
--
-- Texts are lists of UTF-16 code units over the native numbers (Common.Texts has what the
-- source uses of the language's strings). A JavaScript Promise that fails is a result with an
-- error; a chain of awaits inside one transaction is a function of the two object stores.
--
-- Common: shared names, tests, lists, texts, maps and signed integers.
--
-- BrowserFs.Paths: web/src/browserfs/paths.ts. BrowserFs.Paths.Segments sees a path as the list
--   of its names; BrowserFs.Paths.Laws and BrowserFs.Paths.Within say what the functions
--   compute of it.
--
-- BrowserFs.ObjectStore: what web/src/browserfs/store.ts uses of IndexedDB, as a record of
--   operations and of their documented laws; BrowserFs.ObjectStore.Lists meets it with lists.
--   It is a parameter of the store's model, with the ids that createId returns (no two alike,
--   none empty).
--
-- BrowserFs.Store: web/src/browserfs/store.ts, db.ts and errors.ts. Types has the records,
--   Requests what a transaction's body asks of the stores, Operations the methods of
--   BrowserFsStore (listChildren is list_children, and so on). A method takes the failure, if
--   any, that the browser makes of its transaction (a request that fails, a quota, a commit
--   that is refused); a failed transaction leaves both stores as they were. The clock is read
--   once for a method. A store is well formed (Invariant) when every node is at a normal path
--   under a directory, every file has contents of its own of the stated size, and no contents
--   are left over. The theorems ask that names are made of code units below 0xffff, the upper
--   end of the source's key scan. All loops run over lists, so no fuel is needed.
--
-- Uploads.Sessions: web/src/local/tusSessions.ts and web/src/cloud/multipartSessions.ts, as
--   operations on the parsed store (Scopes has its scopes).
--
-- Uploads.Queue: web/src/upload-queue.ts. Items and Progress have the items and what a report
--   of progress makes of one, State the state of useUploadQueue with what the user asks of it,
--   Worker, Transfer and Outcomes its run, cut where it awaits (begin_run, end_check,
--   end_upload, end_pause), with the callbacks of an upload, and Steps all of these as one step
--   function. A change of the items is taken to be rendered before the next step, so that
--   React's state and its ref are one; a callback of an upload comes while the upload is
--   awaited; the check of a destination, with the search for a free path, is one step. Speeds
--   are quotients of whole numbers. Calls of the backend and of the page are kept in a list.
--
-- Uploads.Panel: the counts of web/src/uploadTray.ts and of the header in
--   web/src/uploadPanelRows.ts, over the items of Uploads.Queue; quotients are exact.
--
-- Explorer.History, Explorer.PanelStack, Explorer.GridMoves:
--   web/src/explorer/navigationHistory.ts, web/src/floatingPanelStack.ts and
--   web/src/explorer/listingGridNavigation.ts. An index of the grid is signed, as it is given
--   and as it is returned.
--
-- Explorer.Selection: web/src/explorer/listingSelectionStore.ts,
--   web/src/explorer/listingSelection.ts and web/src/listingRefresh.ts, with entries given by
--   their paths. What the listeners are told is kept in order.
--
-- Actions.When: web/src/actions/when.ts, the conditions of actions. Values has the values and
--   their comparison, Tokens the tokenizer (tokenize), Parser the recursive descent that
--   evaluates as it reads (parseOr is parse_or with its loop or_loop, and so on), Grammar the
--   language by itself: its syntax, the tokens of a clause and the clause's value. Numbers are
--   exact decimal fractions where the source has floating-point ones. The tokenizer runs on a
--   fuel of the text's length and one, the parser on six for a token and six: a call of the
--   descent at the same token is for one of six levels.
--
-- FileOperations: web/src/fileOperations. Paths has paths.ts; Names the searches for a name
--   that is free (uniqueSiblingName there, uniqueConnectionName of
--   web/src/connections/naming.ts, findKeepBothPath of web/src/upload-conflict.ts); Paste has
--   performPaste.ts, cut into the parts of its loop (paste_path, paste_onto for a name that is
--   taken, resolve for the dialog's answer, transfer and settle for the action). The backend
--   and the dialog are functions of the events so far, so they may answer anything at all. The
--   first two searches have a try for each name there is and one more, which is enough because
--   the names tried are all different; the last one has the 9,999 tries of the source.
--
-- Caches.BlobUrls: web/src/browserfs/blobUrlCache.ts. The Map is the list of its entries in the
--   order of insertion; the URLs created and revoked are kept in order. The loop of evict has a
--   round for each entry.
--
-- Backends.Browser: web/src/backend/browserBackend.ts over BrowserFs.Store and Caches.BlobUrls:
--   list, stat, download_url, upload and run_action with its five actions, each case of the
--   switch a function (delete_paths, make_dir, rename_path, transfer_all). Each transaction of
--   the store has its own failure, and a failed one is rethrown. What the listeners are told is
--   kept in order.
--
-- Not modelled: React components and hooks, the Rust kernel, translations, styling, and the
-- calls of the network and the browser, which the modelled code reaches through parameters.
pub mod Common
pub mod BrowserFs
pub mod Uploads
pub mod Actions
pub mod FileOperations
pub mod Caches
pub mod Backends
pub mod Explorer
