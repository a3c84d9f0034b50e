-- ===== src/Indexer.antt =====
-- backend/internal/httpapi/contentindex.go: the content indexer.
pub mod Progress
use findo.Prelude.{
  ℕ, zero, suc, ◌+◌, Bool, true, false, not, ◌&&◌, ◌||◌, Option, none, some, List, [], ◌∷◌, leb,
  ltb, ◌==◌, if◌then◌else◌, Text, codes, take, length,
}
use findo.Strings.Runes.{trim_space, runes, concat}
use findo.Index.{Db, Error, Status, skipped, failed, Result, ok, err}
use findo.Index.Content.{
  PendingFile, Faults, save_content, save_content_skip, pending_content, too_large,
}
use findo.Index.Settings.{ContentSettings}
use findo.Extract.Chunk.{chunk, chunk_size}

abbrev pub content_batch : ℕ
content_batch = 50

abbrev pub max_reason_len : ℕ
max_reason_len = 200

-- What extract.Extract answers; any error that is not one of its own has its text.
pub data Extraction : Type 0 where
  text_of : Text → Extraction
  encrypted binary unsupported : Extraction
  other_error : Text → Extraction

-- Which event of a file's extraction comes first.
pub data Race : Type 0 where
  finished : Extraction → Race
  panicked : Text → Race
  deadline cancelled : Race

-- What the outside answers while one file is indexed. `cannot_open` has the error of Open.
pub record FileWorld : Type 0 where
  pub connected : Bool
  pub cannot_open : Option Text
  pub race : Race
  pub shutting_down : Bool
  pub faults : Faults

abbrev win : Race → Extraction
win (finished e) = e
win (panicked why) = other_error why
win deadline = other_error (codes "timed out reading the file")
win cancelled = other_error (codes "context canceled")

unfoldable pub extract_file : FileWorld → Extraction
extract_file w = elim w.cannot_open [ some e ↦ other_error e | none ↦ win w.race ]

unfoldable pub truncate_reason : Text → Text
unfolding runes concat
truncate_reason s =
    let rs = runes (length s) s in
    if leb (length rs) max_reason_len then s else concat (take max_reason_len rs)

abbrev skip : PendingFile → Status → Text → Faults → Db → Option Error × Db
skip f status reason = save_content_skip f.volume f.path f.size f.mod_time status reason

abbrev is_nil : Text → Bool
is_nil [] = true
is_nil (c ∷ s) = false

-- The outcome that is recorded for what extraction answered.
unfoldable pub save_extraction : PendingFile → Extraction → Faults → Db → Option Error × Db
unfolding truncate_reason trim_space
save_extraction f encrypted faults db = skip f skipped (codes "encrypted") faults db
save_extraction f binary faults db = skip f skipped (codes "unsupported") faults db
save_extraction f unsupported faults db = skip f skipped (codes "unsupported") faults db
save_extraction f (other_error e) faults db = skip f failed (truncate_reason e) faults db
save_extraction f (text_of t) faults db =
    if is_nil (trim_space t)
    then skip f skipped (codes "no_text") faults db
    else save_content f.volume f.path f.size f.mod_time (chunk t chunk_size) faults db

-- Whether something was recorded; any error is dropped but for a log line.
unfoldable pub record_content : Option Error × Db → Bool × Db
record_content (none, db) = (true, db)
record_content (some e, db) = (false, db)

unfoldable pub index_one : ContentSettings → PendingFile → FileWorld → Db → Bool × Db
unfolding save_extraction record_content extract_file
index_one cs f w db =
    if not w.connected
    then (false, db)
    else if ltb cs.max_file_bytes f.size
    then record_content (skip f skipped too_large w.faults db)
    else if w.shutting_down
    then (false, db)
    else record_content (save_extraction f (extract_file w) w.faults db)

-- The files that the workers took, in the order of their transactions.
abbrev pub Served : Type 0
Served = List (PendingFile × FileWorld)

unfoldable pub index_all : ContentSettings → Served → Db → ℕ × Db
unfolding index_one
index_all cs [] db = (0, db)
index_all cs ((f, w) ∷ fs) db =
    let (recorded, db') = index_one cs f w db in
    let (n, db'') = index_all cs fs db' in (if recorded then suc n else n, db'')

-- A volume as `indexableVolumeIDs` sees it: with its runtime, if any, and whether it is crawling.
pub record Candidate : Type 0 where
  pub id : ℕ
  pub enabled : Bool
  pub content_index : Bool
  pub crawling : Option Bool

abbrev idle : Option Bool → Bool
idle none = false
idle (some crawling) = not crawling

unfoldable pub indexable_volume_ids : List Candidate → List ℕ
indexable_volume_ids [] = []
indexable_volume_ids (v ∷ vs) =
    let rest = indexable_volume_ids vs in
    if not v.enabled || not v.content_index
    then rest
    else if idle v.crawling
    then v.id ∷ rest
    else rest

abbrev is_empty : List ℕ → Bool
is_empty [] = true
is_empty (v ∷ vs) = false

abbrev serve_pending :
    ContentSettings → (List PendingFile → Served) → Result (List PendingFile) → Db → ℕ × Db
serve_pending cs serve (err e) db = (0, db)
serve_pending cs serve (ok pending) db = index_all cs (serve pending) db

-- One pass: how many outcomes it recorded. `settings` and `volumes` are what the database answered,
-- none when it refused; `lower` is the database's; `serve` says in which order and with which
-- answers the workers take the files, and leaves out those that a shutdown cuts off.
unfoldable pub content_pass :
    Option ContentSettings
    → Option (List Candidate)
    → (Text → Text)
    → List Text
    → Bool
    → (List PendingFile → Served)
    → Db
    → ℕ × Db
unfolding index_all indexable_volume_ids
content_pass none volumes lower supported is_fault serve db = (0, db)
content_pass (some cs) none lower supported is_fault serve db = (0, db)
content_pass (some cs) (some vs) lower supported is_fault serve db =
    let ids = indexable_volume_ids vs in
    if cs.paused
    then (0, db)
    else if is_empty ids
    then (0, db)
    else serve_pending cs serve
        (pending_content lower ids supported cs.max_file_bytes content_batch is_fault db) db
