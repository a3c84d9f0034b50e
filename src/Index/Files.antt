-- ===== src/Index/Files.antt =====
-- The operations of backend/internal/index/index.go that write `files` and `crawl_runs`.
pub mod Upsert
pub mod Stream
pub mod Sweep
use findo.Prelude.{
  ℕ, suc, ◌+◌, Bool, true, false, not, ◌&&◌, Option, none, some, List, [], ◌∷◌, ◌++◌, leb, ◌==◌,
  if◌then◌else◌, Text, any, find, count, length,
}
use findo.Strings.{trim}
use findo.Index.{
  File, FileRow, Db, Error, fault, twice, Result, ok, err, Trigger, CrawlRunResult, RunRow,
  same_key, file_at, delete_files,
}

abbrev pub is_slash : ℕ → Bool
is_slash c = c == b'/'

-- The row of a path, if it is indexed.
unfoldable pub lookup : ℕ → Text → List FileRow → Option FileRow
unfolding find
lookup v p rows = find (file_at v p) rows

-- A batch without the entries that a later one repeats: `last[key] != i`.
unfoldable pub last_entries : List File → List File
unfolding any
last_entries [] = []
last_entries (f ∷ fs) =
    if any (λ (g : File). same_key f.volume f.path g.volume g.path) fs
    then last_entries fs
    else f ∷ last_entries fs

-- A row of the INSERT: it updates the row of its path, or is added.
unfoldable pub upsert_row : FileRow → List FileRow → List FileRow
upsert_row r [] = r ∷ []
upsert_row r (q ∷ rows) = if file_at r.volume r.path q then r ∷ rows else q ∷ upsert_row r rows

unfoldable pub upsert_rows : ℕ → List File → List FileRow → List FileRow
unfolding upsert_row
upsert_rows run [] rows = rows
upsert_rows run (f ∷ fs) rows =
    upsert_rows run fs (upsert_row (record { file = f; last_seen_run = run }) rows)

-- Whether a batch names a path twice.
unfoldable pub repeats : List File → Bool
unfolding any
repeats [] = false
repeats (f ∷ fs) =
    if any (λ (g : File). same_key f.volume f.path g.volume g.path) fs then true else repeats fs

-- INSERT … ON CONFLICT (volume_id, path) DO UPDATE, which refuses to touch a row twice.
unfoldable pub insert_files : List File → ℕ → Bool → Db → Option Error × Db
unfolding repeats upsert_rows
insert_files fs run is_fault db =
    if is_fault
    then (some fault, db)
    else if repeats fs
    then (some twice, db)
    else (none, record db { files = upsert_rows run fs db.files })

-- `is_fault` says whether the database refuses the statement.
unfoldable pub upsert_batch : List File → ℕ → Bool → Db → Option Error × Db
unfolding last_entries insert_files
upsert_batch [] run is_fault db = (none, db)
upsert_batch (f ∷ fs) run is_fault db = insert_files (last_entries (f ∷ fs)) run is_fault db

-- index.Index.Upsert
unfoldable pub upsert : File → ℕ → Bool → Db → Option Error × Db
unfolding upsert_batch
upsert f run is_fault db = upsert_batch (f ∷ []) run is_fault db

-- The variables of `StreamUpsert`, the tables, and whether each later statement is refused.
pub record StreamState : Type 0 where
  pub written : ℕ
  pub first_err : Option Error
  pub batch : List File
  pub db : Db
  pub faults : List Bool

abbrev next_fault : List Bool → Bool
next_fault [] = false
next_fault (b ∷ bs) = b

abbrev rest_faults : List Bool → List Bool
rest_faults [] = []
rest_faults (b ∷ bs) = bs

abbrev or_first : Option Error → Error → Option Error
or_first none e = some e
or_first (some e') e = some e'

abbrev flushed : StreamState → Option Error × Db → StreamState
flushed s (none, db) = record s {
  written = s.written + length s.batch;
  batch = [];
  db = db;
  faults = rest_faults s.faults;
}
flushed s (some e, db) = record s {
  first_err = or_first s.first_err e;
  batch = [];
  db = db;
  faults = rest_faults s.faults;
}

abbrev is_empty : List File → Bool
is_empty [] = true
is_empty (f ∷ fs) = false

unfoldable pub flush : ℕ → StreamState → StreamState
flush run s =
    if is_empty s.batch then s else flushed s (upsert_batch s.batch run (next_fault s.faults) s.db)

-- One entry received from the channel.
unfoldable pub receive : ℕ → ℕ → StreamState → File → StreamState
receive run batch_size s f =
    let s' = record s { batch = s.batch ++ f ∷ [] } in
    if leb batch_size (length s'.batch) then flush run s' else s'

-- The entries of the channel until it is closed.
unfoldable pub drain : ℕ → ℕ → StreamState → List File → StreamState
drain run batch_size s [] = flush run s
drain run batch_size s (f ∷ fs) = drain run batch_size (receive run batch_size s f) fs

unfoldable pub stream_upsert :
    List File → ℕ → ℕ → List Bool → Db → (ℕ × Option Error) × Db × List Bool
unfolding drain
stream_upsert entries run batch_size faults db =
    let s = drain run batch_size start entries in ((s.written, s.first_err), s.db, s.faults)
  where
    start : StreamState
    start = record { written = 0; first_err = none; batch = []; db = db; faults = faults }

abbrev pub stale : ℕ → ℕ → FileRow → Bool
stale v run r = (r.volume == v) && not (r.last_seen_run == run)

-- DELETE FROM files WHERE volume_id = v AND last_seen_run != run
unfoldable pub sweep : ℕ → ℕ → Bool → Db → Result ℕ × Db
unfolding delete_files count
sweep v run is_fault db =
    if is_fault
    then (err fault, db)
    else (ok (count (stale v run) db.files), delete_files (stale v run) db)

-- index.Index.Delete, which strips slashes from the path
unfoldable pub delete : ℕ → Text → Bool → Db → Option Error × Db
unfolding delete_files trim
delete v p is_fault db =
    if is_fault then (some fault, db) else (none, delete_files (file_at v (trim is_slash p)) db)

abbrev swept : Result ℕ × Db → Option Error × Db
swept (ok n, db) = (none, db)
swept (err e, db) = (some e, db)

abbrev then_sweep : ℕ → ℕ → Bool → Option Error × Db → Option Error × Db
then_sweep v run is_fault (some e, db) = (some e, db)
then_sweep v run is_fault (none, db) = swept (sweep v run is_fault db)

unfoldable pub reconcile : ℕ → List File → ℕ → Bool → Bool → Db → Option Error × Db
unfolding upsert_batch sweep
reconcile v fs run insert_fault sweep_fault db =
    then_sweep v run sweep_fault (upsert_batch fs run insert_fault db)

-- The identity column gives the next id.
unfoldable pub start_crawl_run : ℕ → Trigger → Bool → Db → Result ℕ × Db
start_crawl_run v trigger is_fault db =
    if is_fault
    then (err fault, db)
    else (ok db.next_run, record db { runs = row ∷ db.runs; next_run = suc db.next_run })
  where
    row : RunRow
    row = record { id = db.next_run; volume = v; trigger = trigger; result = none }

unfoldable pub finish_runs : ℕ → CrawlRunResult → List RunRow → List RunRow
finish_runs id res [] = []
finish_runs id res (r ∷ rows) =
    (if r.id == id then record r { result = some res } else r) ∷ finish_runs id res rows

unfoldable pub finish_crawl_run : ℕ → CrawlRunResult → Bool → Db → Option Error × Db
unfolding finish_runs
finish_crawl_run id res is_fault db =
    if is_fault then (some fault, db) else (none, record db { runs = finish_runs id res db.runs })
