-- ===== src/Crawl.antt =====
-- backend/internal/httpapi/crawl.go: a crawl of one volume.
-- The walk sends its entries to the writer while it runs; the statements are those below, in order.
pub mod Exact
pub mod Reconciled
pub mod Keeps
pub mod Guard
use findo.Prelude.{ℕ, ◌+◌, Bool, true, false, Option, none, some, List, [], ◌∷◌, map, if◌then◌else◌}
use findo.Index.{File, Db, Error, not_connected, Result, ok, err, Trigger, CrawlRunResult}
use findo.Index.Files.{stream_upsert, sweep, start_crawl_run, finish_crawl_run}
use findo.Index.Paths.{split_path}
use findo.Smb.{Entry}

abbrev pub crawl_write_batch : ℕ
crawl_write_batch = 2000

-- The callback of `Walk`, which `upsertPath` repeats.
unfoldable pub file_of : ℕ → Entry → File
file_of v e =
    let (dir, ext) = split_path e.path in
    record {
      volume = v;
      path = e.path;
      name = e.name;
      dir = dir;
      ext = ext;
      is_dir = e.is_dir;
      size = e.size;
      mod_time = e.mod_time;
    }

unfoldable pub bytes_indexed : List Entry → ℕ
bytes_indexed [] = 0
bytes_indexed (e ∷ es) = let rest = bytes_indexed es in if e.is_dir then rest else e.size + rest

-- What the outside answers during one crawl: whether the database refuses each statement, the
-- entries in the order in which the walk sent them, and the joined errors of the walk.
pub record World : Type 0 where
  pub start_fault : Bool
  pub insert_faults : List Bool
  pub sweep_fault : Bool
  pub finish_fault : Bool
  pub entries : List Entry
  pub walk_err : Option Error

abbrev pub removed : Result ℕ × Db → (Option Error × ℕ) × Db
removed (ok n, db) = ((none, n), db)
removed (err e, db) = ((some e, 0), db)

-- The `switch`: the index is swept only if everything was written and everything was listed.
unfoldable pub settle : Option Error → Option Error → ℕ → ℕ → Bool → Db → (Option Error × ℕ) × Db
settle (some e) walk_err v run is_fault db = ((some e, 0), db)
settle none (some e) v run is_fault db = ((some e, 0), db)
settle none none v run is_fault db = removed (sweep v run is_fault db)

-- A failure to record the end of the run is only logged.
abbrev pub close_run : ℕ → ℕ → World → (Option Error × ℕ) × Db → Option Error × Db
close_run run written w ((run_err, files_removed), db) =
    (run_err, (finish_crawl_run run res w.finish_fault db).1)
  where
    res : CrawlRunResult
    res = record {
      error = run_err;
      files_seen = written;
      files_removed = files_removed;
      bytes_indexed = bytes_indexed w.entries;
    }

abbrev pub after_writes : ℕ → ℕ → World → (ℕ × Option Error) × Db × List Bool → Option Error × Db
after_writes v run w ((written, write_err), db, _) =
    close_run run written w (settle write_err w.walk_err v run w.sweep_fault db)

abbrev pub run_crawl : ℕ → World → Result ℕ × Db → Option Error × Db
run_crawl v w (err e, db) = (some e, db)
run_crawl v w (ok run, db) =
    after_writes v run w
      (stream_upsert (map (file_of v) w.entries) run crawl_write_batch w.insert_faults db)

-- The flag says whether the volume has a runtime. The result is the error that `Crawl` returns.
unfoldable pub crawl : ℕ → Trigger → Bool → World → Db → Option Error × Db
crawl v trigger connected w db =
    if connected
    then run_crawl v w (start_crawl_run v trigger w.start_fault db)
    else (some not_connected, db)
