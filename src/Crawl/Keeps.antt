-- ===== src/Crawl/Keeps.antt =====
-- A crawl that returns an error removes nothing from the index.
use findo.Prelude.{
  ℕ, ◌≡◌, ◌≢◌, refl, sym, ap, ◌∙◌, ◌⊎◌, inl, inr, Bool, true, false, Option, none, some, List, map,
  arith, Text,
}
use findo.Index.{File, FileRow, Db, Error, Result, ok, err, Trigger, CrawlRunResult}
use findo.Index.Files.{lookup, stream_upsert, sweep, start_crawl_run, finish_crawl_run}
use findo.Index.Files.Stream.Kept.{stream_upsert-Kept}
use findo.Crawl.{World, crawl, settle, after_writes, run_crawl, crawl_write_batch, file_of}

-- The tables that a run which failed leaves: every indexed path is still indexed.
abbrev pub KeepsPaths : Db → Db → Type 0
KeepsPaths a b = (v : ℕ) (p : Text) → lookup v p a.files ≢ none → lookup v p b.files ≢ none

settle-db :
    (write_err walk_err : Option Error) (v run : ℕ) (is_fault : Bool) (db : Db) (e : Error)
    → (settle write_err walk_err v run is_fault db).0.0 ≡ some e
    → (settle write_err walk_err v run is_fault db).1 ≡ db
unfolding settle sweep
settle-db (some x) walk_err v run is_fault db e h = refl
settle-db none (some x) v run is_fault db e h = refl
settle-db none none v run true db e h = refl
settle-db none none v run false db e h = cc

pub files-finish_crawl_run :
    (run : ℕ) (res : CrawlRunResult) (is_fault : Bool) (db : Db)
    → (finish_crawl_run run res is_fault db).1.files ≡ db.files
unfolding finish_crawl_run
files-finish_crawl_run run res is_fault db = ground arith

Kept-row :
    {old new : Option FileRow} (run : ℕ)
    → (new ≡ old) ⊎ ((f : File) × (new ≡ some (record { file = f; last_seen_run = run })))
    → old ≢ none
    → new ≢ none
Kept-row run (inl same) h = λ e. h (sym same ∙ e)
Kept-row run (inr (f, e')) h = λ e. cc

stream-KeepsPaths :
    (run batch_size : ℕ) (entries : List File) (faults : List Bool) (db : Db)
    → KeepsPaths db (stream_upsert entries run batch_size faults db).1
stream-KeepsPaths run batch_size entries faults db v p =
    Kept-row run (stream_upsert-Kept run v p entries batch_size faults db).row

-- After the writes, a run that fails does not touch the rows.
after_writes-files :
    (v run : ℕ) (w : World) (r : (ℕ × Option Error) × Db × List Bool) (e : Error)
    → (after_writes v run w r).0 ≡ some e
    → (after_writes v run w r).1.files ≡ r.1.files
after_writes-files v run w ((written, write_err), db, rest) e h =
    files-finish_crawl_run run _ w.finish_fault _
    ∙ ap (λ (d : Db). d.files) (settle-db write_err w.walk_err v run w.sweep_fault db e h)

run_crawl-KeepsPaths :
    (v : ℕ) (w : World) (r : Result ℕ × Db) (e : Error)
    → (run_crawl v w r).0 ≡ some e
    → KeepsPaths r.1 (run_crawl v w r).1
run_crawl-KeepsPaths v w (err x, db) e h = λ u p k. k
run_crawl-KeepsPaths v w (ok run, db) e h = λ u p k.
    let entries = map (file_of v) w.entries in
    rw
      (after_writes-files v run w (stream_upsert entries run crawl_write_batch w.insert_faults db) e
        h)
      (stream-KeepsPaths run crawl_write_batch entries w.insert_faults db u p k)

files-start_crawl_run :
    (v : ℕ) (trigger : Trigger) (is_fault : Bool) (db : Db)
    → (start_crawl_run v trigger is_fault db).1.files ≡ db.files
unfolding start_crawl_run
files-start_crawl_run v trigger is_fault db = ground arith

-- A crawl that returns an error (a volume that is not connected, a statement that the database
-- refused, a directory that could not be listed) leaves every path that was indexed before, of
-- any volume, indexed.
pub crawl_keeps :
    (v : ℕ) (trigger : Trigger) (connected : Bool) (w : World) (db : Db) (e : Error) (u : ℕ)
    (p : Text)
    → (crawl v trigger connected w db).0 ≡ some e
    → lookup u p db.files ≢ none
    → lookup u p (crawl v trigger connected w db).1.files ≢ none
unfolding crawl
crawl_keeps v trigger false w db e u p h k = k
crawl_keeps v trigger true w db e u p h k =
    run_crawl-KeepsPaths v w (start_crawl_run v trigger w.start_fault db) e h u p
      (rw (files-start_crawl_run v trigger w.start_fault db) k)
