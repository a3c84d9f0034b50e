-- ===== src/Crawl/Reconciled.antt =====
-- The whole crawl: what it leaves when it returns no error, and when it returns none.
use findo.Prelude.{
  ℕ, ◌≡◌, ◌≢◌, refl, ap, ◌∙◌, Bool, true, false, not, Option, none, List, [], map, Text, filter,
}
use findo.Index.{Db, Error, ok, Trigger, delete_files}
use findo.Index.Files.{lookup, stream_upsert, sweep, stale, start_crawl_run}
use findo.Index.Files.Upsert.{lookup-upsert_rows, last_of, row_or}
use findo.Index.Files.Sweep.{IsKeyed, Stamped, upsert_row-IsKeyed}
use findo.Index.Files.Stream.Induct.{stream_upsert_induction}
use findo.Index.Files.Stream.Total.{stream_upsert_complete, stream_upsert_refines, NeverRefuses}
use findo.Crawl.{World, crawl, settle, after_writes, run_crawl, crawl_write_batch, file_of}
use findo.Crawl.Keeps.{files-finish_crawl_run}
use findo.Crawl.Exact.{IsIndexed, walked_row, settle_ok, after_here, after_elsewhere}

module _ (v : ℕ) (w : World) (run : ℕ) (db : Db) (keyed : IsKeyed db.files)
    (stamped : Stamped run db.files) where
  abbrev streamed : (ℕ × Option Error) × Db × List Bool
  streamed = stream_upsert (map (file_of v) w.entries) run crawl_write_batch w.insert_faults db

  streamed-IsKeyed : IsKeyed streamed.1.files
  streamed-IsKeyed =
      stream_upsert_induction IsKeyed run (λ f rows. upsert_row-IsKeyed _ rows)
        (map (file_of v) w.entries) crawl_write_batch w.insert_faults db keyed

  streamed-row :
      (u : ℕ) (p : Text)
      → streamed.0.1 ≡ none
      → lookup u p streamed.1.files
        ≡ row_or run (last_of u p (map (file_of v) w.entries)) (lookup u p db.files)
  streamed-row u p h =
      (stream_upsert_complete (map (file_of v) w.entries) run crawl_write_batch w.insert_faults db u
        p h).1
      ∙ lookup-upsert_rows run u p (map (file_of v) w.entries) db.files

  -- The rows after a run with no error.
  files-after_writes :
      (after_writes v run w streamed).0 ≡ none
      → (streamed.0.1 ≡ none)
        × ((after_writes v run w streamed).1.files
            ≡ filter (λ r. not (stale v run r)) streamed.1.files)
  unfolding delete_files
  files-after_writes h =
      let (a, b) = settle_ok streamed.0.1 w.walk_err v run w.sweep_fault streamed.1 h in
      (a, files-finish_crawl_run run _ w.finish_fault _ ∙ ap (λ (d : Db). d.files) b)

  exact :
      (u : ℕ) (p : Text)
      → u ≢ v
      → (after_writes v run w streamed).0 ≡ none
      → (lookup v p (after_writes v run w streamed).1.files
          ≡ walked_row run (map (file_of v) w.entries) v p)
        × (lookup u p (after_writes v run w streamed).1.files ≡ lookup u p db.files)
  exact u p other h =
      let (a, b) = files-after_writes h in
      rw b (
        after_here v run w.entries db.files streamed.1.files v p streamed-IsKeyed stamped
            (streamed-row v p a) refl,
        after_elsewhere v run w.entries db.files streamed.1.files u p streamed-IsKeyed stamped
            (streamed-row u p a) other,
      )

module _ (v : ℕ) (trigger : Trigger) (w : World) (db : Db) where
  started_exact :
      (is_fault : Bool) (u : ℕ) (p : Text)
      → IsIndexed db
      → u ≢ v
      → (run_crawl v w (start_crawl_run v trigger is_fault db)).0 ≡ none
      → let rows = (run_crawl v w (start_crawl_run v trigger is_fault db)).1.files in
        (lookup v p rows ≡ walked_row db.next_run (map (file_of v) w.entries) v p)
        × (lookup u p rows ≡ lookup u p db.files)
  unfolding start_crawl_run
  started_exact true u p i other h = cc
  started_exact false u p i other h =
      exact v w db.next_run (start_crawl_run v trigger false db).1 i.keyed i.stamped u p other h

  written_ok :
      (run : ℕ) (db' : Db)
      → NeverRefuses w.insert_faults
      → w.walk_err ≡ none
      → w.sweep_fault ≡ false
      → (run_crawl v w (ok run, db')).0 ≡ none
  unfolding settle sweep
  written_ok run db' b c d =
      let (e, _, _, _) =
        stream_upsert_refines (map (file_of v) w.entries) run crawl_write_batch w.insert_faults db'
          v [] b in
      rw (e, c, d, settle)

-- A crawl that returns no error leaves the crawled volume with exactly the paths that the walk
-- found, each with the metadata of the last entry found for it and stamped with this run, and
-- leaves every path of another volume as it was. The rows must have one row to a path and stamps
-- that were given out before.
pub crawl_exact :
    (v : ℕ) (trigger : Trigger) (connected : Bool) (w : World) (db : Db) (u : ℕ) (p : Text)
    → IsIndexed db
    → u ≢ v
    → (crawl v trigger connected w db).0 ≡ none
    → (lookup v p (crawl v trigger connected w db).1.files
        ≡ walked_row db.next_run (map (file_of v) w.entries) v p)
      × (lookup u p (crawl v trigger connected w db).1.files ≡ lookup u p db.files)
unfolding crawl
crawl_exact v trigger false w db u p i other h = cc
crawl_exact v trigger true w db u p i other h =
    started_exact v trigger w db w.start_fault u p i other h

-- A crawl of a connected volume returns no error, whatever the walk found, where the database
-- refuses none of its statements but perhaps the record of its end, and every directory was listed.
pub crawl_succeeds :
    (v : ℕ) (trigger : Trigger) (w : World) (db : Db)
    → w.start_fault ≡ false
    → NeverRefuses w.insert_faults
    → w.walk_err ≡ none
    → w.sweep_fault ≡ false
    → (crawl v trigger true w db).0 ≡ none
unfolding crawl start_crawl_run
crawl_succeeds v trigger w db a b c d =
    rw (a, start_crawl_run) (written_ok v trigger w db db.next_run _ b c d)
