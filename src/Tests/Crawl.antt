-- ===== src/Tests/Crawl.antt =====
-- A crawl at concrete inputs.
use findo.Prelude.{
  ◌≡◌, ◌≢◌, refl, true, false, none, some, List, [], ◌∷◌, arith, codes, map, text_eq,
}
use findo.Prelude.Int.{pos}
use findo.Index.{walk_failed, manual}
use findo.Index.Files.{lookup, flush, receive, start_crawl_run, stream_upsert, upsert_batch}
use findo.Smb.{Entry}
use findo.Crawl.{World, crawl, file_of, settle}
use findo.Crawl.Exact.{IsIndexed, walked_row}
use findo.Crawl.Keeps.{crawl_keeps}
use findo.Crawl.Reconciled.{crawl_exact, crawl_succeeds}
use findo.Tests.Files.{db}

abbrev entries : List Entry
entries =
    record {
      path = codes "docs/new.txt";
      name = codes "new.txt";
      is_dir = false;
      size = 9;
      mod_time = pos 7;
    }
    ∷ []

abbrev calm : World
calm = record {
  start_fault = false;
  insert_faults = false ∷ [];
  sweep_fault = false;
  finish_fault = true;
  entries = entries;
  walk_err = none;
}

abbrev partial : World
partial = record calm { walk_err = some walk_failed }

crawl_succeeds_example : (crawl 1 manual true calm db).0 ≡ none
crawl_succeeds_example = crawl_succeeds 1 manual calm db refl (refl, tt) refl refl

db-IsIndexed : IsIndexed db
unfolding lookup text_eq
db-IsIndexed = record { keyed = (refl, (refl, tt)); stamped = omega arith }

crawl_exact_example :
    (lookup 1 (codes "old") (crawl 1 manual true calm db).1.files
      ≡ walked_row 3 (map (file_of 1) entries) 1 (codes "old"))
    × (lookup 2 (codes "old") (crawl 1 manual true calm db).1.files
        ≡ lookup 2 (codes "old") db.files)
crawl_exact_example =
    crawl_exact 1 manual true calm db 2 (codes "old") db-IsIndexed (omega arith)
      crawl_succeeds_example

failed_crawl : (crawl 1 manual true partial db).0 ≡ some walk_failed
unfolding crawl start_crawl_run stream_upsert upsert_batch settle text_eq flush receive
failed_crawl = refl

crawl_keeps_example : lookup 1 (codes "old") (crawl 1 manual true partial db).1.files ≢ none
unfolding lookup text_eq
crawl_keeps_example =
    crawl_keeps 1 manual true partial db walk_failed 1 (codes "old") failed_crawl (λ e. cc)
