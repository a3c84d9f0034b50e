-- ===== src/Tests/Watch.antt =====
-- Change events and the watch loop at concrete inputs.
use findo.Prelude.{◌≡◌, refl, true, false, none, some, List, [], ◌∷◌, ◌++◌, arith, codes, text_eq}
use findo.Prelude.Int.{pos}
use findo.Index.Files.{lookup, sweep, stream_upsert}
use findo.Index.Files.Sweep.{IsKeyed}
use findo.Smb.{Entry}
use findo.Changes.{upserted, renamed, needs_resync, cancelled_in_wait, watch_loop, base_backoff}
use findo.Changes.Backoff.{losses, recoveries, delay, twice_over, in_wait, watch_loop_recovers}
use findo.Crawl.{file_of}
use findo.Watch.{Outside, apply_change_event}
use findo.Watch.Applied.{expected, apply_change_event_exact}
use findo.Watch.Swept.{live_update_swept}
use findo.Changes.{Info, added, translate_changes}
use findo.Changes.Complete.{touched_by, named_by, translate_changes_complete}
use findo.Index.Files.Stream.Total.{stream_upsert_refines}
use findo.Tests.Files.{file, db}
use findo.Index.{File}

abbrev entry : Entry
entry = record {
  path = codes "new";
  name = codes "new";
  is_dir = false;
  size = 4;
  mod_time = pos 8;
}

abbrev outside : Outside
outside = record {
  connected = true;
  stat = λ p. some (some entry);
  delete_fault = false;
  upsert_fault = false;
}

db-IsKeyed : IsKeyed db.files
unfolding lookup text_eq
db-IsKeyed = (refl, (refl, tt))

apply_change_event_exact_example :
    lookup 1
      (codes "new")
      (apply_change_event 1 (renamed (codes "old") (codes "new")) outside db).files
    ≡ expected 1
        (renamed (codes "old") (codes "new"))
        outside
        1
        (codes "new")
        (lookup 1 (codes "new") db.files)
apply_change_event_exact_example =
    apply_change_event_exact 1 (renamed (codes "old") (codes "new")) outside 1 (codes "new") db
      db-IsKeyed refl refl refl

abbrev others : List File
others = file 1 (codes "old") 6 ∷ file 1 (codes "c") 1 ∷ []

live_update_swept_example :
    let live = apply_change_event 1 (upserted (codes "new")) outside db in
    (lookup 1 (codes "new") live.files
      ≡ some (record { file = file_of 1 entry; last_seen_run = 0 }))
    × (lookup 1 (codes "new") (sweep 1 3 false (stream_upsert others 3 1 [] live).1).1.files ≡ none)
unfolding text_eq
live_update_swept_example =
    live_update_swept 1 3 1 entry outside others [] db db-IsKeyed refl refl refl refl (ground arith)
      (refl, (refl, tt))
      (stream_upsert_refines others 3 1 []
        (apply_change_event 1 (upserted (codes "new")) outside db) 1 (codes "new") tt).0

abbrev infos : List Info
infos = record { action = added; file_name = codes "a" } ∷ []

translate_changes_complete_example : touched_by (translate_changes infos) ≡ named_by infos
translate_changes_complete_example = translate_changes_complete infos

watch_loop_recovers_example :
    watch_loop base_backoff (losses 2 ++ cancelled_in_wait ∷ [])
    ≡ recoveries 0 2 ++ needs_resync ∷ []
watch_loop_recovers_example = watch_loop_recovers 2 cancelled_in_wait (needs_resync ∷ []) [] in_wait

last_waits : (delay 5 ≡ 32000) × (delay 6 ≡ 60000)
unfolding twice_over
last_waits = (refl, refl)
