-- ===== src/Watch/Swept.antt =====
-- A live update between a crawl's writes and its sweep.
use findo.Prelude.{
  refl, Bool, false, List, [], ◌∷◌, Text, All, ℕ, ◌≡◌, ◌≢◌, ap, ◌∙◌, true, false, none, some, arith,
}
use findo.Index.{File, same_key, Db, delete_files}
use findo.Index.Files.{lookup, sweep, stale, stream_upsert}
use findo.Index.Files.Upsert.{same_key_refl, last_of, row_or, lookup-upsert_rows}
use findo.Index.Files.Sweep.{IsKeyed, unless, lookup-filter, upsert_row-IsKeyed}
use findo.Index.Files.Stream.Induct.{stream_upsert_induction}
use findo.Index.Files.Stream.Total.{stream_upsert_complete}
use findo.Smb.{Entry}
use findo.Changes.{upserted}
use findo.Crawl.{file_of}
use findo.Watch.{Outside, apply_change_event}
use findo.Watch.Applied.{apply_change_event_exact, apply_change_event-IsKeyed}

gone_when_stale :
    (v run : ℕ) (e : Entry)
    → run ≢ 0
    → unless (stale v run) (some (record { file = file_of v e; last_seen_run = 0 })) ≡ none
unfolding file_of
gone_when_stale v run e h = ground arith

-- Entries of other paths leave the row of a path.
last_of-others :
    (v : ℕ) (p : Text) (fs : List File)
    → All (λ (f : File). same_key f.volume f.path v p ≡ false) fs
    → last_of v p fs ≡ none
unfolding last_of
last_of-others v p [] h = refl
last_of-others v p (f ∷ fs) (h, hs) = rw (last_of-others v p fs hs, h) refl

-- A file that the share has, and that a change event adds or updates while a crawl of its volume
-- runs, is in the index after the event, and no longer after that crawl's sweep, where what the crawl
-- writes in between, in batches of any size and without an error, are entries of other paths: the live
-- update's stamp 0 is not the run's.
pub live_update_swept :
    (v run batch_size : ℕ) (e : Entry) (o : Outside) (entries : List File) (faults : List Bool)
    (db : Db)
    → IsKeyed db.files
    → o.connected ≡ true
    → o.delete_fault ≡ false
    → o.upsert_fault ≡ false
    → o.stat e.path ≡ some (some e)
    → run ≢ 0
    → All (λ (f : File). same_key f.volume f.path v e.path ≡ false) entries
    → let live = apply_change_event v (upserted e.path) o db in
      let streamed = stream_upsert entries run batch_size faults live in
      streamed.0.1 ≡ none
      → (lookup v e.path live.files ≡ some (record { file = file_of v e; last_seen_run = 0 }))
        × (lookup v e.path (sweep v run false streamed.1).1.files ≡ none)
unfolding sweep delete_files
live_update_swept v run batch_size e o entries faults db k c d f st nz others no_error =
    let live = apply_change_event v (upserted e.path) o db in
    let streamed = stream_upsert entries run batch_size faults live in
    let here : lookup v e.path live.files
        ≡ some (record { file = file_of v e; last_seen_run = 0 }) =
      apply_change_event_exact v (upserted e.path) o v e.path db k c d f
      ∙ rw (st, same_key_refl v e.path) in
    let still : lookup v e.path streamed.1.files
        ≡ some (record { file = file_of v e; last_seen_run = 0 }) =
      (stream_upsert_complete entries run batch_size faults live v e.path no_error).1
      ∙ (lookup-upsert_rows run v e.path entries live.files
          ∙ (ap (λ o. row_or run o (lookup v e.path live.files))
                (last_of-others v e.path entries others)
              ∙ here)) in
    (
      here,
      lookup-filter (stale v run) v e.path streamed.1.files (
            stream_upsert_induction IsKeyed run (λ g rows. upsert_row-IsKeyed _ rows) entries
              batch_size faults live (apply_change_event-IsKeyed v (upserted e.path) o db k))
          ∙ (ap (unless (stale v run)) still ∙ gone_when_stale v run e nz),
    )
