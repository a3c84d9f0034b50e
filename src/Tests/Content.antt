-- ===== src/Tests/Content.antt =====
-- Chunks, stored text and the content indexer at concrete inputs.
use findo.Prelude.{◌≡◌, refl, true, false, none, some, List, [], ◌∷◌, ◌⊎◌, arith, codes, Text, All}
use findo.Prelude.Int.{pos}
use findo.Index.{FileRow, Error, done}
use findo.Index.Content.{PendingFile, save_content, no_faults, content_for}
use findo.Index.Content.Stored.{save_content_round_trip}
use findo.Index.Settings.{default_content_settings}
use findo.Extract.Chunk.{chunk}
use findo.Extract.Chunk.Bounds.{Sized, chunk-IsSized}
use findo.Indexer.{FileWorld, text_of, finished, index_one}
use findo.Indexer.Progress.{Settled, index_one-IsSettled}
use findo.Tests.Files.{db, file}

chunk-IsSized_example : All (Sized 10) (chunk (codes "one two three four") 10)
chunk-IsSized_example = chunk-IsSized (codes "one two three four") 10 10 (omega arith) (omega arith)

abbrev texts : List Text
texts = codes "first" ∷ codes "second" ∷ []

save_content_round_trip_example :
    let (error, after) = save_content 1 (codes "old") 5 (pos 0) texts no_faults db in
    ((error ≡ none)
      × (content_for 1 (codes "old") after
          ≡ some (record { status = done; reason = []; chunks = texts })))
    ⊎ ((e : Error) × (error ≡ some e) × (after ≡ db))
save_content_round_trip_example =
    save_content_round_trip 1 (codes "old") 5 (pos 0) texts no_faults db

abbrev queued : PendingFile
queued = record { volume = 1; path = codes "old"; ext = []; size = 5; mod_time = pos 0 }

abbrev world : FileWorld
world = record {
  connected = true;
  cannot_open = none;
  race = finished (text_of (codes "words"));
  shutting_down = false;
  faults = no_faults;
}

abbrev old_row : FileRow
old_row = record { file = file 1 (codes "old") 5; last_seen_run = 1 }

index_one-IsSettled_example :
    Settled default_content_settings.max_file_bytes old_row db
      (index_one default_content_settings queued world db)
index_one-IsSettled_example =
    index_one-IsSettled default_content_settings queued old_row world db (refl, refl, refl, refl)
