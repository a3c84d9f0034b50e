-- ===== src/Tests/Files.antt =====
-- Batches and streams of files at concrete inputs.
use findo.Prelude.{ℕ, ◌≡◌, refl, false, none, List, [], ◌∷◌, codes, Text, length}
use findo.Prelude.Int.{pos}
use findo.Index.{File, Db}
use findo.Index.Files.{lookup, upsert_rows, upsert_batch, stream_upsert}
use findo.Index.Files.Upsert.{upsert_batch_sequential}
use findo.Index.Files.Stream.Total.{stream_upsert_refines}

abbrev pub file : ℕ → Text → ℕ → File
file v p size = record {
  volume = v;
  path = p;
  name = p;
  dir = [];
  ext = [];
  is_dir = false;
  size = size;
  mod_time = pos 0;
}

abbrev pub db : Db
db = record {
  files =
      record { file = file 1 (codes "old") 5; last_seen_run = 1 }
      ∷ record { file = file 2 (codes "b") 6; last_seen_run = 2 }
      ∷ [];
  states = [];
  chunks = [];
  runs = [];
  next_run = 3;
}

abbrev batch : List File
batch = file 1 (codes "a") 1 ∷ file 1 (codes "b") 2 ∷ file 1 (codes "a") 3 ∷ []

upsert_batch_sequential_example :
    let (e, db') = upsert_batch batch 3 false db in
    (e ≡ none)
    × (lookup 1 (codes "a") db'.files ≡ lookup 1 (codes "a") (upsert_rows 3 batch db.files))
    × (db' ≡ record db { files = db'.files })
upsert_batch_sequential_example = upsert_batch_sequential batch 3 1 (codes "a") db

stream_upsert_refines_example :
    let ((written, e), db', _) = stream_upsert batch 3 2 (false ∷ []) db in
    (e ≡ none)
    × (written ≡ length batch)
    × (lookup 1 (codes "a") db'.files ≡ lookup 1 (codes "a") (upsert_rows 3 batch db.files))
    × (db' ≡ record db { files = db'.files })
stream_upsert_refines_example =
    stream_upsert_refines batch 3 2 (false ∷ []) db 1 (codes "a") (refl, tt)
