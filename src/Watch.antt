-- ===== src/Watch.antt =====
-- backend/internal/httpapi/watch.go: change events on the index.
pub mod Applied
pub mod Swept
use findo.Prelude.{ℕ, Bool, true, false, Option, none, some, if◌then◌else◌, Text}
use findo.Index.{Db, Error}
use findo.Index.Files.{delete, upsert}
use findo.Smb.{Entry}
use findo.Changes.{ChangeEvent, upserted, renamed}
use findo.Crawl.{file_of}

-- What the outside answers while one event is handled: whether the volume has a runtime, what the
-- share says of a path (none: an error; some none: it is gone), and whether the database refuses.
pub record Outside : Type 0 where
  pub connected : Bool
  pub stat : Text → Option (Option Entry)
  pub delete_fault : Bool
  pub upsert_fault : Bool

abbrev pub put_entry : ℕ → Outside → Option (Option Entry) → Db → Db
put_entry v o none db = db
put_entry v o (some none) db = db
put_entry v o (some (some e)) db = (upsert (file_of v e) 0 o.upsert_fault db).1

-- Errors are only logged.
unfoldable pub upsert_path : ℕ → Text → Outside → Db → Db
upsert_path v p o db = if o.connected then put_entry v o (o.stat p) db else db

unfoldable pub apply_change_event : ℕ → ChangeEvent → Outside → Db → Db
unfolding upsert_path
apply_change_event v (ChangeEvent.removed p) o db = (delete v p o.delete_fault db).1
apply_change_event v (renamed old new) o db = upsert_path v new o (delete v old o.delete_fault db).1
apply_change_event v (upserted p) o db = upsert_path v p o db
