-- ===== src/Indexer/Progress.antt =====
-- An outcome that is recorded takes the file off the queue.
use findo.Prelude.{
  ℕ, ◌≡◌, refl, Bool, true, false, not, ◌&&◌, Option, some, List, arith, leb, ltb, if◌then◌else◌,
  Text, codes, text_eq, find, inl, inr, ◌⊎◌, Bool-cases, ==_refl,
}
use findo.Prelude.Int.{int_eq_refl}
use findo.Index.{Db, FileRow, StateRow, Error, Status, skipped, failed, state_at}
use findo.Index.Content.{
  PendingFile, Faults, save_content, save_content_skip, too_large, waits, state_of, is_skipped,
  done_row, skip_row,
}
use findo.Index.Content.Stored.{find-put_state, save_content_outcome, save_content_skip_outcome}
use findo.Index.Settings.{ContentSettings}
use findo.Strings.Runes.{trim_space}
use findo.Extract.Chunk.{chunk, chunk_size}
use findo.Indexer.{
  FileWorld, Extraction, text_of, encrypted, binary, unsupported, other_error, save_extraction,
  record_content, index_one, extract_file, is_nil,
}

-- The row is the pending file, unchanged since it was queued.
abbrev pub Unchanged : PendingFile → FileRow → Type 0
Unchanged f r =
    (r.volume ≡ f.volume) × (r.path ≡ f.path) × (r.size ≡ f.size) × (r.mod_time ≡ f.mod_time)

-- Either an outcome is recorded, which takes the row off the queue and keeps the table of files, or
-- nothing is recorded and nothing changes.
abbrev pub Settled : ℕ → FileRow → Db → Bool × Db → Type 0
Settled max r db (recorded, after) =
    ((recorded ≡ true) × (waits max (state_of r after) r ≡ false) × (after.files ≡ db.files))
    ⊎ ((recorded ≡ false) × (after ≡ db))

leaves_queue :
    (max : ℕ) (f : PendingFile) (s : StateRow) (states : List StateRow) (r : FileRow)
    → s.size ≡ f.size
    → s.mod_time ≡ f.mod_time
    → (is_skipped s.status && (text_eq s.reason too_large && leb f.size max)) ≡ false
    → Unchanged f r
    → find (state_at f.volume f.path) states ≡ some s
    → waits max (find (state_at r.volume r.path) states) r ≡ false
leaves_queue max f s states r c d e (a', b', c', d') h =
    rw (a', b', h, c', d', c, d, ==_refl f.size, int_eq_refl f.mod_time) e

skip_settles :
    (max : ℕ) (f : PendingFile) (r : FileRow) (status : Status) (reason : Text) (faults : Faults)
    (db : Db)
    → (is_skipped status && (text_eq reason too_large && leb f.size max)) ≡ false
    → Unchanged f r
    → Settled max r db (
        record_content
          (save_content_skip f.volume f.path f.size f.mod_time status reason faults db))
unfolding record_content
skip_settles max f r status reason faults db h u =
    elim (save_content_skip_outcome f.volume f.path f.size f.mod_time status reason faults db) [
      | inl (e, same) ↦ rw same (inr (refl, refl))
      | inr (here, same) ↦
          rw same
            (inl (refl, leaves_queue max f s _ r refl refl h u (find-put_state s db.states), refl))
    ]
  where
    s : StateRow
    s = skip_row f.volume f.path f.size f.mod_time status reason

save_settles :
    (max : ℕ) (f : PendingFile) (r : FileRow) (chunks : List Text) (faults : Faults) (db : Db)
    → Unchanged f r
    → Settled max r db
        (record_content (save_content f.volume f.path f.size f.mod_time chunks faults db))
unfolding record_content
save_settles max f r chunks faults db u =
    elim (save_content_outcome f.volume f.path f.size f.mod_time chunks faults db) [
      | inl (e, same) ↦ rw same (inr (refl, refl))
      | inr (here, same) ↦
          rw same (
            inl
              (refl, leaves_queue max f s _ r refl refl refl u (find-put_state s db.states), refl))
    ]
  where
    s : StateRow
    s = done_row f.volume f.path f.size f.mod_time chunks

Settled-if :
    (max : ℕ) (f : PendingFile) (r : FileRow) (db : Db) (b : Bool) (x y : Option Error × Db)
    → Settled max r db (record_content x)
    → Settled max r db (record_content y)
    → Settled max r db (record_content (if b then x else y))
Settled-if max f r db true x y h k = h
Settled-if max f r db false x y h k = k

extraction_settles :
    (max : ℕ) (f : PendingFile) (r : FileRow) (e : Extraction) (faults : Faults) (db : Db)
    → Unchanged f r
    → Settled max r db (record_content (save_extraction f e faults db))
unfolding save_extraction text_eq
extraction_settles max f r encrypted faults db u =
    skip_settles max f r skipped _ faults db (ground arith) u
extraction_settles max f r binary faults db u =
    skip_settles max f r skipped _ faults db (ground arith) u
extraction_settles max f r unsupported faults db u =
    skip_settles max f r skipped _ faults db (ground arith) u
extraction_settles max f r (other_error e) faults db u =
    skip_settles max f r failed _ faults db refl u
extraction_settles max f r (text_of t) faults db u =
    Settled-if max f r db (is_nil (trim_space t)) _ _
      (skip_settles max f r skipped (codes "no_text") faults db refl u)
      (save_settles max f r (chunk t chunk_size) faults db u)

-- For the row of a file that has the size and the modification time that the file was queued with,
-- an attempt to index the file either records an outcome, which takes the row off the queue under
-- the same limits and keeps the table of files, or records nothing and changes nothing.
pub index_one-IsSettled :
    (cs : ContentSettings) (f : PendingFile) (r : FileRow) (w : FileWorld) (db : Db)
    → Unchanged f r
    → Settled cs.max_file_bytes r db (index_one cs f w db)
unfolding index_one
index_one-IsSettled cs f r w db u = elim (Bool-cases (not w.connected)) [
  | inl off ↦ rw off (inr (refl, refl))
  | inr on ↦ rw on elim (Bool-cases (ltb cs.max_file_bytes f.size)) [
    | inl big ↦
        rw big (skip_settles cs.max_file_bytes f r skipped too_large w.faults db (ground arith) u)
    | inr fits ↦ rw fits elim (Bool-cases w.shutting_down) [
      | inl down ↦ rw down (inr (refl, refl))
      | inr up ↦ rw up (extraction_settles cs.max_file_bytes f r (extract_file w) w.faults db u)
    ]
  ]
]
