-- ===== src/Index/Files/Stream/Induct.antt =====
-- A property of the rows that each upsert keeps, a whole `StreamUpsert` keeps.
use findo.Prelude.{ℕ, inl, inr, Bool, Option, List, [], ◌∷◌, ◌++◌, leb, length, Bool-cases}
use findo.Index.{File, FileRow, Db, Error}
use findo.Index.Files.{
  upsert_row, upsert_rows, last_entries, upsert_batch, StreamState, flush, receive, drain,
  stream_upsert, next_fault, is_empty,
}
use findo.Index.Files.Stream.{Wrote, upsert_batch-Wrote}
use findo.Index.Files.Stream.Kept.{flushed-db}

module _ {ℓ} (P : List FileRow → Type ℓ) (run : ℕ)
    (step : (f : File) (rows : List FileRow)
      → P rows
      → P (upsert_row (record { file = f; last_seen_run = run }) rows)) where
  upsert_rows_induction :
      (fs : List File) (rows : List FileRow) → P rows → P (upsert_rows run fs rows)
  unfolding upsert_rows
  upsert_rows_induction [] rows h = h
  upsert_rows_induction (f ∷ fs) rows h =
      upsert_rows_induction fs (upsert_row (record { file = f; last_seen_run = run }) rows)
        (step f rows h)

  Wrote_induction :
      (fs : List File) (db : Db) (r : Option Error × Db)
      → Wrote run fs db r
      → P db.files
      → P r.1.files
  Wrote_induction fs db r (inr (e, e')) h = rw e' h
  Wrote_induction fs db r (inl (e, e')) h =
      rw e' (upsert_rows_induction (last_entries fs) db.files h)

  flush_induction : (s : StreamState) → P s.db.files → P (flush run s).db.files
  unfolding flush
  flush_induction s h = elim (Bool-cases (is_empty s.batch)) [
    | inl nil ↦ rw nil h
    | inr full ↦
        let r = upsert_batch s.batch run (next_fault s.faults) s.db in
        rw (full, flushed-db s r)
          (Wrote_induction s.batch s.db r
            (upsert_batch-Wrote s.batch run (next_fault s.faults) s.db) h)
  ]

  receive_induction :
      (batch_size : ℕ) (s : StreamState) (f : File)
      → P s.db.files
      → P (receive run batch_size s f).db.files
  unfolding receive
  receive_induction batch_size s f h =
      let s' : StreamState = record s { batch = s.batch ++ f ∷ [] } in
      elim (Bool-cases (leb batch_size (length s'.batch))) [
        | inl full ↦ rw full (flush_induction s' h)
        | inr room ↦ rw room h
      ]

  drain_induction :
      (batch_size : ℕ) (s : StreamState) (fs : List File)
      → P s.db.files
      → P (drain run batch_size s fs).db.files
  unfolding drain
  drain_induction batch_size s [] h = flush_induction s h
  drain_induction batch_size s (f ∷ fs) h =
      drain_induction batch_size (receive run batch_size s f) fs
        (receive_induction batch_size s f h)

  pub stream_upsert_induction :
      (entries : List File) (batch_size : ℕ) (faults : List Bool) (db : Db)
      → P db.files
      → P (stream_upsert entries run batch_size faults db).1.files
  unfolding stream_upsert
  stream_upsert_induction entries batch_size faults db h = drain_induction batch_size _ entries h
