-- ===== src/Index/Files/Stream/Total.antt =====
-- What a whole `StreamUpsert` writes, counts and reports.
use findo.Prelude.{
  ℕ, ◌≡◌, refl, sym, ap, ◌∙◌, inl, inr, Bool, false, Option, none, List, [], ◌∷◌, ◌++◌, arith, leb,
  Text, All, length, Bool-cases,
}
use findo.Index.{File, FileRow, Db}
use findo.Index.Files.{
  lookup, upsert_rows, StreamState, flush, receive, drain, stream_upsert, next_fault, rest_faults,
  is_empty,
}
use findo.Index.Files.Upsert.{last_of, row_or, lookup-upsert_rows, upsert_batch_lem}
use findo.Index.Files.Stream.{drain-Streamed}

-- The result of a stream that reports no error: every entry is counted, each path has the row that
-- upserting the entries one by one, in order, leaves there, and no other table changes.
pub stream_upsert_complete :
    (entries : List File) (run batch_size : ℕ) (faults : List Bool) (db : Db) (v : ℕ) (p : Text)
    → (stream_upsert entries run batch_size faults db).0.1 ≡ none
    → let ((written, _), db', _) = stream_upsert entries run batch_size faults db in
      (written ≡ length entries)
      × (lookup v p db'.files ≡ lookup v p (upsert_rows run entries db.files))
      × (db' ≡ record db { files = db'.files })
unfolding stream_upsert last_of
stream_upsert_complete entries run batch_size faults db v p h =
    let s : StreamState = record {
      written = 0;
      first_err = none;
      batch = [];
      db = db;
      faults = faults;
    } in
    let (k, e) = drain-Streamed run v p batch_size s entries h in
    (
      omega (arith, k.counted, ap length e),
      at_path (drain run batch_size s entries).batch e _ k.stored
          ∙ sym (lookup-upsert_rows run v p entries db.files),
      k.others,
    )
  where
    at_path :
        (batch : List File)
        → batch ≡ []
        → (old : Option FileRow) {new : Option FileRow} → row_or run (last_of v p batch) old ≡ new
        → old ≡ new
    at_path [] e old q = q
    at_path (f ∷ fs) e old q = cc

-- A database that refuses no statement.
abbrev pub NeverRefuses : List Bool → Type 0
NeverRefuses = All (λ b. b ≡ false)

next_fault-false : (faults : List Bool) → NeverRefuses faults → next_fault faults ≡ false
next_fault-false [] k = refl
next_fault-false (b ∷ bs) k = k.0

rest_faults-NeverRefuses :
    (faults : List Bool) → NeverRefuses faults → NeverRefuses (rest_faults faults)
rest_faults-NeverRefuses [] k = tt
rest_faults-NeverRefuses (b ∷ bs) k = k.1

-- No error yet, and none to come.
record IsCalm (s : StreamState) : Type 0 where
  no_error : s.first_err ≡ none
  calm : NeverRefuses s.faults

module _ (run : ℕ) where
  flush-IsCalm : (s : StreamState) → IsCalm s → IsCalm (flush run s)
  unfolding flush
  flush-IsCalm s k = elim (Bool-cases (is_empty s.batch)) [
    | inl nil ↦ rw nil k
    | inr full ↦
        rw (full, next_fault-false s.faults k.calm, upsert_batch_lem s.batch run s.db)
          (record { no_error = k.no_error; calm = rest_faults-NeverRefuses s.faults k.calm })
  ]

  receive-IsCalm :
      (batch_size : ℕ) (s : StreamState) (f : File) → IsCalm s → IsCalm (receive run batch_size s f)
  unfolding receive
  receive-IsCalm batch_size s f k =
      let s' : StreamState = record s { batch = s.batch ++ f ∷ [] } in
      let k' : IsCalm s' = record { no_error = k.no_error; calm = k.calm } in
      elim (Bool-cases (leb batch_size (length s'.batch))) [
        | inl full ↦ rw full (flush-IsCalm s' k')
        | inr room ↦ rw room k'
      ]

  drain-IsCalm :
      (batch_size : ℕ) (s : StreamState) (fs : List File)
      → IsCalm s
      → IsCalm (drain run batch_size s fs)
  unfolding drain
  drain-IsCalm batch_size s [] k = flush-IsCalm s k
  drain-IsCalm batch_size s (f ∷ fs) k =
      drain-IsCalm batch_size (receive run batch_size s f) fs (receive-IsCalm batch_size s f k)

-- Where the database refuses no statement, a stream of entries is written without an error in
-- batches of any size: every entry is counted, each path has the row that upserting the entries
-- one by one, in order, leaves there, and no other table changes.
pub stream_upsert_refines :
    (entries : List File) (run batch_size : ℕ) (faults : List Bool) (db : Db) (v : ℕ) (p : Text)
    → NeverRefuses faults
    → let ((written, e), db', _) = stream_upsert entries run batch_size faults db in
      (e ≡ none)
      × (written ≡ length entries)
      × (lookup v p db'.files ≡ lookup v p (upsert_rows run entries db.files))
      × (db' ≡ record db { files = db'.files })
stream_upsert_refines entries run batch_size faults db v p k =
    let s : StreamState = record {
      written = 0;
      first_err = none;
      batch = [];
      db = db;
      faults = faults;
    } in
    let h =
      (drain-IsCalm run batch_size s entries (record { no_error = refl; calm = k })).no_error in
    let (a, b, c) =
      stream_upsert_complete entries run batch_size faults db v p (unfold stream_upsert in h) in
    (unfold stream_upsert in h, a, b, c)
