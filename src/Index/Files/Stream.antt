-- ===== src/Index/Files/Stream.antt =====
-- The rounds of `StreamUpsert`: whatever the size of the batches, and also when the database refuses some.
pub mod Total
pub mod Kept
pub mod Induct
use findo.Prelude.{
  ℕ, ◌+◌, ◌≡◌, refl, sym, ap, ◌∙◌, ◌⊎◌, inl, inr, Bool, true, false, Option, none, some, List, [],
  ◌∷◌, ◌++◌, append_assoc, append-nil, arith, leb, Text, length, length-append, Bool-cases,
}
use findo.Index.{File, FileRow, Db, Error, fault}
use findo.Index.Files.{
  lookup, upsert_rows, upsert_batch, insert_files, last_entries, StreamState, flush, receive, drain,
  next_fault, flushed, is_empty,
}
use findo.Index.Files.Upsert.{
  last_of, row_or, or_else, lookup-upsert_rows, last_of-last_entries, upsert_batch_lem,
}

last_of-append :
    (v : ℕ) (p : Text) (xs ys : List File)
    → last_of v p (xs ++ ys) ≡ or_else (last_of v p ys) (last_of v p xs)
unfolding last_of
last_of-append v p [] ys = ground arith
last_of-append v p (x ∷ xs) ys = ground (arith, last_of-append v p xs ys)

row_or-or_else :
    (run : ℕ) (a b : Option File) (old : Option FileRow)
    → row_or run (or_else a b) old ≡ row_or run a (row_or run b old)
row_or-or_else run none b old = refl
row_or-or_else run (some a) b old = refl

-- What a batch does: all of it, or an error and nothing.
abbrev Wrote : ℕ → List File → Db → Option Error × Db → Type 0
Wrote run fs db r =
    ((r.0 ≡ none) × (r.1 ≡ record db { files = upsert_rows run (last_entries fs) db.files }))
    ⊎ ((r.0 ≡ some fault) × (r.1 ≡ db))

pub upsert_batch-Wrote :
    (fs : List File) (run : ℕ) (is_fault : Bool) (db : Db)
    → Wrote run fs db (upsert_batch fs run is_fault db)
unfolding upsert_batch insert_files upsert_rows last_entries
upsert_batch-Wrote [] run true db = inl (refl, refl)
upsert_batch-Wrote (f ∷ fs) run true db = inr (refl, refl)
upsert_batch-Wrote fs run false db = rw (upsert_batch_lem fs run db) (inl (refl, refl))

-- From `s` to `t` the entries `xs` were received: if no batch was refused, all that was received is
-- counted, and is in the tables or still in the batch.
record Streamed (run v : ℕ) (p : Text) (s : StreamState) (xs : List File) (t : StreamState)
    : Type 0 where
  no_error : s.first_err ≡ none
  counted : t.written + length t.batch ≡ s.written + length s.batch + length xs
  stored :
      row_or run (last_of v p t.batch) (lookup v p t.db.files)
      ≡ row_or run (last_of v p (s.batch ++ xs)) (lookup v p s.db.files)
  others : t.db ≡ record s.db { files = t.db.files }

is_empty→nil : (fs : List File) → is_empty fs ≡ true → fs ≡ []
is_empty→nil [] h = refl
is_empty→nil (f ∷ fs) h = cc

module _ (run v : ℕ) (p : Text) where
  lookup-last_entries :
      (fs : List File) (rows : List FileRow)
      → lookup v p (upsert_rows run (last_entries fs) rows)
        ≡ row_or run (last_of v p fs) (lookup v p rows)
  lookup-last_entries fs rows =
      rw (lookup-upsert_rows run v p (last_entries fs) rows, last_of-last_entries v p fs)

  flushed-Streamed :
      (s : StreamState) (r : Option Error × Db)
      → Wrote run s.batch s.db r
      → (flushed s r).first_err ≡ none
      → Streamed run v p s [] (flushed s r) × ((flushed s r).batch ≡ [])
  unfolding last_of
  flushed-Streamed s (some e, db) w h = absurd (ground arith)
  flushed-Streamed s (none, db) (inr (e, e')) h = cc
  flushed-Streamed s (none, db) (inl (e, e')) h = (
    record {
      no_error = h;
      counted = omega arith;
      stored = rw (e', append-nil s.batch) (lookup-last_entries s.batch s.db.files);
      others = rw e';
    },
    refl,
  )

  flush-Streamed :
      (s : StreamState)
      → (flush run s).first_err ≡ none
      → Streamed run v p s [] (flush run s) × ((flush run s).batch ≡ [])
  unfolding flush
  flush-Streamed s h = elim (Bool-cases (is_empty s.batch)) [
    | inr full ↦ rw full (
        flushed-Streamed s _ (upsert_batch-Wrote s.batch run (next_fault s.faults) s.db)
          (rw (full, flush) at h))
    | inl nil ↦ rw nil (
      record {
        no_error = rw (nil, flush) at h;
        counted = omega arith;
        stored = rw (append-nil s.batch);
        others = refl;
      },
      is_empty→nil s.batch nil,
    )
  ]

  row_or-append :
      (xs ys : List File) (old : Option FileRow)
      → row_or run (last_of v p (xs ++ ys)) old
        ≡ row_or run (last_of v p ys) (row_or run (last_of v p xs) old)
  row_or-append xs ys old =
      rw (last_of-append v p xs ys) (row_or-or_else run (last_of v p ys) (last_of v p xs) old)

  Streamed-trans :
      {s t u : StreamState} (xs ys : List File)
      → Streamed run v p s xs t
      → Streamed run v p t ys u
      → Streamed run v p s (xs ++ ys) u
  Streamed-trans {s} {t} {u} xs ys h k = record {
    no_error = h.no_error;
    counted = omega (arith, h.counted, k.counted, length-append xs ys);
    stored =
        k.stored
        ∙ (row_or-append t.batch ys _
            ∙ (ap (row_or run (last_of v p ys)) h.stored
                ∙ rw (← append_assoc s.batch xs ys) (sym (row_or-append (s.batch ++ xs) ys _))));
    others = k.others ∙ rw h.others;
  }

  batched-Streamed :
      (s : StreamState) (f : File)
      → s.first_err ≡ none
      → Streamed run v p s (f ∷ []) (record s { batch = s.batch ++ f ∷ [] })
  batched-Streamed s f h = record {
    no_error = h;
    counted = omega (arith, length-append s.batch (f ∷ []));
    stored = refl;
    others = refl;
  }

  receive-Streamed :
      (batch_size : ℕ) (s : StreamState) (f : File)
      → (receive run batch_size s f).first_err ≡ none
      → Streamed run v p s (f ∷ []) (receive run batch_size s f)
  unfolding receive
  receive-Streamed batch_size s f h =
      let s' : StreamState = record s { batch = s.batch ++ f ∷ [] } in
      elim (Bool-cases (leb batch_size (length s'.batch))) [
        | inl full ↦
            let k = (flush-Streamed s' (rw (full, receive) at h)).0 in
            rw full (Streamed-trans (f ∷ []) [] (batched-Streamed s f k.no_error) k)
        | inr room ↦ rw room (batched-Streamed s f (rw (room, receive) at h))
      ]

  drain-Streamed :
      (batch_size : ℕ) (s : StreamState) (fs : List File)
      → (drain run batch_size s fs).first_err ≡ none
      → Streamed run v p s fs (drain run batch_size s fs) × ((drain run batch_size s fs).batch ≡ [])
  unfolding drain
  drain-Streamed batch_size s [] h = flush-Streamed s h
  drain-Streamed batch_size s (f ∷ fs) h =
      let (k, e) = drain-Streamed batch_size (receive run batch_size s f) fs h in
      (Streamed-trans (f ∷ []) fs (receive-Streamed batch_size s f k.no_error) k, e)
