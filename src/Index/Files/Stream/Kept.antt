-- ===== src/Index/Files/Stream/Kept.antt =====
-- What `StreamUpsert` does to the row of a path, whether batches are refused or not.
use findo.Prelude.{
  ℕ, ◌≡◌, refl, ◌∙◌, ◌⊎◌, inl, inr, Bool, Option, none, some, List, [], ◌∷◌, ◌++◌, leb, Text,
  length, Bool-cases,
}
use findo.Index.{File, Db, Error}
use findo.Index.Files.{
  lookup, upsert_batch, StreamState, flush, receive, drain, stream_upsert, next_fault, flushed,
  is_empty,
}
use findo.Index.Files.Upsert.{last_of, row_or}
use findo.Index.Files.Stream.{lookup-last_entries, Wrote, upsert_batch-Wrote}

pub flushed-db : (s : StreamState) (r : Option Error × Db) → (flushed s r).db ≡ r.1
flushed-db s (none, db) = refl
flushed-db s (some e, db) = refl

module _ (run v : ℕ) (p : Text) where
  -- The row of the path is the old one or a row of this run, and no other table changes.
  pub record Kept (a b : Db) : Type 0 where
    pub row :
        (lookup v p b.files ≡ lookup v p a.files)
        ⊎ ((f : File) × (lookup v p b.files ≡ some (record { file = f; last_seen_run = run })))
    pub others : b ≡ record a { files = b.files }

  Kept-trans : {a b c : Db} → Kept a b → Kept b c → Kept a c
  Kept-trans {a} {b} {c} h k = record {
    row = elim k.row [
      | inr new ↦ inr new
      | inl same ↦ elim h.row [ inl old ↦ inl (same ∙ old) | inr (f, e) ↦ inr (f, same ∙ e) ]
    ];
    others = k.others ∙ rw h.others;
  }

  Wrote-Kept : (fs : List File) (db : Db) (r : Option Error × Db) → Wrote run fs db r → Kept db r.1
  Wrote-Kept fs db r (inr (e, e')) = rw e' (record { row = inl refl; others = refl })
  Wrote-Kept fs db r (inl (e, e')) = rw e' (record {
    row = rw (lookup-last_entries run v p fs db.files) (from (last_of v p fs));
    others = refl;
  })
    where
      from :
          (o : Option File)
          → (row_or run o (lookup v p db.files) ≡ lookup v p db.files)
            ⊎ ((f : File) × (row_or run o (lookup v p db.files)
                  ≡ some (record { file = f; last_seen_run = run })))
      from none = inl refl
      from (some f) = inr (f, refl)

  Kept-refl : (a : Db) → Kept a a
  Kept-refl a = record { row = inl refl; others = refl }

  flush-Kept : (s : StreamState) → Kept s.db (flush run s).db
  unfolding flush
  flush-Kept s = elim (Bool-cases (is_empty s.batch)) [
    | inl nil ↦ rw nil (Kept-refl s.db)
    | inr full ↦
        let r = upsert_batch s.batch run (next_fault s.faults) s.db in
        rw (full, flushed-db s r)
          (Wrote-Kept s.batch s.db r (upsert_batch-Wrote s.batch run (next_fault s.faults) s.db))
  ]

  receive-Kept :
      (batch_size : ℕ) (s : StreamState) (f : File) → Kept s.db (receive run batch_size s f).db
  unfolding receive
  receive-Kept batch_size s f =
      let s' : StreamState = record s { batch = s.batch ++ f ∷ [] } in
      elim (Bool-cases (leb batch_size (length s'.batch))) [
        | inl full ↦ rw full (flush-Kept s')
        | inr room ↦ rw room (Kept-refl s.db)
      ]

  drain-Kept :
      (batch_size : ℕ) (s : StreamState) (fs : List File) → Kept s.db (drain run batch_size s fs).db
  unfolding drain
  drain-Kept batch_size s [] = flush-Kept s
  drain-Kept batch_size s (f ∷ fs) =
      Kept-trans (receive-Kept batch_size s f)
        (drain-Kept batch_size (receive run batch_size s f) fs)

  pub stream_upsert-Kept :
      (entries : List File) (batch_size : ℕ) (faults : List Bool) (db : Db)
      → Kept db (stream_upsert entries run batch_size faults db).1
  unfolding stream_upsert
  stream_upsert-Kept entries batch_size faults db = drain-Kept batch_size _ entries
