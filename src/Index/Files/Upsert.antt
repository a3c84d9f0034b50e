-- ===== src/Index/Files/Upsert.antt =====
-- `UpsertBatch` does what upserting its files one by one, in order, would do.
use findo.Prelude.{
  ℕ, ◌≡◌, refl, sym, ◌∙◌, Bool, true, false, Option, none, some, List, [], ◌∷◌, arith,
  if◌then◌else◌, Text, text_eq_iff, text_eq_refl, any,
}
use findo.Index.{File, FileRow, Db, same_key, file_at}
use findo.Index.Files.{
  lookup, last_entries, upsert_row, upsert_rows, repeats, insert_files, upsert_batch,
}

pub same_key_refl : (v : ℕ) (p : Text) → same_key v p v p ≡ true
same_key_refl v p = ground (arith, text_eq_refl p)

-- What is at a path after an upsert of one row.
pub lookup-upsert_row :
    (v : ℕ) (p : Text) (r : FileRow) (rows : List FileRow)
    → lookup v p (upsert_row r rows) ≡ (if file_at v p r then some r else lookup v p rows)
unfolding lookup upsert_row
lookup-upsert_row v p r [] = refl
lookup-upsert_row v p r (q ∷ rows) = ground (
  arith,
  lookup-upsert_row v p r rows,
  text_eq_iff q.path r.path,
  text_eq_iff r.path p,
  text_eq_iff q.path p,
)

abbrev pub or_else {ℓ} : {A : Type ℓ} → Option A → Option A → Option A
or_else none o = o
or_else (some a) o = some a

-- The last file of a list that is at a path.
unfoldable pub last_of : ℕ → Text → List File → Option File
last_of v p [] = none
last_of v p (f ∷ fs) =
    or_else (last_of v p fs) (if same_key f.volume f.path v p then some f else none)

abbrev pub row_or : ℕ → Option File → Option FileRow → Option FileRow
row_or run none old = old
row_or run (some f) old = some (record { file = f; last_seen_run = run })

pub lookup-upsert_rows :
    (run v : ℕ) (p : Text) (fs : List File) (rows : List FileRow)
    → lookup v p (upsert_rows run fs rows) ≡ row_or run (last_of v p fs) (lookup v p rows)
unfolding upsert_rows last_of
lookup-upsert_rows run v p [] rows = refl
lookup-upsert_rows run v p (f ∷ fs) rows =
    let r : FileRow = record { file = f; last_seen_run = run } in
    ground (arith, lookup-upsert_rows run v p fs (upsert_row r rows), lookup-upsert_row v p r rows)

abbrev named : ℕ → Text → List File → Bool
named v p = any (λ (g : File). same_key v p g.volume g.path)

named-last_of : (v : ℕ) (p : Text) (fs : List File) → last_of v p fs ≡ none → named v p fs ≡ false
unfolding last_of any
named-last_of v p [] h = refl
named-last_of v p (f ∷ fs) h =
    ground (arith, named-last_of v p fs, text_eq_iff f.path p, text_eq_iff p f.path)

pub same_key_eq :
    (v : ℕ) (p : Text) (w : ℕ) (q : Text) → same_key v p w q ≡ true → (v ≡ w) × (p ≡ q)
same_key_eq v p w q h = ground (arith, text_eq_iff p q)

named_same :
    (v w : ℕ) (p q : Text) (fs : List File) → same_key v p w q ≡ true → named v p fs ≡ named w q fs
named_same v w p q fs h = let (e, e') = same_key_eq v p w q h in λ i. named (e i) (e' i) fs

named-last_entries :
    (v : ℕ) (p : Text) (fs : List File) → named v p (last_entries fs) ≡ named v p fs
unfolding last_entries any
named-last_entries v p [] = refl
named-last_entries v p (f ∷ fs) =
    ground (arith, named-last_entries v p fs, named_same v f.volume p f.path fs)

repeats-last_entries : (fs : List File) → repeats (last_entries fs) ≡ false
unfolding repeats last_entries
repeats-last_entries [] = refl
repeats-last_entries (f ∷ fs) =
    ground (arith, repeats-last_entries fs, named-last_entries f.volume f.path fs)

-- Leaving out the entries that a later one repeats changes no last entry.
pub last_of-last_entries :
    (v : ℕ) (p : Text) (fs : List File) → last_of v p (last_entries fs) ≡ last_of v p fs
unfolding last_of last_entries
last_of-last_entries v p [] = refl
last_of-last_entries v p (f ∷ fs) =
    ground
      (arith, last_of-last_entries v p fs, named-last_of f.volume f.path fs, text_eq_iff f.path p)

-- A batch that the database does not refuse.
pub upsert_batch_lem :
    (fs : List File) (run : ℕ) (db : Db)
    → upsert_batch fs run false db
      ≡ (none, record db { files = upsert_rows run (last_entries fs) db.files })
unfolding upsert_batch insert_files upsert_rows last_entries
upsert_batch_lem [] run db = refl
upsert_batch_lem (f ∷ fs) run db = rw (repeats-last_entries (f ∷ fs), insert_files)

-- A batch that names paths more than once is written without an error where the database refuses
-- nothing, and leaves at every path the row that upserting its files one by one, in order, leaves;
-- the other tables are unchanged.
pub upsert_batch_sequential :
    (fs : List File) (run v : ℕ) (p : Text) (db : Db)
    → let (e, db') = upsert_batch fs run false db in
      (e ≡ none)
      × (lookup v p db'.files ≡ lookup v p (upsert_rows run fs db.files))
      × (db' ≡ record db { files = db'.files })
upsert_batch_sequential fs run v p db = rw (upsert_batch_lem fs run db) (
  refl,
  lookup-upsert_rows run v p (last_entries fs) db.files
      ∙ (rw (last_of-last_entries v p fs) (sym (lookup-upsert_rows run v p fs db.files))),
  refl,
)
