-- ===== src/Watch/Applied.antt =====
-- What an event leaves at each path.
use findo.Prelude.{
  ℕ, ◌≡◌, refl, ap, ◌∙◌, Bool, true, false, Option, none, some, [], ◌∷◌, arith, if◌then◌else◌, Text,
  Bool-cases, inl, inr, any,
}
use findo.Strings.{trim}
use findo.Index.{FileRow, Db, same_key, file_at, delete_files}
use findo.Index.Files.{
  lookup, delete, upsert, is_slash, upsert_rows, upsert_batch, insert_files, last_entries, repeats,
}
use findo.Index.Files.Upsert.{upsert_batch_sequential, lookup-upsert_row}
use findo.Index.Files.Sweep.{
  IsKeyed, unless, lookup-filter, lookup-volume, filter-IsKeyed, upsert_row-IsKeyed,
}
use findo.Smb.{Entry}
use findo.Changes.{ChangeEvent, upserted, renamed}
use findo.Crawl.{file_of}
use findo.Watch.{Outside, put_entry, upsert_path, apply_change_event}

-- The row of a path when an event removes the path `gone`.
abbrev pub without : ℕ → Text → ℕ → Text → Option FileRow → Option FileRow
without v gone u q old = if same_key u q v (trim is_slash gone) then none else old

-- The row of a path when the share was asked for another one.
abbrev pub with_answer : ℕ → Option (Option Entry) → ℕ → Text → Option FileRow → Option FileRow
with_answer v none u q old = old
with_answer v (some none) u q old = old
with_answer v (some (some e)) u q old =
    if same_key v e.path u q then some (record { file = file_of v e; last_seen_run = 0 }) else old

abbrev pub expected : ℕ → ChangeEvent → Outside → ℕ → Text → Option FileRow → Option FileRow
expected v (ChangeEvent.removed p) o u q old = without v p u q old
expected v (upserted p) o u q old = with_answer v (o.stat p) u q old
expected v (renamed p r) o u q old = with_answer v (o.stat r) u q (without v p u q old)

lookup-upsert :
    (v u : ℕ) (q : Text) (e : Entry) (db : Db)
    → lookup u q (upsert (file_of v e) 0 false db).1.files
      ≡ with_answer v (some (some e)) u q (lookup u q db.files)
unfolding upsert upsert_rows file_of
lookup-upsert v u q e db =
    (upsert_batch_sequential (file_of v e ∷ []) 0 u q db).1
    ∙ lookup-upsert_row u q (record { file = file_of v e; last_seen_run = 0 }) db.files

unless-without :
    (v u : ℕ) (p q : Text) (old : Option FileRow)
    → ((r : FileRow) → old ≡ some r → (r.volume ≡ u) × (r.path ≡ q))
    → unless (file_at v (trim is_slash p)) old ≡ without v p u q old
unless-without v u p q none h = ground arith
unless-without v u p q (some r) h = let (a, b) = h r refl in rw (a, b)

lookup-delete :
    (v u : ℕ) (p q : Text) (db : Db)
    → IsKeyed db.files
    → lookup u q (delete v p false db).1.files ≡ without v p u q (lookup u q db.files)
unfolding delete delete_files
lookup-delete v u p q db k =
    lookup-filter (file_at v (trim is_slash p)) u q db.files k
    ∙ unless-without v u p q (lookup u q db.files) (λ r e. lookup-volume u q db.files r e)

lookup-upsert_path :
    (v : ℕ) (p : Text) (o : Outside) (u : ℕ) (q : Text) (db : Db)
    → o.connected ≡ true
    → o.upsert_fault ≡ false
    → lookup u q (upsert_path v p o db).files ≡ with_answer v (o.stat p) u q (lookup u q db.files)
unfolding upsert_path
lookup-upsert_path v p o u q db c f = rw c (put (o.stat p))
  where
    put :
        (answer : Option (Option Entry))
        → lookup u q (put_entry v o answer db).files
          ≡ with_answer v answer u q (lookup u q db.files)
    put none = refl
    put (some none) = refl
    put (some (some e)) = rw f (lookup-upsert v u q e db)

-- An event on a connected volume, where the database refuses nothing and the table has one row to a
-- path, leaves each path of each volume with: no row, if the event removes it; the entry that the
-- share returned, with the stamp 0, if the event asked for it and the share has it; and the row
-- that it had otherwise. The new name of a rename wins over the old one.
pub apply_change_event_exact :
    (v : ℕ) (ev : ChangeEvent) (o : Outside) (u : ℕ) (q : Text) (db : Db)
    → IsKeyed db.files
    → o.connected ≡ true
    → o.delete_fault ≡ false
    → o.upsert_fault ≡ false
    → lookup u q (apply_change_event v ev o db).files ≡ expected v ev o u q (lookup u q db.files)
unfolding apply_change_event
apply_change_event_exact v (ChangeEvent.removed p) o u q db k c d f =
    rw d (lookup-delete v u p q db k)
apply_change_event_exact v (upserted p) o u q db k c d f = lookup-upsert_path v p o u q db c f
apply_change_event_exact v (renamed p r) o u q db k c d f =
    lookup-upsert_path v r o u q (delete v p o.delete_fault db).1 c f
    ∙ ap (with_answer v (o.stat r) u q) (rw d (lookup-delete v u p q db k))

delete-IsKeyed :
    (v : ℕ) (p : Text) (is_fault : Bool) (db : Db)
    → IsKeyed db.files
    → IsKeyed (delete v p is_fault db).1.files
unfolding delete delete_files
delete-IsKeyed v p true db k = k
delete-IsKeyed v p false db k = filter-IsKeyed _ db.files k

upsert-IsKeyed :
    (v : ℕ) (e : Entry) (is_fault : Bool) (db : Db)
    → IsKeyed db.files
    → IsKeyed (upsert (file_of v e) 0 is_fault db).1.files
unfolding upsert upsert_batch insert_files upsert_rows last_entries repeats any
upsert-IsKeyed v e true db k = k
upsert-IsKeyed v e false db k = upsert_row-IsKeyed _ db.files k

upsert_path-IsKeyed :
    (v : ℕ) (p : Text) (o : Outside) (db : Db)
    → IsKeyed db.files
    → IsKeyed (upsert_path v p o db).files
unfolding upsert_path
upsert_path-IsKeyed v p o db k = elim (Bool-cases o.connected) [
  | inr off ↦ rw off k
  | inl c ↦ rw c (put (o.stat p))
]
  where
    put : (answer : Option (Option Entry)) → IsKeyed (put_entry v o answer db).files
    put none = k
    put (some none) = k
    put (some (some e)) = upsert-IsKeyed v e o.upsert_fault db k

pub apply_change_event-IsKeyed :
    (v : ℕ) (ev : ChangeEvent) (o : Outside) (db : Db)
    → IsKeyed db.files
    → IsKeyed (apply_change_event v ev o db).files
unfolding apply_change_event
apply_change_event-IsKeyed v (ChangeEvent.removed p) o db k = delete-IsKeyed v p o.delete_fault db k
apply_change_event-IsKeyed v (upserted p) o db k = upsert_path-IsKeyed v p o db k
apply_change_event-IsKeyed v (renamed p r) o db k =
    upsert_path-IsKeyed v r o _ (delete-IsKeyed v p o.delete_fault db k)
