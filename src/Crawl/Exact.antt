-- ===== src/Crawl/Exact.antt =====
-- A crawl that returns no error leaves exactly what the walk found.
use findo.Prelude.{
  ℕ, ◌<◌, ◌≡◌, ◌≢◌, refl, ap, ◌∙◌, Bool, true, false, not, Option, none, some, List, [], ◌∷◌, map,
  arith, Text, filter,
}
use findo.Index.{File, FileRow, Db, Error, delete_files}
use findo.Index.Files.{lookup, sweep, stale}
use findo.Index.Files.Upsert.{last_of, row_or}
use findo.Index.Files.Sweep.{IsKeyed, Stamped, unless, lookup-filter, lookup-Stamped, lookup-volume}
use findo.Smb.{Entry}
use findo.Crawl.{settle, file_of}

-- The rows of `files` before a crawl: one for each path, with stamps that were given out.
pub record IsIndexed (db : Db) : Type 0 where
  pub keyed : IsKeyed db.files
  pub stamped : Stamped db.next_run db.files

-- What a path of a volume has when the walk found `fs`.
abbrev pub walked_row : ℕ → List File → ℕ → Text → Option FileRow
walked_row run fs v p = row_or run (last_of v p fs) none

last_of_elsewhere :
    (v u : ℕ) (p : Text) (es : List Entry) → u ≢ v → last_of u p (map (file_of v) es) ≡ none
unfolding last_of file_of
last_of_elsewhere v u p [] h = refl
last_of_elsewhere v u p (e ∷ es) h = ground (arith, last_of_elsewhere v u p es h)

-- The rows of the swept volume keep only this run's stamp.
swept_here :
    (v run : ℕ) (found : Option File) (old : Option FileRow)
    → ((f : File) → found ≡ some f → f.volume ≡ v)
    → ((r : FileRow) → old ≡ some r → (r.volume ≡ v) × (r.last_seen_run < run))
    → unless (stale v run) (row_or run found old) ≡ row_or run found none
swept_here v run none none h k = refl
swept_here v run none (some r) h k = ground (arith, k r refl)
swept_here v run (some f) old h k = ground (arith, h f refl)

swept_elsewhere :
    (v u run : ℕ) (old : Option FileRow)
    → u ≢ v
    → ((r : FileRow) → old ≡ some r → r.volume ≡ u)
    → unless (stale v run) old ≡ old
swept_elsewhere v u run none h k = refl
swept_elsewhere v u run (some r) h k = ground (arith, k r refl)

last_of-volume :
    (v : ℕ) (p : Text) (fs : List File) (f : File) → last_of v p fs ≡ some f → f.volume ≡ v
unfolding last_of
last_of-volume v p [] f e = cc
last_of-volume v p (g ∷ fs) f e = ground (arith, last_of-volume v p fs f)

-- A run that reports no error was written whole, listed whole, and swept.
pub settle_ok :
    (write_err walk_err : Option Error) (v run : ℕ) (is_fault : Bool) (db : Db)
    → (settle write_err walk_err v run is_fault db).0.0 ≡ none
    → (write_err ≡ none)
      × ((settle write_err walk_err v run is_fault db).1 ≡ delete_files (stale v run) db)
unfolding settle sweep
settle_ok (some e) walk_err v run is_fault db h = cc
settle_ok none (some e) v run is_fault db h = cc
settle_ok none none v run true db h = cc
settle_ok none none v run false db h = (refl, refl)

-- The tables after the sweep of a volume whose walk found `entries`, at one path of any volume.
module _ (v run : ℕ) (entries : List Entry) (old new : List FileRow) (u : ℕ) (p : Text)
    (keyed : IsKeyed new) (stamped : Stamped run old)
    (written : lookup u p new
      ≡ row_or run (last_of u p (map (file_of v) entries)) (lookup u p old)) where
  row_after :
      lookup u p (filter (λ r. not (stale v run r)) new)
      ≡ unless (stale v run) (row_or run (last_of u p (map (file_of v) entries)) (lookup u p old))
  row_after = lookup-filter (stale v run) u p new keyed ∙ ap (unless (stale v run)) written

  pub after_here :
      u ≡ v
      → lookup u p (filter (λ r. not (stale v run r)) new)
        ≡ walked_row run (map (file_of v) entries) u p
  after_here same =
      row_after
      ∙ swept_here v run (last_of u p (map (file_of v) entries)) (lookup u p old)
          (λ f e. last_of-volume u p (map (file_of v) entries) f e ∙ same)
          (λ r e. ((lookup-volume u p old r e).0 ∙ same, lookup-Stamped u p run old r stamped e))

  pub after_elsewhere : u ≢ v → lookup u p (filter (λ r. not (stale v run r)) new) ≡ lookup u p old
  after_elsewhere other =
      row_after
      ∙ (rw (last_of_elsewhere v u p entries other)
          (swept_elsewhere v u run (lookup u p old) other (λ r e. (lookup-volume u p old r e).0)))
