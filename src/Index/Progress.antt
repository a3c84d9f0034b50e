-- ===== src/Index/Progress.antt =====
-- backend/internal/index/content.go: how far a volume's extraction is.
use findo.Prelude.{
  ℕ, ◌+◌, ◌-◌, ◌≡◌, refl, Bool, false, not, ◌&&◌, ◌||◌, Option, none, some, List, [], ◌∷◌, arith,
  ◌==◌, if◌then◌else◌, Text, count, any,
}
use findo.Index.{Db, FileRow, StateRow, Status}
use findo.Index.Content.{
  is_eligible, is_current, is_done, is_skipped, is_failed, now_fits, waits, state_of, in_queue,
}

pub record ContentProgress : Type 0 where
  pub volume : ℕ
  pub eligible : ℕ
  pub done : ℕ
  pub skipped : ℕ
  pub failed : ℕ
  pub pending : ℕ

abbrev done_now : Option StateRow → FileRow → Bool
done_now none r = false
done_now (some s) r = is_done s.status && is_current s r

abbrev skipped_now : ℕ → Option StateRow → FileRow → Bool
skipped_now max none r = false
skipped_now max (some s) r = is_skipped s.status && (is_current s r && not (now_fits max s r))

abbrev failed_now : Option StateRow → FileRow → Bool
failed_now none r = false
failed_now (some s) r = is_failed s.status && is_current s r

module _ (lower : Text → Text) (exts : List Text) (max : ℕ) (v : ℕ) (db : Db) where
  abbrev eligible_in : FileRow → Bool
  eligible_in r = (r.volume == v) && is_eligible lower exts r

  -- The rows of the first query for a volume that is opted in; a volume without eligible files has
  -- no row there, and is added with zeros.
  unfoldable pub progress_of : ContentProgress
  unfolding count
  progress_of =
      let all = count eligible_in db.files in
      let d = count (λ r. eligible_in r && done_now (state_of r db) r) db.files in
      let s = count (λ r. eligible_in r && skipped_now max (state_of r db) r) db.files in
      let f = count (λ r. eligible_in r && failed_now (state_of r db) r) db.files in
      record {
        volume = v;
        eligible = all;
        done = d;
        skipped = s;
        failed = f;
        pending = all - d - s - f;
      }

abbrev one : Bool → ℕ
one b = if b then 1 else 0

module _ (e d s f q : FileRow → Bool) where
  count-parts :
      ((r : FileRow) → one (e r) ≡ one (d r) + one (s r) + one (f r) + one (q r))
      → (rows : List FileRow)
      → count e rows ≡ count d rows + count s rows + count f rows + count q rows
  unfolding count
  count-parts h [] = refl
  count-parts h (r ∷ rows) = ground (arith, h r, count-parts h rows)

one_state :
    (max : ℕ) (o : Option StateRow) (r : FileRow)
    → 1
      ≡ one (done_now o r) + one (skipped_now max o r) + one (failed_now o r) + one (waits max o r)
one_state max none r = omega arith
one_state max (some s) r = by_status s.status (is_current s r) (now_fits max s r)
  where
    by_status :
        (st : Status) (c fits : Bool)
        → 1
          ≡ one (is_done st && c)
            + one (is_skipped st && (c && not fits))
            + one (is_failed st && c)
            + one (not c || (is_skipped st && fits))
    by_status Status.done c fits = ground arith
    by_status Status.skipped c fits = ground arith
    by_status Status.failed c fits = ground arith

among :
    (b x y z w : Bool)
    → 1 ≡ one x + one y + one z + one w
    → one b ≡ one (b && x) + one (b && y) + one (b && z) + one (b && w)
among b x y z w h = ground arith

queue_row :
    (lower : Text → Text) (exts : List Text) (max v : ℕ) (db : Db) (r : FileRow)
    → in_queue lower (v ∷ []) exts max db r
      ≡ (eligible_in lower exts max v db r && waits max (state_of r db) r)
unfolding any
queue_row lower exts max v db r = swap (r.volume == v) (v == r.volume) (ground arith) _ _
  where
    swap : (a b : Bool) → a ≡ b → (x y : Bool) → ((b || false) && (x && y)) ≡ ((a && x) && y)
    swap a b h x y = ground arith

-- The files of a volume that are counted as eligible are those that are done, skipped, failed or
-- pending, each in one count, and the pending ones are as many as wait in the volume's queue.
progress_of_adds_up :
    (lower : Text → Text) (exts : List Text) (max v : ℕ) (db : Db)
    → let p = progress_of lower exts max v db in
      (p.eligible ≡ p.done + p.skipped + p.failed + p.pending)
      × (p.pending ≡ count (in_queue lower (v ∷ []) exts max db) db.files)
unfolding progress_of
progress_of_adds_up lower exts max v db =
    let e = eligible_in lower exts max v db in
    let parts =
      count-parts e (λ r. e r && done_now (state_of r db) r)
        (λ r. e r && skipped_now max (state_of r db) r) (λ r. e r && failed_now (state_of r db) r)
        (in_queue lower (v ∷ []) exts max db)
        (λ r. rw (queue_row lower exts max v db r) (
          among (e r) (done_now (state_of r db) r) (skipped_now max (state_of r db) r)
            (failed_now (state_of r db) r) (waits max (state_of r db) r)
            (one_state max (state_of r db) r)))
        db.files in
    (omega (arith, parts), omega (arith, parts))
