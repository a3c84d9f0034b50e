-- ===== src/Index/Content.antt =====
-- backend/internal/index/content.go: the queue of files to extract, and what extraction leaves.
-- `lower` is the database's lower(), `faults` says which statements of a transaction it refuses.
pub mod Stored
use findo.Prelude.{
  ℕ, zero, suc, ◌+◌, ◌-◌, Bool, true, false, not, ◌&&◌, ◌||◌, Option, none, some, List, [], ◌∷◌,
  ◌++◌, leb, ltb, ◌==◌, if◌then◌else◌, Text, text_eq, codes, any, find, filter, count, length, take,
}
use findo.Prelude.Int.{ℤ, int_eq}
use findo.Index.{
  Db, FileRow, StateRow, ChunkRow, Status, done, skipped, failed, Error, fault, file_gone,
  bad_status, Result, ok, err, file_at, state_at, chunk_at,
}

abbrev pub too_large : Text
too_large = codes "too_large"

-- path LIKE '%/.%'
unfoldable pub has_dot_component : Text → Bool
has_dot_component [] = false
has_dot_component (a ∷ []) = false
has_dot_component (a ∷ b ∷ s) = ((a == b'/') && (b == b'.')) || has_dot_component (b ∷ s)

-- visibleOnly
unfoldable pub is_visible : Text → Bool
unfolding has_dot_component
is_visible [] = true
is_visible (a ∷ s) = not (a == b'.') && not (has_dot_component (a ∷ s))

pub record PendingFile : Type 0 where
  pub volume : ℕ
  pub path : Text
  pub ext : Text
  pub size : ℕ
  pub mod_time : ℤ

-- The text was extracted from the file as it is now.
abbrev pub is_current : StateRow → FileRow → Bool
is_current s r = (s.size == r.size) && int_eq s.mod_time r.mod_time

abbrev pub is_skipped : Status → Bool
is_skipped skipped = true
is_skipped _ = false

abbrev pub is_done : Status → Bool
is_done done = true
is_done _ = false

abbrev pub is_failed : Status → Bool
is_failed failed = true
is_failed _ = false

-- A skip for size that the limit now admits.
abbrev pub now_fits : ℕ → StateRow → FileRow → Bool
now_fits max s r = text_eq s.reason too_large && leb r.size max

abbrev pub waits : ℕ → Option StateRow → FileRow → Bool
waits max none r = true
waits max (some s) r = not (is_current s r) || (is_skipped s.status && now_fits max s r)

abbrev pub state_of : FileRow → Db → Option StateRow
state_of r db = find (state_at r.volume r.path) db.states

-- Byte order, as COLLATE "C".
unfoldable pub text_le : Text → Text → Bool
text_le [] t = true
text_le (a ∷ s) [] = false
text_le (a ∷ s) (b ∷ t) = ltb a b || ((a == b) && text_le s t)

abbrev pub row_le : FileRow → FileRow → Bool
row_le r q = ltb r.volume q.volume || ((r.volume == q.volume) && text_le r.path q.path)

unfoldable pub insert_row : FileRow → List FileRow → List FileRow
insert_row r [] = r ∷ []
insert_row r (q ∷ rows) = if row_le r q then r ∷ q ∷ rows else q ∷ insert_row r rows

unfoldable pub sort_rows : List FileRow → List FileRow
unfolding insert_row
sort_rows [] = []
sort_rows (r ∷ rows) = insert_row r (sort_rows rows)

unfoldable pub to_pending : List FileRow → List PendingFile
to_pending [] = []
to_pending (r ∷ rows) =
    record { volume = r.volume; path = r.path; ext = r.ext; size = r.size; mod_time = r.mod_time }
    ∷ to_pending rows

-- NOT f.is_dir AND lower(f.ext) = ANY(exts) AND visible
unfoldable pub is_eligible : (Text → Text) → List Text → FileRow → Bool
unfolding any is_visible
is_eligible lower exts r = not r.is_dir && (any (text_eq (lower r.ext)) exts && is_visible r.path)

abbrev pub in_queue : (Text → Text) → List ℕ → List Text → ℕ → Db → FileRow → Bool
in_queue lower ids exts max db r =
    any (λ v. v == r.volume) ids && (is_eligible lower exts r && waits max (state_of r db) r)

abbrev pub is_nil {ℓ} : {A : Type ℓ} → List A → Bool
is_nil [] = true
is_nil (x ∷ xs) = false

unfoldable pub pending_content :
    (Text → Text) → List ℕ → List Text → ℕ → ℕ → Bool → Db → Result (List PendingFile)
unfolding filter sort_rows to_pending
pending_content lower ids exts max limit is_fault db =
    if is_nil ids || is_nil exts
    then ok []
    else if is_fault
    then err fault
    else ok (to_pending (take limit (sort_rows (filter (in_queue lower ids exts max db) db.files))))

-- Which statements of a transaction are refused.
pub record Faults : Type 0 where
  pub begin : Bool
  pub delete : Bool
  pub insert : Bool
  pub state : Bool
  pub commit : Bool

abbrev pub no_faults : Faults
no_faults = record { begin = false; delete = false; insert = false; state = false; commit = false }

abbrev pub bind {ℓ κ} : {A : Type ℓ} {B : Type κ} → Result A → (A → Result B) → Result B
bind (ok a) k = k a
bind (err e) k = err e

abbrev pub refuse : Bool → Db → Result Db
refuse is_fault db = if is_fault then err fault else ok db

-- Rollback leaves the tables as they were.
abbrev pub commit : Db → Result Db → Option Error × Db
commit before (ok tx) = (none, tx)
commit before (err e) = (some e, before)

unfoldable pub delete_chunks : ℕ → Text → Db → Db
unfolding filter
delete_chunks v p tx = record tx { chunks = filter (λ c. not (chunk_at v p c)) tx.chunks }

unfoldable pub chunk_rows : ℕ → Text → ℕ → List Text → List ChunkRow
chunk_rows v p seq [] = []
chunk_rows v p seq (b ∷ bs) =
    record { volume = v; path = p; seq = seq; body = b } ∷ chunk_rows v p (suc seq) bs

-- The foreign key to `files`; wrapFileGone.
unfoldable pub needs_file : ℕ → Text → Db → Result Db → Result Db
unfolding any
needs_file v p tx written = if any (file_at v p) tx.files then written else err file_gone

unfoldable pub insert_chunks : ℕ → Text → List Text → Db → Result Db
unfolding needs_file chunk_rows
insert_chunks v p [] tx = ok tx
insert_chunks v p (b ∷ bs) tx =
    needs_file v p tx (ok (record tx { chunks = tx.chunks ++ chunk_rows v p 0 (b ∷ bs) }))

unfoldable pub put_state : StateRow → List StateRow → List StateRow
put_state s [] = s ∷ []
put_state s (t ∷ states) = if state_at s.volume s.path t then s ∷ states else t ∷ put_state s states

unfoldable pub upsert_content_state : StateRow → Db → Result Db
unfolding needs_file put_state
upsert_content_state s tx =
    needs_file s.volume s.path tx (ok (record tx { states = put_state s tx.states }))

abbrev pub done_row : ℕ → Text → ℕ → ℤ → List Text → StateRow
done_row v p size mod_time chunks = record {
  volume = v;
  path = p;
  size = size;
  mod_time = mod_time;
  status = done;
  reason = [];
  chunk_count = length chunks;
}

unfoldable pub save_content : ℕ → Text → ℕ → ℤ → List Text → Faults → Db → Option Error × Db
unfolding delete_chunks insert_chunks upsert_content_state
save_content v p size mod_time chunks f db = commit db (
    bind (refuse f.begin db) (λ tx. bind (refuse f.delete (delete_chunks v p tx)) (λ tx.
      bind (refuse (f.insert && not (is_nil chunks)) tx) (λ tx.
        bind (insert_chunks v p chunks tx) (λ tx. bind (refuse f.state tx) (λ tx.
          bind (upsert_content_state (done_row v p size mod_time chunks) tx) (refuse f.commit)))))))

abbrev pub skip_row : ℕ → Text → ℕ → ℤ → Status → Text → StateRow
skip_row v p size mod_time status reason = record {
  volume = v;
  path = p;
  size = size;
  mod_time = mod_time;
  status = status;
  reason = reason;
  chunk_count = 0;
}

unfoldable pub save_content_skip :
    ℕ → Text → ℕ → ℤ → Status → Text → Faults → Db → Option Error × Db
unfolding delete_chunks upsert_content_state
save_content_skip v p size mod_time status reason f db =
    if not (is_skipped status) && not (is_failed status)
    then (some bad_status, db)
    else commit db (
        bind (refuse f.begin db) (λ tx. bind (refuse f.delete (delete_chunks v p tx)) (λ tx.
          bind (refuse f.state tx) (λ tx.
            bind (upsert_content_state (skip_row v p size mod_time status reason) tx)
              (refuse f.commit)))))

unfoldable pub retry_failed_content : ℕ → Bool → Db → Result ℕ × Db
unfolding filter count
retry_failed_content v is_fault db =
    if is_fault
    then (err fault, db)
    else (ok (count gone db.states), record db { states = filter (λ s. not (gone s)) db.states })
  where
    gone : StateRow → Bool
    gone s = (s.volume == v) && is_failed s.status

pub record ContentInfo : Type 0 where
  pub status : Status
  pub reason : Text
  pub chunks : List Text

-- ORDER BY seq
unfoldable pub insert_by_seq : ChunkRow → List ChunkRow → List ChunkRow
insert_by_seq c [] = c ∷ []
insert_by_seq c (d ∷ chunks) =
    if leb c.seq d.seq then c ∷ d ∷ chunks else d ∷ insert_by_seq c chunks

unfoldable pub by_seq : List ChunkRow → List ChunkRow
unfolding insert_by_seq
by_seq [] = []
by_seq (c ∷ chunks) = insert_by_seq c (by_seq chunks)

unfoldable pub bodies : List ChunkRow → List Text
bodies [] = []
bodies (c ∷ chunks) = c.body ∷ bodies chunks

unfoldable pub content_for : ℕ → Text → Db → Option ContentInfo
unfolding bodies by_seq find filter
content_for v p db = elim (find (state_at v p) db.states) [
  | none ↦ none
  | some s ↦ some (record {
    status = s.status;
    reason = s.reason;
    chunks = bodies (by_seq (filter (chunk_at v p) db.chunks));
  })
]
