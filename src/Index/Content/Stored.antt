-- ===== src/Index/Content/Stored.antt =====
-- What SaveContent stores is what ContentFor returns.
use findo.Prelude.{
  ◌&&◌, ℕ, suc, ◌≡◌, refl, ap, sym, ◌∙◌, Bool, true, false, not, none, some, List, [], ◌∷◌, ◌++◌,
  arith, Text, filter, any, find, inl, inr, Bool-cases, ◌⊎◌, append-nil,
}
use findo.Prelude.Int.{ℤ}
use findo.Index.{
  Db, StateRow, ChunkRow, Status, done, fault, file_gone, bad_status, Error, file_at, state_at,
  chunk_at, Result, ok, err,
}
use findo.Index.Files.Upsert.{same_key_refl}
use findo.Index.Content.{
  is_nil, Faults, save_content, save_content_skip, delete_chunks, chunk_rows, needs_file,
  insert_chunks, put_state, upsert_content_state, done_row, bind, refuse, commit, skip_row,
  content_for, bodies, by_seq, insert_by_seq,
}

-- The state of a path after the state of another or the same path is recorded.
pub find-put_state :
    (s : StateRow) (states : List StateRow)
    → find (state_at s.volume s.path) (put_state s states) ≡ some s
unfolding find put_state
find-put_state s [] = rw (same_key_refl s.volume s.path) refl
find-put_state s (t ∷ states) = elim (Bool-cases (state_at s.volume s.path t)) [
  | inl same ↦ rw same (rw (same_key_refl s.volume s.path) refl)
  | inr other ↦ rw other (rw other (find-put_state s states))
]

filter-dropped :
    (v : ℕ) (p : Text) (cs : List ChunkRow)
    → filter (chunk_at v p) (filter (λ c. not (chunk_at v p c)) cs) ≡ []
unfolding filter
filter-dropped v p [] = refl
filter-dropped v p (c ∷ cs) = elim (Bool-cases (chunk_at v p c)) [
  | inl same ↦ rw same (filter-dropped v p cs)
  | inr other ↦ rw other (rw other (filter-dropped v p cs))
]

filter-append :
    (keep : ChunkRow → Bool) (xs ys : List ChunkRow)
    → filter keep (xs ++ ys) ≡ filter keep xs ++ filter keep ys
unfolding filter
filter-append keep [] ys = refl
filter-append keep (x ∷ xs) ys = ground (arith, filter-append keep xs ys)

filter-chunk_rows :
    (v : ℕ) (p : Text) (n : ℕ) (bs : List Text)
    → filter (chunk_at v p) (chunk_rows v p n bs) ≡ chunk_rows v p n bs
unfolding filter chunk_rows
filter-chunk_rows v p n [] = refl
filter-chunk_rows v p n (b ∷ bs) = rw (same_key_refl v p) (
    ap (λ t. record { volume = v; path = p; seq = n; body = b } ∷ t)
      (filter-chunk_rows v p (suc n) bs))

insert-chunk_rows :
    (v : ℕ) (p : Text) (n : ℕ) (b : Text) (bs : List Text)
    → insert_by_seq (record { volume = v; path = p; seq = n; body = b }) (chunk_rows v p (suc n) bs)
      ≡ chunk_rows v p n (b ∷ bs)
unfolding insert_by_seq chunk_rows
insert-chunk_rows v p n b [] = refl
insert-chunk_rows v p n b (c ∷ bs) = ground arith

by_seq-chunk_rows :
    (v : ℕ) (p : Text) (n : ℕ) (bs : List Text) → by_seq (chunk_rows v p n bs) ≡ chunk_rows v p n bs
unfolding by_seq chunk_rows
by_seq-chunk_rows v p n [] = refl
by_seq-chunk_rows v p n (b ∷ bs) =
    ap (insert_by_seq _) (by_seq-chunk_rows v p (suc n) bs) ∙ insert-chunk_rows v p n b bs

bodies-chunk_rows : (v : ℕ) (p : Text) (n : ℕ) (bs : List Text) → bodies (chunk_rows v p n bs) ≡ bs
unfolding bodies chunk_rows
bodies-chunk_rows v p n [] = refl
bodies-chunk_rows v p n (b ∷ bs) = ap (λ t. b ∷ t) (bodies-chunk_rows v p (suc n) bs)

-- The chunks of the path after it was saved.
stored_chunks :
    (v : ℕ) (p : Text) (cs : List ChunkRow) (bs : List Text)
    → bodies (
        by_seq
          (filter (chunk_at v p) (filter (λ c. not (chunk_at v p c)) cs ++ chunk_rows v p 0 bs)))
      ≡ bs
stored_chunks v p cs bs =
    rw (filter-append (chunk_at v p) (filter (λ c. not (chunk_at v p c)) cs) (chunk_rows v p 0 bs))
      (rw (filter-dropped v p cs, filter-chunk_rows v p 0 bs)
        (ap bodies (by_seq-chunk_rows v p 0 bs) ∙ bodies-chunk_rows v p 0 bs))

-- The tables after a save that nothing stops.
abbrev pub saved : ℕ → Text → ℕ → ℤ → List Text → Db → Db
saved v p size mod_time chunks db = record db {
  chunks = filter (λ c. not (chunk_at v p c)) db.chunks ++ chunk_rows v p 0 chunks;
  states = put_state (done_row v p size mod_time chunks) db.states;
}

insert_chunks_lem :
    (v : ℕ) (p : Text) (chunks : List Text) (tx : Db)
    → any (file_at v p) tx.files ≡ true
    → insert_chunks v p chunks tx ≡ ok (record tx { chunks = tx.chunks ++ chunk_rows v p 0 chunks })
unfolding insert_chunks needs_file chunk_rows
insert_chunks_lem v p [] tx h = ap (λ c. ok (record tx { chunks = c })) (sym (append-nil tx.chunks))
insert_chunks_lem v p (b ∷ bs) tx h = rw h refl

-- A transaction that fails, or that succeeds with the tables `good` under the condition `P`.
abbrev Outcome : Type 0 → Db → Result Db → Type 0
Outcome P good r = ((e : Error) × (r ≡ err e)) ⊎ (P × (r ≡ ok good))

refuse_step :
    (P : Type 0) (good : Db) (is_fault : Bool) (tx : Db) (k : Db → Result Db)
    → Outcome P good (k tx)
    → Outcome P good (bind (refuse is_fault tx) k)
refuse_step P good true tx k h = inl (fault, refl)
refuse_step P good false tx k h = h

last_step : (P : Type 0) (good : Db) (is_fault : Bool) → P → Outcome P good (refuse is_fault good)
last_step P good true h = inl (fault, refl)
last_step P good false h = inr (h, refl)

commit-Outcome :
    (P : Type 0) (before good : Db) (r : Result Db)
    → Outcome P good r
    → ((e : Error) × (commit before r ≡ (some e, before))) ⊎ (P × (commit before r ≡ (none, good)))
commit-Outcome P before good r (inl (e, h)) = inl (e, rw h refl)
commit-Outcome P before good r (inr (h, h')) = inr (h, rw h' refl)

chunks_step :
    (v : ℕ) (p : Text) (chunks : List Text) (P : Type 0) (good tx : Db) (k : Db → Result Db)
    → (any (file_at v p) tx.files ≡ true
        → Outcome P good (k (record tx { chunks = tx.chunks ++ chunk_rows v p 0 chunks })))
    → (any (file_at v p) tx.files ≡ false → Outcome P good (k tx))
    → Outcome P good (bind (insert_chunks v p chunks tx) k)
unfolding insert_chunks needs_file
chunks_step v p chunks P good tx k h h' = elim (Bool-cases (any (file_at v p) tx.files)) [
  | inl here ↦ rw (insert_chunks_lem v p chunks tx here) (h here)
  | inr gone ↦ absent chunks gone
]
  where
    absent :
        (bs : List Text)
        → any (file_at v p) tx.files ≡ false
        → Outcome P good (bind (insert_chunks v p bs tx) k)
    absent [] gone = h' gone
    absent (b ∷ bs) gone = rw gone (inl (file_gone, refl))

state_step :
    (s : StateRow) (P : Type 0) (good tx : Db) (k : Db → Result Db)
    → (any (file_at s.volume s.path) tx.files ≡ true
        → Outcome P good (k (record tx { states = put_state s tx.states })))
    → Outcome P good (bind (upsert_content_state s tx) k)
unfolding upsert_content_state needs_file
state_step s P good tx k h = elim (Bool-cases (any (file_at s.volume s.path) tx.files)) [
  | inl here ↦ rw here (h here)
  | inr gone ↦ rw gone (inl (file_gone, refl))
]

-- A save either returns an error and changes nothing, or the file is indexed and the save returns
-- none and leaves the new chunks and the state `done`.
pub save_content_outcome :
    (v : ℕ) (p : Text) (size : ℕ) (mod_time : ℤ) (chunks : List Text) (f : Faults) (db : Db)
    → ((e : Error) × (save_content v p size mod_time chunks f db ≡ (some e, db)))
      ⊎ ((any (file_at v p) db.files ≡ true)
          × (save_content v p size mod_time chunks f db
              ≡ (none, saved v p size mod_time chunks db)))
unfolding save_content delete_chunks
save_content_outcome v p size mod_time chunks f db =
    let P = any (file_at v p) db.files ≡ true in
    let good = saved v p size mod_time chunks db in
    let s = done_row v p size mod_time chunks in
    commit-Outcome P db good _ (
      refuse_step P good f.begin db _ (
        refuse_step P good f.delete (delete_chunks v p db) _ (
          refuse_step P good (f.insert && not (is_nil chunks)) (delete_chunks v p db) _ (
            chunks_step v p chunks P good (delete_chunks v p db) _
              (λ here.
                refuse_step P good f.state _ _
                  (state_step s P good _ _ (λ h. last_step P good f.commit h)))
              (λ gone. refuse_step P good f.state _ _ (state_step s P good _ _ (λ h. cc)))))))

-- The tables after a skip that nothing stops.
abbrev pub dropped : StateRow → Db → Db
dropped s db = record db {
  chunks = filter (λ c. not (chunk_at s.volume s.path c)) db.chunks;
  states = put_state s db.states;
}

skip_steps :
    (s : StateRow) (f : Faults) (db : Db)
    → let P = any (file_at s.volume s.path) db.files ≡ true in
      Outcome P (dropped s db) (
        bind (refuse f.begin db) (λ tx.
          bind (refuse f.delete (delete_chunks s.volume s.path tx)) (λ tx.
            bind (refuse f.state tx) (λ tx. bind (upsert_content_state s tx) (refuse f.commit)))))
unfolding delete_chunks
skip_steps s f db =
    let P = any (file_at s.volume s.path) db.files ≡ true in
    let good = dropped s db in
    refuse_step P good f.begin db _ (
      refuse_step P good f.delete (delete_chunks s.volume s.path db) _ (
        refuse_step P good f.state _ _
          (state_step s P good _ _ (λ h. last_step P good f.commit h))))

-- A skip either returns an error and changes nothing, or the file is indexed and the skip returns
-- none and leaves no chunk and the state that it was given.
pub save_content_skip_outcome :
    (v : ℕ) (p : Text) (size : ℕ) (mod_time : ℤ) (status : Status) (reason : Text) (f : Faults)
    (db : Db)
    → ((e : Error) × (save_content_skip v p size mod_time status reason f db ≡ (some e, db)))
      ⊎ ((any (file_at v p) db.files ≡ true)
          × (save_content_skip v p size mod_time status reason f db
              ≡ (none, dropped (skip_row v p size mod_time status reason) db)))
unfolding save_content_skip
save_content_skip_outcome v p size mod_time done reason f db = inl (bad_status, refl)
save_content_skip_outcome v p size mod_time status reason f db =
    commit-Outcome (any (file_at v p) db.files ≡ true) db _ _
      (skip_steps (skip_row v p size mod_time status reason) f db)

content_for_lem :
    (v : ℕ) (p : Text) (db : Db) (s : StateRow)
    → find (state_at v p) db.states ≡ some s
    → content_for v p db
      ≡ some (record {
        status = s.status;
        reason = s.reason;
        chunks = bodies (by_seq (filter (chunk_at v p) db.chunks));
      })
unfolding content_for
content_for_lem v p db s h = rw (h, content_for) refl

content_for-saved :
    (v : ℕ) (p : Text) (size : ℕ) (mod_time : ℤ) (chunks : List Text) (db : Db)
    → content_for v p (saved v p size mod_time chunks db)
      ≡ some (record { status = done; reason = []; chunks = chunks })
content_for-saved v p size mod_time chunks db =
    content_for_lem v p (saved v p size mod_time chunks db) (done_row v p size mod_time chunks)
      (find-put_state (done_row v p size mod_time chunks) db.states)
    ∙ ap (λ c. some (record { status = done; reason = []; chunks = c }))
        (stored_chunks v p db.chunks chunks)

-- A save either returns no error, and ContentFor then returns the path's chunks, in order, under the
-- status done; or it returns an error and changes nothing.
pub save_content_round_trip :
    (v : ℕ) (p : Text) (size : ℕ) (mod_time : ℤ) (chunks : List Text) (f : Faults) (db : Db)
    → let (error, after) = save_content v p size mod_time chunks f db in
      ((error ≡ none)
        × (content_for v p after ≡ some (record { status = done; reason = []; chunks = chunks })))
      ⊎ ((e : Error) × (error ≡ some e) × (after ≡ db))
save_content_round_trip v p size mod_time chunks f db =
    elim (save_content_outcome v p size mod_time chunks f db) [
      | inl (e, h) ↦ rw h (inr (e, refl, refl))
      | inr (here, h) ↦ rw h (inl (refl, content_for-saved v p size mod_time chunks db))
    ]
