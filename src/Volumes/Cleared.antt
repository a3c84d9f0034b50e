-- ===== src/Volumes/Cleared.antt =====
-- Content indexing that is turned off leaves no text of the volume.
use findo.Prelude.{
  ℕ, ◌≡◌, ◌≢◌, refl, ◌∙◌, Bool, true, false, not, Option, none, some, List, [], ◌∷◌, arith, ◌==◌,
  if◌then◌else◌, Text, find, filter, inl, inr, ◌⊎◌, Option-cases, ==_refl,
}
use findo.Index.{Db, Error, fault, not_found, err, StateRow, ChunkRow, state_at, chunk_at}
use findo.Index.Content.{ContentInfo, content_for, bodies, by_seq}
use findo.Volumes.{Tables, has_id, clear_content, set_volume_content_index}

find-kept :
    (id u : ℕ) (p : Text) (states : List StateRow)
    → find (state_at u p) (filter (λ s. not (s.volume == id)) states)
      ≡ (if u == id then none else find (state_at u p) states)
unfolding find filter
find-kept id u p [] = ground arith
find-kept id u p (s ∷ states) = ground (arith, find-kept id u p states)

filter-kept :
    (id u : ℕ) (p : Text) (chunks : List ChunkRow)
    → filter (chunk_at u p) (filter (λ c. not (c.volume == id)) chunks)
      ≡ (if u == id then [] else filter (chunk_at u p) chunks)
unfolding filter
filter-kept id u p [] = ground arith
filter-kept id u p (c ∷ chunks) = ground (arith, filter-kept id u p chunks)

-- What is known of a file's text depends on the two tables alone.
content_for-same :
    (u : ℕ) (p : Text) (before after : Db)
    → find (state_at u p) after.states ≡ find (state_at u p) before.states
    → filter (chunk_at u p) after.chunks ≡ filter (chunk_at u p) before.chunks
    → content_for u p after ≡ content_for u p before
unfolding content_for
content_for-same u p before after h k = λ j. info (h j) (k j)
  where
    info : Option StateRow → List ChunkRow → Option ContentInfo
    info state chunks = elim state [
      | none ↦ none
      | some s ↦
          some (record { status = s.status; reason = s.reason; chunks = bodies (by_seq chunks) })
    ]

content_for-none :
    (u : ℕ) (p : Text) (db : Db) → find (state_at u p) db.states ≡ none → content_for u p db ≡ none
unfolding content_for
content_for-none u p db h = rw (h, content_for) refl

-- What the tables have of a file's text: nothing to show, and no chunk to search.
abbrev pub IsCleared : ℕ → Text → Db → Type 0
IsCleared v p db = (content_for v p db ≡ none) × (filter (chunk_at v p) db.chunks ≡ [])

-- The same text to show and the same chunks to search.
abbrev pub IsSameText : ℕ → Text → Db → Db → Type 0
IsSameText v p before after =
    (content_for v p after ≡ content_for v p before)
    × (filter (chunk_at v p) after.chunks ≡ filter (chunk_at v p) before.chunks)

clear_content-only :
    (id u : ℕ) (p q : Text) (db : Db)
    → u ≢ id
    → IsCleared id p (clear_content id db) × IsSameText u q db (clear_content id db)
unfolding clear_content
clear_content-only id u p q db h =
    let other : (u == id) ≡ false = ground arith in
    (
      (
        content_for-none id p (clear_content id db)
            (find-kept id id p db.states ∙ rw (==_refl id) refl),
        filter-kept id id p db.chunks ∙ rw (==_refl id) refl,
      ),
      (
        content_for-same u q db (clear_content id db) (find-kept id u q db.states ∙ rw other refl)
            (filter-kept id u q db.chunks ∙ rw other refl),
        filter-kept id u q db.chunks ∙ rw other refl,
      ),
    )

-- Turning content indexing off either returns an error and changes no table, or leaves no state of
-- extraction and no chunk for any path of the volume, so that no text of it is shown or searched, and
-- for every path of every other volume the text and the chunks that were there.
pub content_off_clears :
    (id u : ℕ) (p q : Text) (is_fault : Bool) (t : Tables)
    → u ≢ id
    → let (result, after) = set_volume_content_index id false is_fault t in
      ((e : Error) × (result ≡ err e) × (after ≡ t))
      ⊎ (IsCleared id p after.db × IsSameText u q t.db after.db)
unfolding set_volume_content_index
content_off_clears id u p q true t h = inl (fault, refl, refl)
content_off_clears id u p q false t h = elim (Option-cases (find (has_id id) t.volumes)) [
  | inl e ↦ rw e (inl (not_found, refl, refl))
  | inr (v, e) ↦ rw e (inr (clear_content-only id u p q t.db h))
]
