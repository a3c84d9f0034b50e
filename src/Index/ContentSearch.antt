-- ===== src/Index/ContentSearch.antt =====
-- backend/internal/index/contentsearch.go. Go's tables of letters and digits and its case folding are
-- the parameters `is_word` and `to_lower`; the database's ranking of a text is `rank`, none where it
-- does not match, and its excerpt is `headline`.
pub mod Found
pub mod Hits
use findo.Prelude.{
  ℕ, zero, suc, Bool, true, false, not, ◌&&◌, ◌||◌, Option, none, some, List, [], ◌∷◌, ◌++◌, codes,
  filter, leb, ltb, ◌==◌, if◌then◌else◌, Text, text_eq, take, length,
}
use findo.Prelude.Int.{ℤ}
use findo.Strings.{join}
use findo.Strings.Runes.{runes, concat}
use findo.Index.{File, FileRow, ChunkRow, Db, fault, Result, ok, err, chunk_at}
use findo.Index.Content.{is_visible}
use findo.Index.Queries.{
  TimeRange, in_volume, in_range, clamp_limit, sort_by, text_before, ilike, name_pattern,
}

abbrev pub mark_start : Text
mark_start = 2 ∷ []

abbrev pub mark_end : Text
mark_end = 3 ∷ []

abbrev start_token : Text → List (List Text) → List (List Text)
start_token r [] = (r ∷ []) ∷ []
start_token r (t ∷ ts) = (r ∷ t) ∷ ts

-- The runs of words' runes, with the empty ones between separators.
unfoldable pub runs_of : (Text → Bool) → List Text → List (List Text)
runs_of is_word [] = [] ∷ []
runs_of is_word (r ∷ rs) =
    let rest = runs_of is_word rs in if is_word r then start_token r rest else [] ∷ rest

unfoldable pub non_empty_runs : List (List Text) → List (List Text)
non_empty_runs [] = []
non_empty_runs ([] ∷ ts) = non_empty_runs ts
non_empty_runs ((r ∷ t) ∷ ts) = (r ∷ t) ∷ non_empty_runs ts

-- At least minTermLen runes.
abbrev pub is_long : List Text → Bool
is_long t = leb 2 (length t)

unfoldable pub has_long : List (List Text) → Bool
has_long [] = false
has_long (t ∷ ts) = is_long t || has_long ts

abbrev pub quoted : List Text → Text
quoted t = b'\'' ∷ concat t ++ b'\'' ∷ []

unfoldable pub query_parts : List (List Text) → List Text
query_parts [] = []
query_parts (t ∷ []) = (if is_long t then quoted t ++ codes ":*" else quoted t) ∷ []
query_parts (t ∷ u ∷ ts) = quoted t ∷ query_parts (u ∷ ts)

unfoldable pub ts_query : (Text → Bool) → (Text → Text) → Text → Text
unfolding runs_of non_empty_runs has_long query_parts join runes
ts_query is_word to_lower q =
    let s = to_lower q in
    let tokens = take 16 (non_empty_runs (runs_of is_word (runes (length s) s))) in
    if has_long tokens then join (codes " & ") (query_parts tokens) else []

pub record ContentMatch : Type 0 where
  pub file : File
  pub snippet : Text
  pub chunk : ℕ

pub record Best : Type 0 where
  pub row : FileRow
  pub found : ChunkRow
  pub score : ℕ

abbrev pub better : Option Best → FileRow → ChunkRow → Option ℕ → Option Best
better best r c none = best
better none r c (some n) = some (record { row = r; found = c; score = n })
better (some b) r c (some n) =
    if ltb b.score n then some (record { row = r; found = c; score = n }) else some b

abbrev pub add_best : Option Best → List Best → List Best
add_best none bs = bs
add_best (some b) bs = b ∷ bs

-- rank DESC, volume_id, path COLLATE "C"
abbrev pub best_before : Best → Best → Bool
best_before a b =
    ltb b.score a.score
    || ((a.score == b.score)
        && (ltb a.row.volume b.row.volume
            || ((a.row.volume == b.row.volume) && text_before a.row.path b.row.path)))

abbrev pub is_nil : Text → Bool
is_nil [] = true
is_nil (c ∷ s) = false

module _ (is_word : Text → Bool) (to_lower lower : Text → Text) (rank : Text → Text → Option ℕ)
    (headline : Text → Text → Text) where
  -- DISTINCT ON (volume_id, path) … ORDER BY rank DESC
  unfoldable pub best_chunk : Text → FileRow → Option Best → List ChunkRow → Option Best
  best_chunk tq r best [] = best
  best_chunk tq r best (c ∷ cs) =
      best_chunk tq r
        (if chunk_at r.volume r.path c then better best r c (rank tq c.body) else best) cs

  unfoldable pub best_chunks : Text → List ChunkRow → List FileRow → List Best
  unfolding best_chunk
  best_chunks tq cs [] = []
  best_chunks tq cs (r ∷ rs) = add_best (best_chunk tq r none cs) (best_chunks tq cs rs)

  -- The conditions on a file: its name does not match, and the filters are those of Search.
  abbrev pub content_wanted : ℤ → Text → Bool → TimeRange → FileRow → Bool
  content_wanted v q hidden range r =
      not (ilike lower r.name (name_pattern q))
      && (in_volume v r.volume && (in_range range r.mod_time && (hidden || is_visible r.path)))

  unfoldable pub to_matches : Text → List Best → List ContentMatch
  to_matches tq [] = []
  to_matches tq (b ∷ bs) =
      record { file = b.row.file; snippet = headline tq b.found.body; chunk = b.found.seq }
      ∷ to_matches tq bs

  unfoldable pub search_content :
      ℤ → Text → ℤ → Bool → TimeRange → Bool → Db → Result (List ContentMatch)
  unfolding ts_query best_chunks sort_by to_matches filter
  search_content v q limit hidden range is_fault db =
      let tq = ts_query is_word to_lower q in
      let rows = filter (content_wanted v q hidden range) db.files in
      if is_nil tq
      then ok []
      else if is_fault
      then err fault
      else ok (
          to_matches tq (
            take (clamp_limit 500 100 limit) (sort_by best_before (best_chunks tq db.chunks rows))))
