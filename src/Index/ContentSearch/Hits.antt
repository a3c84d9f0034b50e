-- ===== src/Index/ContentSearch/Hits.antt =====
-- What a search in the text returns.
use mathlib.Core.List.{Memᴰ}
use findo.Prelude.{
  ℕ, suc, ◌≤◌, ◌≡◌, refl, sym, ap, ◌∙◌, Bool, true, false, not, ◌&&◌, ◌||◌, &&-true, Option, none,
  some, List, [], ◌∷◌, inl, inr, arith, filter, take, ltb, Text, length, length-take-le, All,
  Bool-cases,
}
use findo.Prelude.Int.{ℤ}
use findo.Index.{FileRow, ChunkRow, Db, Result, ok, err, chunk_at}
use findo.Index.Content.{is_visible}
use findo.Index.Files.Upsert.{same_key_eq}
use findo.Index.Queries.{TimeRange, clamp_limit, sort_by, name_pattern, ilike, in_volume, in_range}
use findo.Index.Queries.Like.{IsFolding, ilike-contains}
use findo.Index.Queries.Found.{Among, rows-Among, filter-All, sort_by-All, take-All}
use findo.Index.ContentSearch.Found.{members, IsSought, IsMatch}
use findo.Index.ContentSearch.{
  ContentMatch, Best, best_chunk, best_chunks, better, add_best, content_wanted, to_matches,
  search_content, ts_query, best_before, is_nil,
}

abbrev OfBest {κ} : (Best → Type κ) → Option Best → Type κ
OfBest P none = Unit
OfBest P (some b) = P b

module _ (is_word : Text → Bool) (to_lower lower : Text → Text) (rank : Text → Text → Option ℕ)
    (headline : Text → Text → Text) (law : IsFolding lower) (v : ℤ) (q : Text) (hidden : Bool)
    (range : TimeRange) (db : Db) where
  abbrev pub text_query : Text
  unfolding ts_query
  text_query = ts_query is_word to_lower q

  abbrev pub IsFound : ContentMatch → Type 0
  IsFound m = IsMatch rank headline text_query db m × IsSought lower v q hidden range m.file

  -- At most so many matches.
  abbrev pub Hits : ℕ → Result (List ContentMatch) → Type 0
  Hits n (err e) = Unit
  Hits n (ok hits) = (length hits ≤ n) × All IsFound hits

  record IsRanked (b : Best) : Type 0 where
    row : Among db.files b.row.file
    sought : IsSought lower v q hidden range b.row.file
    stored : Memᴰ b.found db.chunks
    of_file : (b.found.volume ≡ b.row.volume) × (b.found.path ≡ b.row.path)
    ranked : rank text_query b.found.body ≡ some b.score

  abbrev Chosen : FileRow → Type 0
  Chosen r = Among db.files r.file × IsSought lower v q hidden range r.file

  better-IsRanked :
      (r : FileRow) (best : Option Best) (c : ChunkRow) (n : Option ℕ)
      → Chosen r
      → Memᴰ c db.chunks
      → chunk_at r.volume r.path c ≡ true
      → rank text_query c.body ≡ n
      → OfBest IsRanked best
      → OfBest IsRanked (better best r c n)
  better-IsRanked r none c none h m here e k = tt
  better-IsRanked r (some b) c none h m here e k = k
  better-IsRanked r none c (some n) (among, sought) m here e k = record {
    row = among;
    sought = sought;
    stored = m;
    of_file = same_key_eq c.volume c.path r.volume r.path here;
    ranked = e;
  }
  better-IsRanked r (some b) c (some n) (among, sought) m here e k =
      elim (Bool-cases (ltb b.score n)) [
        | inl more ↦ rw more (record {
          row = among;
          sought = sought;
          stored = m;
          of_file = same_key_eq c.volume c.path r.volume r.path here;
          ranked = e;
        })
        | inr less ↦ rw less k
      ]

  best_chunk-IsRanked :
      (r : FileRow) (best : Option Best) (cs : List ChunkRow)
      → Chosen r
      → All (λ c. Memᴰ c db.chunks) cs
      → OfBest IsRanked best
      → OfBest IsRanked (best_chunk is_word to_lower lower rank headline text_query r best cs)
  unfolding best_chunk
  best_chunk-IsRanked r best [] h ms k = k
  best_chunk-IsRanked r best (c ∷ cs) h (m, ms) k = elim (Bool-cases (chunk_at r.volume r.path c)) [
    | inl here ↦ rw here (
        best_chunk-IsRanked r (better best r c (rank text_query c.body)) cs h ms
          (better-IsRanked r best c (rank text_query c.body) h m here refl k))
    | inr other ↦ rw other (best_chunk-IsRanked r best cs h ms k)
  ]

  add_best-All :
      (b : Option Best) (bs : List Best)
      → OfBest IsRanked b
      → All IsRanked bs
      → All IsRanked (add_best b bs)
  add_best-All none bs h hs = hs
  add_best-All (some b) bs h hs = (h, hs)

  best_chunks-All :
      (rs : List FileRow)
      → All Chosen rs
      → All IsRanked (best_chunks is_word to_lower lower rank headline text_query db.chunks rs)
  unfolding best_chunks
  best_chunks-All [] h = tt
  best_chunks-All (r ∷ rs) (h, hs) =
      add_best-All (best_chunk is_word to_lower lower rank headline text_query r none db.chunks) _
        (best_chunk-IsRanked r none db.chunks h (members db.chunks) tt) (best_chunks-All rs hs)

  to_matches-All :
      (bs : List Best)
      → All IsRanked bs
      → All IsFound (to_matches is_word to_lower lower rank headline text_query bs)
  unfolding to_matches
  to_matches-All [] h = tt
  to_matches-All (b ∷ bs) (h, hs) = (
    (
      record {
        file = h.row;
        found = b.found;
        stored = h.stored;
        of_file = h.of_file;
        score = b.score;
        ranked = h.ranked;
        excerpt = refl;
        number = refl;
      },
      h.sought,
    ),
    to_matches-All bs hs,
  )

  length-to_matches :
      (bs : List Best)
      → length (to_matches is_word to_lower lower rank headline text_query bs) ≡ length bs
  unfolding to_matches
  length-to_matches [] = refl
  length-to_matches (b ∷ bs) = ap suc (length-to_matches bs)

  abbrev wanted_row : FileRow → Bool
  wanted_row = content_wanted is_word to_lower lower rank headline v q hidden range

  wanted-IsSought : (r : FileRow) → wanted_row r ≡ true → IsSought lower v q hidden range r.file
  wanted-IsSought r h =
      let (other, rest) =
        &&-true (not (ilike lower r.name (name_pattern q)))
          (in_volume v r.volume && (in_range range r.mod_time && (hidden || is_visible r.path)))
          h in
      let (here, rest') = &&-true (in_volume v r.volume) _ rest in
      let (timed, shown) = &&-true (in_range range r.mod_time) _ rest' in
      let unmatched : ilike lower r.name (name_pattern q) ≡ false = ground arith in
      record {
        unnamed = sym (ilike-contains lower law r.name q) ∙ unmatched;
        in_volume = here;
        in_time = timed;
        shown = shown;
      }

  all-Chosen :
      (rs : List FileRow)
      → All (λ r. Among db.files r.file × (wanted_row r ≡ true)) rs
      → All Chosen rs
  all-Chosen [] h = tt
  all-Chosen (r ∷ rs) ((among, good), hs) = ((among, wanted-IsSought r good), all-Chosen rs hs)

  matches-Hits :
      (n : ℕ)
      → let bs =
          best_chunks is_word to_lower lower rank headline text_query db.chunks
            (filter wanted_row db.files) in
        Hits n (
          ok (
            to_matches is_word to_lower lower rank headline text_query
              (take n (sort_by best_before bs))))
  matches-Hits n =
      let rows = filter wanted_row db.files in
      let bs = best_chunks is_word to_lower lower rank headline text_query db.chunks rows in
      let chosen =
        all-Chosen rows
          (filter-All (λ r. Among db.files r.file) wanted_row db.files (rows-Among db.files)) in
      let sorted = sort_by-All IsRanked best_before bs (best_chunks-All rows chosen) in
      (
        omega (
          arith,
          length-to_matches (take n (sort_by best_before bs)),
          length-take-le n (sort_by best_before bs),
        ),
        to_matches-All (take n (sort_by best_before bs))
            (take-All IsRanked n (sort_by best_before bs) sorted),
      )

  pub search_content-Hits :
      (limit : ℤ) (is_fault : Bool)
      → Hits
          (clamp_limit 500 100 limit)
          (search_content is_word to_lower lower rank headline v q limit hidden range is_fault db)
  unfolding search_content
  search_content-Hits limit is_fault = elim (Bool-cases (is_nil (ts_query is_word to_lower q))) [
    | inl nothing ↦ rw nothing (omega arith, tt)
    | inr words ↦ rw words (elim (Bool-cases is_fault) [
      | inl broken ↦ rw broken tt
      | inr fine ↦ rw fine (matches-Hits (clamp_limit 500 100 limit))
    ])
  ]
