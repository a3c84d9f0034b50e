-- ===== src/Search/Answered.antt =====
-- What a search answers.
use findo.Prelude.{
  ℕ, suc, ◌-◌, ◌≤◌, ◌≡◌, refl, ap, Bool, true, not, ◌&&◌, &&-true, Option, none, some, List, [],
  ◌∷◌, ◌++◌, ◌⊎◌, inl, inr, arith, leb, ltb, if◌then◌else◌, Text, length, length-append, All,
  Bool-cases, count,
}
use findo.Prelude.Int.{ℤ, pos, negsuc}
use findo.Index.{File, Db, Result, ok, err}
use findo.Index.Queries.{TimeRange, clamp_limit, is_unbounded}
use findo.Index.Queries.Like.{IsFolding}
use findo.Strings.Numbers.{atoi}
use findo.Index.Queries.Found.{Among, wanted, search_exact, search-fault}
use findo.Index.ContentSearch.{ContentMatch}
use findo.Search
use findo.Search.{
  SearchRequest, Words, SearchFaults, Answer, Response, refused, answered, name_entries,
  content_entries, with_contents, with_names, in_volume_named, in_time, handle_search, or_zero,
  override, wants_hidden,
}
use findo.Index.ContentSearch.Hits.{Hits, IsFound, search_content-Hits}

module _ (is_word : Text → Bool) (to_lower lower : Text → Text) (rank : Text → Text → Option ℕ)
    (headline : Text → Text → Text) (law : IsFolding lower) where
  length-name_entries : (fs : List File) → length (name_entries fs) ≡ length fs
  length-name_entries [] = refl
  length-name_entries (f ∷ fs) = ap suc (length-name_entries fs)

  length-content_entries : (hs : List ContentMatch) → length (content_entries hs) ≡ length hs
  length-content_entries [] = refl
  length-content_entries (h ∷ hs) = ap suc (length-content_entries hs)

  -- A refusal says that the request or the database is at fault. An answer is to the query and for the
  -- range and the volume asked for: files of the table that the search by name is for, then matches of
  -- which the text is found and the name is not.
  abbrev pub IsAnswer : SearchRequest → Db → Text → ℕ → Response Answer → Type 0
  IsAnswer r db nq limit (refused status) = (status ≡ 400) ⊎ (status ≡ 500)
  IsAnswer r db nq limit (answered a) =
      (names : List File) × (hits : List ContentMatch) × (v : ℤ) × (override atoi r.volume (pos 0)
        ≡ some v)
      × (a.name_query ≡ nq)
      × (a.entries ≡ name_entries names ++ content_entries hits)
      × (length a.entries ≤ limit)
      × All
          (λ (f : File).
            Among db.files f × (wanted lower v nq (wants_hidden r.hidden) a.modified f ≡ true))
          names
      × All
          (IsFound is_word to_lower lower rank headline law v nq (wants_hidden r.hidden) a.modified
            db)
          hits

  module _ (r : SearchRequest) (db : Db) (nq : Text) (v : ℤ)
      (volume : override atoi r.volume (pos 0) ≡ some v) (range : TimeRange) where
    abbrev IsNamed : File → Type 0
    IsNamed f = Among db.files f × (wanted lower v nq (wants_hidden r.hidden) range f ≡ true)

    abbrev Found : ℕ → Result (List ContentMatch) → Type 0
    Found = Hits is_word to_lower lower rank headline law v nq (wants_hidden r.hidden) range db

    with_contents-IsAnswer :
        (limit n : ℕ) (files : List File) (hits : Result (List ContentMatch))
        → length files ≤ limit
        → n ≤ limit - length files
        → All IsNamed files
        → Found n hits
        → IsAnswer r db nq limit
            (with_contents is_word to_lower lower rank headline nq range files hits)
    with_contents-IsAnswer limit n files (err e) small room h found = inr refl
    with_contents-IsAnswer limit n files (ok hs) small room h (few, found) = (
      files,
      hs,
      v,
      volume,
      refl,
      refl,
      omega (
        arith,
        length-append (name_entries files) (content_entries hs),
        length-name_entries files,
        length-content_entries hs,
        few,
      ),
      h,
      found,
    )

    with_names-IsAnswer :
        (limit : ℕ) (faults : SearchFaults) (files : List File)
        → limit ≤ 500
        → length files ≤ limit
        → All IsNamed files
        → IsAnswer r db nq limit (
            with_names is_word to_lower lower rank headline v nq limit
              (wants_hidden r.hidden)
              range
              faults
              db
              (ok files))
    with_names-IsAnswer limit faults files most small h =
        elim (Bool-cases (not (Search.is_nil nq) && ltb (length files) limit)) [
          | inr done ↦
              rw done (
                with_contents-IsAnswer limit 0 files (ok []) small (omega arith) h
                  (omega arith, tt))
          | inl more ↦ rw more (
              with_contents-IsAnswer limit (clamp_limit 500 100 (pos (limit - length files))) files
                _ small
                (let (_, room) = &&-true (not (Search.is_nil nq)) (ltb (length files) limit) more in
                  ground arith)
                h
                (search_content-Hits is_word to_lower lower rank headline law v nq
                  (wants_hidden r.hidden) range db (pos (limit - length files))
                  faults.contents_fault))
        ]

  limit_bounds : (limit : ℤ) → (1 ≤ clamp_limit 500 100 limit) × (clamp_limit 500 100 limit ≤ 500)
  limit_bounds (pos n) = ground arith
  limit_bounds (negsuc n) = ground arith

  clamp_limit-twice : (n : ℕ) → 1 ≤ n → n ≤ 500 → clamp_limit 500 100 (pos n) ≡ n
  clamp_limit-twice n h k = ground arith

  smaller-le : (n m : ℕ) → (if leb n m then n else m) ≤ n
  smaller-le n m = ground arith

  in_volume-IsAnswer :
      (r : SearchRequest) (nq : Text) (range : TimeRange) (faults : SearchFaults) (db : Db)
      (v : Option ℤ)
      → override atoi r.volume (pos 0) ≡ v
      → IsAnswer r db nq
          (clamp_limit 500 100 (or_zero (atoi r.limit)))
          (in_volume_named is_word to_lower lower rank headline r nq range faults db v)
  in_volume-IsAnswer r nq range faults db none volume = inl refl
  in_volume-IsAnswer r nq range faults db (some v) volume =
      let limit = clamp_limit 500 100 (or_zero (atoi r.limit)) in
      let (low, high) = limit_bounds (or_zero (atoi r.limit)) in
      let hidden = wants_hidden r.hidden in
      elim (Bool-cases faults.names_fault) [
        | inl broken ↦ rw (broken, search-fault lower v nq (pos limit) hidden range db) (inr refl)
        | inr fine ↦
            let (fs, found, good, many, _) =
              search_exact lower law v nq hidden range (pos limit) db in
            let n = clamp_limit 500 100 (pos limit) in
            let within =
              smaller-le n (count (λ r. wanted lower v nq hidden range r.file) db.files) in
            rw (fine, found)
              (with_names-IsAnswer r db nq v volume range limit faults fs high
                (omega (arith, many, within, clamp_limit-twice limit low high)) good)
      ]

  in_time-IsAnswer :
      (r : SearchRequest) (nq : Text) (faults : SearchFaults) (db : Db) (range : Option TimeRange)
      → IsAnswer r db nq
          (clamp_limit 500 100 (or_zero (atoi r.limit)))
          (in_time is_word to_lower lower rank headline r nq faults db range)
  in_time-IsAnswer r nq faults db none = inl refl
  in_time-IsAnswer r nq faults db (some range) =
      elim (Bool-cases (Search.is_nil r.q && is_unbounded range)) [
        | inl nothing ↦ rw nothing (inl refl)
        | inr something ↦
            rw something
              (in_volume-IsAnswer r nq range faults db (override atoi r.volume (pos 0)) refl)
      ]

  -- A search is refused with 400 or 500, or answered with no more files than its limit, which is
  -- between 1 and 500: first files of the table whose names contain the query, then matches, each with
  -- the number and the excerpt of a stored chunk of a file of the table that the database ranks for the
  -- query, where the file's name does not contain the query, so that no file is listed for both. All of
  -- them are of the volume asked for and in the range that the answer names, and hidden ones only where
  -- those are asked for. It is assumed that the database's case folding leaves the characters of patterns as they are and makes
  -- no others into them.
  pub handle_search_answers :
      (w : Words) (r : SearchRequest) (faults : SearchFaults) (db : Db)
      → let limit = clamp_limit 500 100 (or_zero (atoi r.limit)) in
        (1 ≤ limit)
        × (limit ≤ 500)
        × IsAnswer r db
            (w.parse r.q).name_query
            limit
            (handle_search is_word to_lower lower rank headline w r faults db)
  unfolding handle_search
  handle_search_answers w r faults db =
      let (low, high) = limit_bounds (or_zero (atoi r.limit)) in
      elim (Bool-cases (not (Search.is_nil r.tz) && not (w.known_zone r.tz))) [
        | inl unknown ↦ rw unknown (low, high, inl refl)
        | inr known ↦ rw known (low, high, in_time-IsAnswer r _ faults db _)
      ]
