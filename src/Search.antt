-- ===== src/Search.antt =====
-- backend/internal/httpapi/server.go: the requests that search and list. What a request's time zone,
-- dates and query phrase mean is in a record `Words`.
pub mod Answered
use findo.Prelude.{
  ℕ, zero, suc, ◌-◌, Bool, true, false, not, ◌&&◌, ◌||◌, Option, none, some, List, [], ◌∷◌, ◌++◌,
  codes, ltb, leb, ◌==◌, if◌then◌else◌, Text, text_eq, length,
}
use findo.Prelude.Int.{ℤ, pos, negsuc}
use findo.Strings.Numbers.{atoi}
use findo.Smb.{valid_path}
use findo.Index.{File, RunRow, Db, Result, ok, err}
use findo.Index.Queries.{
  TimeRange, is_zero, is_unbounded, clamp_limit, search, list_files, Stats, stats, crawl_runs,
  ExtStat, extension_breakdown, largest_files,
}
use findo.Index.ContentSearch.{ContentMatch, search_content}

-- The query parameters; a missing one is empty.
pub record SearchRequest : Type 0 where
  pub q : Text
  pub tz : Text
  pub modified_after : Text
  pub modified_before : Text
  pub volume : Text
  pub limit : Text
  pub hidden : Text

-- datequery.Parse's answer: the query without the phrase, and its range.
pub record Parsed : Type 0 where
  pub name_query : Text
  pub range : TimeRange

-- The zone's database, the dates in it (none for what is no date), and the query's phrase.
pub record Words : Type 0 where
  pub known_zone : Text → Bool
  pub parse_date : Text → Option ℤ
  pub parse : Text → Parsed

pub data Match : Type 0 where
  by_name : Match
  by_content : Text → ℕ → Match

pub record SearchEntry : Type 0 where
  pub file : File
  pub match : Match

pub record Answer : Type 0 where
  pub name_query : Text
  pub entries : List SearchEntry
  pub content_matches : ℕ
  pub modified : TimeRange

-- The status of a refusal, or what is answered with 200.
pub data Response {ℓ} (A : Type ℓ) : Type ℓ where
  refused : ℕ → Response A
  answered : A → Response A

abbrev pub is_nil {ℓ} : {A : Type ℓ} → List A → Bool
is_nil [] = true
is_nil (x ∷ xs) = false

abbrev pub or_number : Text → Option ℤ → Option ℤ
or_number raw (some t) = some t
or_number raw none = atoi raw

-- parseTimeParam
unfoldable pub parse_time_param : (Text → Option ℤ) → Text → Option ℤ
unfolding atoi
parse_time_param parse_date raw = or_number raw (parse_date raw)

-- A parameter that is given replaces the value; none for a malformed one.
abbrev pub override : (Text → Option ℤ) → Text → ℤ → Option ℤ
override read raw t = if is_nil raw then some t else read raw

abbrev pub range_of : Option ℤ → Option ℤ → Option TimeRange
range_of none to = none
range_of (some f) none = none
range_of (some f) (some t) = some (record { from = f; to = t })

-- The number that Atoi returns beside an error is not used but for a limit, where 0 and the largest
-- number both become the default.
abbrev pub or_zero : Option ℤ → ℤ
or_zero none = pos 0
or_zero (some n) = n

-- hidden=1 or hidden=true
unfoldable pub wants_hidden : Text → Bool
unfolding text_eq
wants_hidden h = text_eq h (codes "1") || text_eq h (codes "true")

abbrev pub name_entries : List File → List SearchEntry
name_entries [] = []
name_entries (f ∷ fs) = record { file = f; match = by_name } ∷ name_entries fs

abbrev pub content_entries : List ContentMatch → List SearchEntry
content_entries [] = []
content_entries (h ∷ hs) =
    record { file = h.file; match = by_content h.snippet h.chunk } ∷ content_entries hs

-- Whether the database refuses the search by name, and the one in the text.
pub record SearchFaults : Type 0 where
  pub names_fault : Bool
  pub contents_fault : Bool

module _ (is_word : Text → Bool) (to_lower lower : Text → Text) (rank : Text → Text → Option ℕ)
    (headline : Text → Text → Text) where
  abbrev pub with_contents :
      Text → TimeRange → List File → Result (List ContentMatch) → Response Answer
  with_contents nq range files (err e) = refused 500
  with_contents nq range files (ok hits) = answered (record {
    name_query = nq;
    entries = name_entries files ++ content_entries hits;
    content_matches = length hits;
    modified = range;
  })

  -- Name matches come first; what room is left goes to matches in the text.
  abbrev pub with_names :
      ℤ → Text → ℕ → Bool → TimeRange → SearchFaults → Db → Result (List File) → Response Answer
  with_names v nq limit hidden range faults db (err e) = refused 500
  with_names v nq limit hidden range faults db (ok files) = with_contents nq range files (
      if not (is_nil nq) && ltb (length files) limit
      then search_content is_word to_lower lower rank headline v nq (pos (limit - length files))
          hidden range faults.contents_fault db
      else ok [])

  abbrev pub in_volume_named :
      SearchRequest → Text → TimeRange → SearchFaults → Db → Option ℤ → Response Answer
  in_volume_named r nq range faults db none = refused 400
  in_volume_named r nq range faults db (some v) =
      let limit = clamp_limit 500 100 (or_zero (atoi r.limit)) in
      with_names v nq limit (wants_hidden r.hidden) range faults db
        (search lower v nq (pos limit) (wants_hidden r.hidden) range faults.names_fault db)

  abbrev pub in_time : SearchRequest → Text → SearchFaults → Db → Option TimeRange → Response Answer
  in_time r nq faults db none = refused 400
  in_time r nq faults db (some range) =
      if is_nil r.q && is_unbounded range
      then refused 400
      else in_volume_named r nq range faults db (override atoi r.volume (pos 0))

  unfoldable pub handle_search : Words → SearchRequest → SearchFaults → Db → Response Answer
  unfolding search search_content parse_time_param atoi wants_hidden
  handle_search w r faults db =
      let p = w.parse r.q in
      if not (is_nil r.tz) && not (w.known_zone r.tz)
      then refused 400
      else in_time r p.name_query faults db (
          range_of (override (parse_time_param w.parse_date) r.modified_after p.range.from)
            (override (parse_time_param w.parse_date) r.modified_before p.range.to))

abbrev pub of_result {ℓ} : {A : Type ℓ} → Result A → Response A
of_result (ok a) = answered a
of_result (err e) = refused 500

-- parseVolumeIDParam: missing or malformed ones are refused
unfoldable pub parse_volume_id_param : Text → Option ℤ
unfolding atoi
parse_volume_id_param [] = none
parse_volume_id_param (c ∷ s) = atoi (c ∷ s)

abbrev list_in : Text → Text → Bool → Db → Option ℤ → Response (List File)
list_in path hidden is_fault db none = refused 400
list_in path hidden is_fault db (some v) =
    if valid_path path
    then of_result (list_files v path (wants_hidden hidden) is_fault db)
    else refused 400

-- GET /files: the parameters volume, path and hidden
unfoldable pub handle_list : Text → Text → Text → Bool → Db → Response (List File)
unfolding parse_volume_id_param valid_path list_files wants_hidden
handle_list volume path hidden is_fault db =
    list_in path hidden is_fault db (parse_volume_id_param volume)

unfoldable pub handle_stats : Bool → Bool → Db → Response Stats
unfolding stats
handle_stats files_fault dirs_fault db = of_result (stats files_fault dirs_fault db)

abbrev runs_in : Text → Bool → Db → Option ℤ → Response (List RunRow)
runs_in limit is_fault db none = refused 400
runs_in limit is_fault db (some v) = of_result (crawl_runs v (or_zero (atoi limit)) is_fault db)

-- GET /volumes/{id}/crawl-runs
unfoldable pub handle_crawl_runs : Text → Text → Bool → Db → Response (List RunRow)
unfolding atoi crawl_runs
handle_crawl_runs id limit is_fault db = runs_in limit is_fault db (atoi id)

abbrev both : Result (List ExtStat) → Result (List File) → Response (List ExtStat × List File)
both (err e) fs = refused 500
both (ok es) (err e) = refused 500
both (ok es) (ok fs) = answered (es, fs)

abbrev insights_in : Text → Bool → Bool → Db → Option ℤ → Response (List ExtStat × List File)
insights_in limit exts_fault files_fault db none = refused 400
insights_in limit exts_fault files_fault db (some v) =
    let n = or_zero (atoi limit) in
    both (extension_breakdown v n exts_fault db) (largest_files v n files_fault db)

unfoldable pub handle_volume_insights :
    Text → Text → Bool → Bool → Db → Response (List ExtStat × List File)
unfolding atoi extension_breakdown largest_files
handle_volume_insights id limit exts_fault files_fault db =
    insights_in limit exts_fault files_fault db (atoi id)

pub record VolumeHealth : Type 0 where
  pub id : ℕ
  pub is_ok : Bool

-- A volume as handleHealth sees it: none for no session, else whether the ping was answered.
pub record Pinged : Type 0 where
  pub id : ℕ
  pub is_enabled : Bool
  pub ping : Option Bool

abbrev answers : Option Bool → Bool
answers none = false
answers (some b) = b

unfoldable pub health_of : List Pinged → Bool × List VolumeHealth
health_of [] = (true, [])
health_of (v ∷ vs) =
    let (fine, rest) = health_of vs in
    if v.is_enabled
    then (answers v.ping && fine, record { id = v.id; is_ok = answers v.ping } ∷ rest)
    else (fine, rest)

-- "ok" or "degraded", with the enabled volumes
unfoldable pub handle_health : Result (List Pinged) → Response (Text × List VolumeHealth)
unfolding health_of
handle_health (err e) = refused 500
handle_health (ok vs) =
    let (fine, volumes) = health_of vs in
    answered (if fine then codes "ok" else codes "degraded", volumes)
