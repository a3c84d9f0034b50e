-- ===== src/Index/Queries.antt =====
-- The queries of backend/internal/index/index.go. `lower` is the database's case folding; rows that
-- an order does not tell apart are in the order of the table.
pub mod Like
pub mod Found
use findo.Prelude.{
  ℕ, zero, suc, ◌+◌, Bool, true, false, not, ◌&&◌, ◌||◌, Option, none, some, List, [], ◌∷◌, ◌++◌,
  map, codes, any, find, filter, count, leb, ltb, ◌==◌, if◌then◌else◌, Text, text_eq, take, drop,
  length,
}
use findo.Prelude.Int.{ℤ, pos, negsuc, int_eq, int_le}
use findo.Strings.{trim}
use findo.Strings.Runes.{rune_width}
use findo.Index.{File, FileRow, RunRow, Db, fault, Result, ok, err}
use findo.Index.Content.{text_le, is_visible}
use findo.Index.Files.{is_slash, lookup}
use findo.Index.Paths.{normalize_dir}

abbrev pub is_special : ℕ → Bool
is_special c = (c == b'\\') || ((c == b'%') || (c == b'_'))

unfoldable pub like_escape : Text → Text
like_escape [] = []
like_escape (c ∷ s) = if is_special c then b'\\' ∷ c ∷ like_escape s else c ∷ like_escape s

-- A pattern of SQL's LIKE.
pub data LikePart : Type 0 where
  exactly : ℕ → LikePart
  any_character any_text : LikePart

unfoldable pub like_parts : Text → List LikePart
like_parts [] = []
like_parts (c ∷ []) =
    (if c == b'%' then any_text else if c == b'_' then any_character else exactly c) ∷ []
like_parts (c ∷ d ∷ s) =
    let rest = like_parts (d ∷ s) in
    let escaped = like_parts s in
    if c == b'\\'
    then exactly d ∷ escaped
    else (if c == b'%' then any_text else if c == b'_' then any_character else exactly c) ∷ rest

-- Some rest of a text, the whole and the empty one included.
unfoldable pub some_rest : (Text → Bool) → Text → Bool
some_rest p [] = p []
some_rest p (c ∷ s) = p (c ∷ s) || some_rest p s

abbrev is_empty : Text → Bool
is_empty [] = true
is_empty (c ∷ s) = false

abbrev first_is : ℕ → (Text → Bool) → Text → Bool
first_is c p [] = false
first_is c p (d ∷ s) = (d == c) && p s

unfoldable pub matches : List LikePart → Text → Bool
unfolding some_rest rune_width
matches [] s = is_empty s
matches (exactly c ∷ ps) s = first_is c (matches ps) s
matches (any_character ∷ ps) s = not (is_empty s) && matches ps (drop (rune_width s) s)
matches (any_text ∷ ps) s = some_rest (matches ps) s

-- name LIKE pattern, name ILIKE pattern
unfoldable pub like : Text → Text → Bool
unfolding matches like_parts
like name pattern = matches (like_parts pattern) name

unfoldable pub ilike : (Text → Text) → Text → Text → Bool
unfolding like
ilike lower name pattern = like (lower name) (lower pattern)

-- Zero means unbounded on that side.
pub record TimeRange : Type 0 where
  pub from : ℤ
  pub to : ℤ

abbrev pub is_zero : ℤ → Bool
is_zero t = int_eq t (pos 0)

abbrev pub in_range : TimeRange → ℤ → Bool
in_range r t = (is_zero r.from || int_le r.from t) && (is_zero r.to || not (int_le r.to t))

abbrev pub in_volume : ℤ → ℕ → Bool
in_volume v w = is_zero v || int_eq v (pos w)

-- A limit that is not positive or is more than the maximum becomes the default.
abbrev pub clamp_limit : ℕ → ℕ → ℤ → ℕ
clamp_limit max default (pos n) = if (n == 0) || ltb max n then default else n
clamp_limit max default (negsuc n) = default

module _ {ℓ} {A : Type ℓ} (before : A → A → Bool) where
  unfoldable pub insert_sorted : A → List A → List A
  insert_sorted x [] = x ∷ []
  insert_sorted x (y ∷ ys) = if before y x then y ∷ insert_sorted x ys else x ∷ y ∷ ys

  -- ORDER BY: `before` says that a row comes before another one, strictly.
  unfoldable pub sort_by : List A → List A
  unfolding insert_sorted
  sort_by [] = []
  sort_by (x ∷ xs) = insert_sorted x (sort_by xs)

abbrev pub files_of : List FileRow → List File
files_of [] = []
files_of (r ∷ rs) = r.file ∷ files_of rs

abbrev pub text_before : Text → Text → Bool
text_before s t = not (text_le t s)

-- name COLLATE "C" ASC
abbrev pub name_before : FileRow → FileRow → Bool
name_before r q = text_before r.name q.name

-- mod_time DESC, name COLLATE "C" ASC
abbrev pub newer_before : FileRow → FileRow → Bool
newer_before r q =
    not (int_le r.mod_time q.mod_time) || (int_eq r.mod_time q.mod_time && name_before r q)

-- is_dir DESC, name COLLATE "C" ASC
abbrev pub dirs_before : FileRow → FileRow → Bool
dirs_before r q = (r.is_dir && not q.is_dir) || ((not q.is_dir || r.is_dir) && name_before r q)

abbrev pub listed : ℤ → Text → Bool → FileRow → Bool
listed v dir hidden r =
    int_eq v (pos r.volume) && (text_eq r.dir dir && (hidden || not (like r.name (codes ".%"))))

-- Index.List
unfoldable pub list_files : ℤ → Text → Bool → Bool → Db → Result (List File)
unfolding filter sort_by like normalize_dir
list_files v dir hidden is_fault db =
    if is_fault
    then err fault
    else ok (files_of (sort_by dirs_before (filter (listed v (normalize_dir dir) hidden) db.files)))

abbrev pub name_pattern : Text → Text
name_pattern q = b'%' ∷ like_escape q ++ b'%' ∷ []

-- The conditions of Search's WHERE.
abbrev pub searched : (Text → Text) → ℤ → Text → Bool → TimeRange → FileRow → Bool
searched lower v q hidden range r =
    in_volume v r.volume
    && (ilike lower r.name (name_pattern q)
        && (in_range range r.mod_time && (hidden || is_visible r.path)))

abbrev pub is_unbounded : TimeRange → Bool
is_unbounded r = is_zero r.from && is_zero r.to

unfoldable pub search :
    (Text → Text) → ℤ → Text → ℤ → Bool → TimeRange → Bool → Db → Result (List File)
unfolding filter sort_by ilike is_visible
search lower v q limit hidden range is_fault db =
    let rows = filter (searched lower v q hidden range) db.files in
    let order = if is_unbounded range then name_before else newer_before in
    if is_fault
    then err fault
    else ok (take (clamp_limit 500 100 limit) (files_of (sort_by order rows)))

-- Index.Stat; none if the path is not indexed
abbrev pub file_of_row : Option FileRow → Option File
file_of_row none = none
file_of_row (some r) = some r.file

unfoldable pub stat : ℕ → Text → Bool → Db → Result (Option File)
unfolding lookup trim
stat v p is_fault db =
    if is_fault then err fault else ok (file_of_row (lookup v (trim is_slash p) db.files))

pub record Stats : Type 0 where
  pub file_count : ℕ
  pub dir_count : ℕ

abbrev stats_of : Bool → Bool → (FileRow → Bool) → Db → Result Stats
stats_of files_fault dirs_fault p db =
    if files_fault || dirs_fault
    then err fault
    else ok (record {
      file_count = count (λ r. p r && not r.is_dir) db.files;
      dir_count = count (λ r. p r && r.is_dir) db.files;
    })

unfoldable pub stats : Bool → Bool → Db → Result Stats
unfolding count
stats files_fault dirs_fault db = stats_of files_fault dirs_fault (λ r. true) db

unfoldable pub volume_stats : ℕ → Bool → Bool → Db → Result Stats
unfolding count
volume_stats v files_fault dirs_fault db = stats_of files_fault dirs_fault (λ r. r.volume == v) db

abbrev pub is_file_of : ℤ → FileRow → Bool
is_file_of v r = int_eq v (pos r.volume) && not r.is_dir

-- size DESC, path COLLATE "C"
abbrev pub larger_before : FileRow → FileRow → Bool
larger_before r q = ltb q.size r.size || ((q.size == r.size) && text_before r.path q.path)

unfoldable pub largest_files : ℤ → ℤ → Bool → Db → Result (List File)
unfolding filter sort_by
largest_files v limit is_fault db =
    if is_fault
    then err fault
    else ok (
        take (clamp_limit 100 8 limit)
          (files_of (sort_by larger_before (filter (is_file_of v) db.files))))

pub record ExtStat : Type 0 where
  pub ext : Text
  pub count : ℕ
  pub total_size : ℕ

-- GROUP BY ext
unfoldable pub add_to_group : FileRow → List ExtStat → List ExtStat
unfolding text_eq
add_to_group r [] = record { ext = r.ext; count = 1; total_size = r.size } ∷ []
add_to_group r (g ∷ gs) =
    if text_eq g.ext r.ext
    then record g { count = suc g.count; total_size = g.total_size + r.size } ∷ gs
    else g ∷ add_to_group r gs

unfoldable pub groups : List FileRow → List ExtStat
unfolding add_to_group
groups [] = []
groups (r ∷ rs) = add_to_group r (groups rs)

-- SUM(size) DESC, ext, which is compared by bytes here
abbrev pub group_before : ExtStat → ExtStat → Bool
group_before g h =
    ltb h.total_size g.total_size || ((h.total_size == g.total_size) && text_before g.ext h.ext)

abbrev pub named_groups : List ExtStat → List ExtStat
named_groups [] = []
named_groups (g ∷ gs) =
    (if is_empty g.ext then record g { ext = codes "(none)" } else g) ∷ named_groups gs

unfoldable pub extension_breakdown : ℤ → ℤ → Bool → Db → Result (List ExtStat)
unfolding filter sort_by groups
extension_breakdown v limit is_fault db =
    if is_fault
    then err fault
    else ok (
        named_groups (
          take (clamp_limit 100 8 limit)
            (sort_by group_before (groups (filter (is_file_of v) db.files)))))

-- id DESC
abbrev pub later_before : RunRow → RunRow → Bool
later_before r q = ltb q.id r.id

unfoldable pub crawl_runs : ℤ → ℤ → Bool → Db → Result (List RunRow)
unfolding filter sort_by
crawl_runs v limit is_fault db =
    if is_fault
    then err fault
    else ok (
        take (clamp_limit 200 50 limit)
          (sort_by later_before (filter (λ r. int_eq v (pos r.volume)) db.runs)))

abbrev first_run : List RunRow → Option RunRow
first_run [] = none
first_run (r ∷ rs) = some r

unfoldable pub latest_crawl_run : ℤ → Bool → Db → Result (Option RunRow)
unfolding filter sort_by
latest_crawl_run v is_fault db =
    if is_fault
    then err fault
    else ok (first_run (sort_by later_before (filter (λ r. int_eq v (pos r.volume)) db.runs)))
