-- ===== src/Index/Settings/Saved.antt =====
-- backend/internal/index/settings.go: the settings in the key/value table, and the requests of
-- backend/internal/httpapi/settings.go that read and write them. A key has one row, and the table no
-- order.
pub mod RoundTrip
use findo.Prelude.{
  ℕ, Bool, true, false, not, ◌&&◌, ◌||◌, Option, none, some, List, [], ◌∷◌, ◌++◌, codes, String,
  any, filter, Text, text_eq, drop, length, if◌then◌else◌,
}
use findo.Prelude.Int.{ℤ, pos, negsuc}
use findo.Strings.{has_prefix}
use findo.Strings.Numbers.{atoi}
use findo.Strings.Decimal.{format_int}
use findo.Index.{Error, fault, invalid_settings}
use findo.Index.Settings.{ContentSettings, default_content_settings, validate}

-- a row of `settings`
pub record Setting : Type 0 where
  pub key : Text
  pub value : Text

-- What loading returns: a value that does not parse is an error; a negative number, which no save
-- writes, is told apart only.
pub data Loaded : Type 0 where
  loaded : ContentSettings → Loaded
  bad_value negative_value not_loaded : Loaded

abbrev pub content_key : String → Text
content_key name = codes "content." ++ codes name

-- strconv.FormatBool
abbrev pub format_bool : Bool → Text
format_bool true = codes "true"
format_bool false = codes "false"

abbrev pub is_one_of : List Text → Text → Bool
is_one_of names s = any (text_eq s) names

-- strconv.ParseBool
unfoldable pub parse_bool : Text → Option Bool
unfolding any text_eq
parse_bool s =
    if is_one_of
      (codes "1" ∷ codes "t" ∷ codes "T" ∷ codes "true" ∷ codes "TRUE" ∷ codes "True" ∷ []) s
    then some true
    else if is_one_of
        (codes "0" ∷ codes "f" ∷ codes "F" ∷ codes "false" ∷ codes "FALSE" ∷ codes "False" ∷ []) s
    then some false
    else none

abbrev pub with_bool : Option Bool → (Bool → ContentSettings) → Loaded
with_bool none set = bad_value
with_bool (some b) set = loaded (set b)

abbrev pub with_number : Option ℤ → (ℕ → ContentSettings) → Loaded
with_number none set = bad_value
with_number (some (pos n)) set = loaded (set n)
with_number (some (negsuc n)) set = negative_value

-- The switch on the key without its prefix.
unfoldable pub load_key : Text → Text → ContentSettings → Loaded
unfolding text_eq parse_bool atoi
load_key key value cs =
    if text_eq key (content_key "paused")
    then with_bool (parse_bool value) (λ b. record cs { paused = b })
    else if text_eq key (content_key "max_file_bytes")
    then with_number (atoi value) (λ n. record cs { max_file_bytes = n })
    else if text_eq key (content_key "max_text_bytes")
    then with_number (atoi value) (λ n. record cs { max_text_bytes = n })
    else if text_eq key (content_key "workers")
    then with_number (atoi value) (λ n. record cs { workers = n })
    else if text_eq key (content_key "delay_ms")
    then with_number (atoi value) (λ n. record cs { delay_ms = n })
    else loaded cs

abbrev pub then_load : (ContentSettings → Loaded) → Loaded → Loaded
then_load next (loaded cs) = next cs
then_load next bad_value = bad_value
then_load next negative_value = negative_value
then_load next not_loaded = not_loaded

-- The rows that the query selects, in turn: key LIKE 'content.%'
unfoldable pub load_rows : List Setting → ContentSettings → Loaded
unfolding load_key has_prefix
load_rows [] cs = loaded cs
load_rows (r ∷ rs) cs =
    let skipped = load_rows rs cs in
    if has_prefix r.key (codes "content.")
    then then_load (load_rows rs) (load_key r.key r.value cs)
    else skipped

-- index.Index.ContentSettings
unfoldable pub content_settings : Bool → List Setting → Loaded
unfolding load_rows
content_settings is_fault rows =
    if is_fault then not_loaded else load_rows rows default_content_settings

abbrev pub number_row : String → ℕ → Setting
number_row name n = record { key = content_key name; value = format_int n }

abbrev pub setting_rows : ContentSettings → List Setting
setting_rows cs =
    record { key = content_key "paused"; value = format_bool cs.paused }
    ∷ number_row "max_file_bytes" cs.max_file_bytes
    ∷ number_row "max_text_bytes" cs.max_text_bytes
    ∷ number_row "workers" cs.workers
    ∷ number_row "delay_ms" cs.delay_ms
    ∷ []

abbrev pub setting_keys : List Text
setting_keys =
    content_key "paused"
    ∷ content_key "max_file_bytes"
    ∷ content_key "max_text_bytes"
    ∷ content_key "workers"
    ∷ content_key "delay_ms"
    ∷ []

abbrev pub save_rows :
    Bool → ContentSettings → List Setting → Option Error → Option Error × List Setting
save_rows is_fault cs rows (some e) = (some e, rows)
save_rows is_fault cs rows none = if is_fault then (some fault, rows) else (
  none,
  filter (λ (r : Setting). not (is_one_of setting_keys r.key)) rows ++ setting_rows cs,
)

-- index.Index.SetContentSettings: the rows of its keys are replaced in one transaction, which
-- `is_fault` says the database refuses.
unfoldable pub set_content_settings :
    Bool → ContentSettings → List Setting → Option Error × List Setting
unfolding validate filter any text_eq format_int
set_content_settings is_fault cs rows = save_rows is_fault cs rows (validate cs)

-- Whether the database refuses the read and the write.
pub record SettingsFaults : Type 0 where
  pub load_fault : Bool
  pub save_fault : Bool

-- decodeJSON of the body over what was loaded: a refusal, or the settings. A negative number in them
-- is told apart, since Validate refuses it.
pub data Body : Type 0 where
  too_large malformed below_zero : Body
  merged : ContentSettings → Body

pub data Put : Type 0 where
  put_refused : ℕ → Put
  put_saved : ContentSettings → Put

abbrev pub refusal : Error → ℕ
refusal invalid_settings = 400
refusal _ = 500

abbrev pub saved : ContentSettings → Option Error × List Setting → Put × List Setting
saved cs (none, rows) = (put_saved cs, rows)
saved cs (some e, rows) = (put_refused (refusal e), rows)

abbrev pub put_body : SettingsFaults → List Setting → Body → Put × List Setting
put_body faults rows too_large = (put_refused 413, rows)
put_body faults rows malformed = (put_refused 400, rows)
put_body faults rows below_zero = (put_refused 400, rows)
put_body faults rows (merged cs) = saved cs (set_content_settings faults.save_fault cs rows)

abbrev pub put_over : (Loaded → Body) → SettingsFaults → List Setting → Loaded → Put × List Setting
put_over decode faults rows (loaded cur) = put_body faults rows (decode (loaded cur))
put_over decode faults rows bad_value = (put_refused 500, rows)
put_over decode faults rows negative_value = put_body faults rows (decode negative_value)
put_over decode faults rows not_loaded = (put_refused 500, rows)

unfoldable pub handle_put_settings :
    (Loaded → Body) → SettingsFaults → List Setting → Put × List Setting
unfolding content_settings set_content_settings
handle_put_settings decode faults rows =
    put_over decode faults rows (content_settings faults.load_fault rows)
