-- ===== src/FileText.antt =====
-- backend/internal/httpapi/filetext.go: the extracted text of a file.
pub mod Answered
use findo.Prelude.{
  ℕ, Bool, true, false, Option, none, some, List, [], ◌∷◌, ◌++◌, codes, Text, text_eq,
  if◌then◌else◌,
}
use findo.Prelude.Int.{ℤ, pos, negsuc}
use findo.Strings.{trim, join}
use findo.Smb.{valid_path}
use findo.Index.{Db, Status, done, failed, skipped}
use findo.Index.Content.{ContentInfo, content_for, too_large}
use findo.Index.Files.{is_slash}
use findo.Search.{parse_volume_id_param}

-- noTextReason: why there is no text to show.
pub data NoText : Type 0 where
  not_extracted empty_text larger_than_limit not_text contains_no_text password_protected : NoText
  extraction_failed was_skipped : Text → NoText

pub data TextResponse : Type 0 where
  refused : ℕ → TextResponse
  no_text : NoText → TextResponse
  as_json : List Text → TextResponse
  as_plain : Text → TextResponse

unfoldable pub skip_reason : Text → NoText
unfolding text_eq
skip_reason r =
    if text_eq r too_large
    then larger_than_limit
    else if text_eq r (codes "unsupported")
    then not_text
    else if text_eq r (codes "no_text")
    then contains_no_text
    else if text_eq r (codes "encrypted")
    then password_protected
    else was_skipped r

abbrev if_empty : List Text → Option NoText
if_empty [] = some empty_text
if_empty (c ∷ cs) = none

abbrev by_status : Status → Text → List Text → Option NoText
by_status done reason chunks = if_empty chunks
by_status failed reason chunks = some (extraction_failed reason)
by_status skipped reason chunks = some (skip_reason reason)

-- none where there is text
abbrev pub no_text_reason : ContentInfo → Option NoText
no_text_reason info = by_status info.status info.reason info.chunks

-- Each chunk as it was stored, or all of them separated by blank lines.
abbrev pub served : Text → List Text → TextResponse
served format chunks =
    if text_eq format (codes "json")
    then as_json chunks
    else as_plain (join (10 ∷ 10 ∷ []) chunks ++ 10 ∷ [])

abbrev pub unless_missing : Text → List Text → Option NoText → TextResponse
unless_missing format chunks (some why) = no_text why
unless_missing format chunks none = served format chunks

abbrev pub text_of_info : Text → Option ContentInfo → TextResponse
text_of_info format none = no_text not_extracted
text_of_info format (some info) = unless_missing format info.chunks (no_text_reason info)

-- No row has a negative volume.
abbrev pub content_of : ℤ → Text → Db → Option ContentInfo
content_of (pos v) p db = content_for v p db
content_of (negsuc v) p db = none

abbrev is_nil : Text → Bool
is_nil [] = true
is_nil (c ∷ s) = false

abbrev pub text_at : Text → Text → Bool → Db → Option ℤ → TextResponse
text_at p format is_fault db none = refused 400
text_at p format is_fault db (some v) =
    if is_nil p
    then refused 400
    else if valid_path p
    then if is_fault then refused 500 else text_of_info format (content_of v p db)
    else refused 400

-- GET /files/text: the parameters volume, path and format
unfoldable pub handle_file_text : Text → Text → Text → Bool → Db → TextResponse
unfolding parse_volume_id_param trim valid_path content_for skip_reason join text_eq
handle_file_text volume path format is_fault db =
    text_at (trim is_slash path) format is_fault db (parse_volume_id_param volume)
