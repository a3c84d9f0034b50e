-- ===== src/Contents.antt =====
-- backend/internal/httpapi/content.go, and handleContent of backend/internal/httpapi/server.go. How
-- the headers are written out, and serving the bytes, are the standard library's.
pub mod Safe
use findo.Prelude.{
  ℕ, Bool, true, false, not, ◌&&◌, Option, none, some, List, [], ◌∷◌, codes, Text, text_eq,
  if◌then◌else◌,
}
use findo.Prelude.Int.{ℤ}
use findo.Smb.{valid_path}
use findo.Filetype.Lookup.{lookup}
use findo.Search.{Response, refused, answered, parse_volume_id_param}

pub data Disposition : Type 0 where
  attachment inline : Disposition

pub record Headers : Type 0 where
  pub content_type : Text
  pub disposition : Disposition
  pub filename : Text
  pub content_type_options : Text
  pub content_security_policy : Text

unfoldable pub set_content_headers : (Text → Text) → Text → Bool → Headers
unfolding lookup
set_content_headers to_lower name force_download =
    let info = lookup to_lower name in
    record {
      content_type = info.mime;
      disposition = if info.inline && not force_download then inline else attachment;
      filename = name;
      content_type_options = codes "nosniff";
      content_security_policy = codes "sandbox";
    }

-- The sessions: whether a volume is connected, and the name of the file that Open returns.
pub record Shares : Type 0 where
  pub is_connected : ℤ → Bool
  pub open_file : ℤ → Text → Option Text

abbrev is_nil : Text → Bool
is_nil [] = true
is_nil (c ∷ s) = false

abbrev pub opened : (Text → Text) → Text → Option Text → Response Headers
opened to_lower download none = refused 404
opened to_lower download (some name) =
    answered (set_content_headers to_lower name (text_eq download (codes "1")))

abbrev pub content_in : (Text → Text) → Text → Text → Shares → Option ℤ → Response Headers
content_in to_lower path download w none = refused 400
content_in to_lower path download w (some v) =
    if is_nil path
    then refused 400
    else if valid_path path
    then if w.is_connected v then opened to_lower download (w.open_file v path) else refused 404
    else refused 400

-- GET /files/content: the parameters volume, path and download
unfoldable pub handle_content : (Text → Text) → Text → Text → Text → Shares → Response Headers
unfolding parse_volume_id_param valid_path set_content_headers text_eq
handle_content to_lower volume path download w =
    content_in to_lower path download w (parse_volume_id_param volume)
