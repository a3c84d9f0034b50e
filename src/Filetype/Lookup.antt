-- ===== src/Filetype/Lookup.antt =====
-- backend/internal/filetype/filetype.go: looking up the table.
use findo.Prelude.{
  Bool, true, false, ◌||◌, Option, none, some, List, [], ◌∷◌, codes, Text, if◌then◌else◌,
}
use findo.Strings.{trim_prefix}
use findo.Index.Paths.{path_ext}
use findo.Index.Content.{text_le}
use findo.Index.Queries.{sort_by, text_before}
use findo.Filetype.{
  Extractor, no_extractor, ext_text, ext_docx, ext_xlsx, ext_pptx, ext_numbers, ext_pages,
  ext_keynote, ext_pdf, Info, Types, by_ext, run_calls, octet, kind_file,
}
use findo.Filetype.Table.{init_calls}

-- The table after init; none where init panics.
unfoldable pub init : Option Types
unfolding run_calls
init = run_calls init_calls []

abbrev pub or_empty : Option Types → Types
or_empty none = []
or_empty (some ts) = ts

abbrev pub or_octet : Option Info → Info
or_octet (some info) = info
or_octet none = record { mime = octet; kind = kind_file; inline = false; extractor = no_extractor }

unfoldable pub lookup : (Text → Text) → Text → Info
unfolding init by_ext path_ext trim_prefix
lookup to_lower name =
    or_octet (by_ext (to_lower (trim_prefix (path_ext name) (codes "."))) (or_empty init))

unfoldable pub same_extractor : Extractor → Extractor → Bool
same_extractor no_extractor no_extractor = true
same_extractor ext_text ext_text = true
same_extractor ext_docx ext_docx = true
same_extractor ext_xlsx ext_xlsx = true
same_extractor ext_pptx ext_pptx = true
same_extractor ext_numbers ext_numbers = true
same_extractor ext_pages ext_pages = true
same_extractor ext_keynote ext_keynote = true
same_extractor ext_pdf ext_pdf = true
same_extractor _ _ = false

unfoldable pub one_of : List Extractor → Extractor → Bool
unfolding same_extractor
one_of [] x = false
one_of (n ∷ ns) x = same_extractor x n || one_of ns x

unfoldable pub exts_in : List Extractor → Types → List Text
unfolding one_of
exts_in names [] = []
exts_in names ((e, info) ∷ ts) =
    if one_of names info.extractor then e ∷ exts_in names ts else exts_in names ts

-- ExtsWithExtractor
unfoldable pub exts_with_extractor : List Extractor → List Text
unfolding exts_in sort_by init text_le
exts_with_extractor names = sort_by text_before (exts_in names (or_empty init))
