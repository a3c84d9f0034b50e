-- ===== src/Extract/Dispatch.antt =====
-- backend/internal/extract/extract.go: Extract and Supported.
pub mod Agrees
use findo.Prelude.{Option, none, some, List, [], ◌∷◌, Text}
use findo.Filetype.{
  Extractor, no_extractor, ext_text, ext_docx, ext_xlsx, ext_pptx, ext_numbers, ext_pages,
  ext_keynote, ext_pdf, Info, by_ext,
}
use findo.Filetype.Lookup.{init, or_empty, exts_with_extractor}

-- The names of the map `extractors`.
abbrev pub extractor_names : List Extractor
extractor_names =
    ext_text ∷ ext_docx ∷ ext_xlsx ∷ ext_pptx ∷ ext_numbers ∷ ext_pages ∷ ext_keynote ∷ ext_pdf ∷ []

unfoldable pub supported : List Text
unfolding exts_with_extractor
supported = exts_with_extractor extractor_names

-- What the functions of the map return for the file.
pub record Extractors {ℓ} (A : Type ℓ) : Type ℓ where
  pub of_text : A
  pub of_docx : A
  pub of_xlsx : A
  pub of_pptx : A
  pub of_numbers : A
  pub of_pages : A
  pub of_keynote : A
  pub of_pdf : A

-- none for ErrUnsupported
abbrev pub run {ℓ} : {A : Type ℓ} → Extractors A → Extractor → Option A
run fns no_extractor = none
run fns ext_text = some fns.of_text
run fns ext_docx = some fns.of_docx
run fns ext_xlsx = some fns.of_xlsx
run fns ext_pptx = some fns.of_pptx
run fns ext_numbers = some fns.of_numbers
run fns ext_pages = some fns.of_pages
run fns ext_keynote = some fns.of_keynote
run fns ext_pdf = some fns.of_pdf

abbrev pub run_info {ℓ} : {A : Type ℓ} → Extractors A → Option Info → Option A
run_info fns none = none
run_info fns (some info) = run fns info.extractor

unfoldable pub extract {ℓ} : {A : Type ℓ} → Extractors A → Text → Option A
unfolding by_ext init
extract fns ext = run_info fns (by_ext ext (or_empty init))
