-- ===== src/Extract/Dispatch/Agrees.antt =====
-- Extract handles what Supported lists.
use findo.Prelude.{
  ◌≡◌, refl, ◌∙◌, Bool, true, false, not, ◌&&◌, ◌||◌, Option, none, some, List, [], ◌∷◌, Text,
  text_eq, text_eq→eq, arith, inl, inr, Bool-cases,
}
use findo.Strings.{fields}
use findo.Index.Queries.{insert_sorted, sort_by}
use findo.Filetype.{
  Extractor, no_extractor, ext_text, ext_docx, ext_xlsx, ext_pptx, ext_numbers, ext_pages,
  ext_keynote, ext_pdf, Info, Types, by_ext, has_ext,
}
use findo.Filetype.Lookup.{init, or_empty, one_of, same_extractor, exts_in, exts_with_extractor}
use findo.Extract.Dispatch.{extractor_names, supported, Extractors, run, run_info, extract}

unfoldable pub lists : List Text → Text → Bool
unfolding text_eq
lists [] ext = false
lists (e ∷ es) ext = text_eq e ext || lists es ext

abbrev pub is_handled {ℓ} : {A : Type ℓ} → Option A → Bool
is_handled none = false
is_handled (some a) = true

-- No extension stands twice in the table.
distinct : Types → Bool
unfolding has_ext
distinct [] = true
distinct ((e, info) ∷ ts) = not (has_ext e ts) && distinct ts

distinct-init : distinct (or_empty init) ≡ true
unfolding distinct init has_ext text_eq fields
distinct-init = refl

module _ (before : Text → Text → Bool) (ext : Text) where
  insert_sorted-lists :
      (e : Text) (es : List Text)
      → lists (insert_sorted before e es) ext ≡ (text_eq e ext || lists es ext)
  unfolding insert_sorted lists
  insert_sorted-lists e [] = refl
  insert_sorted-lists e (x ∷ es) = ground (arith, insert_sorted-lists e es)

  sort_by-lists : (es : List Text) → lists (sort_by before es) ext ≡ lists es ext
  unfolding sort_by lists
  sort_by-lists [] = refl
  sort_by-lists (e ∷ es) = rw (insert_sorted-lists e (sort_by before es), sort_by-lists es) refl

-- The extractor that the table has for the extension is one of the names.
abbrev info_named : List Extractor → Option Info → Bool
info_named names none = false
info_named names (some info) = one_of names info.extractor

exts_in-none :
    (names : List Extractor) (ext : Text) (ts : Types)
    → has_ext ext ts ≡ false
    → lists (exts_in names ts) ext ≡ false
unfolding exts_in has_ext lists
exts_in-none names ext [] h = refl
exts_in-none names ext ((e, info) ∷ ts) h =
    let rest : has_ext ext ts ≡ false = ground arith in
    ground (arith, exts_in-none names ext ts rest)

exts_in-lists :
    (names : List Extractor) (ext : Text) (ts : Types)
    → distinct ts ≡ true
    → lists (exts_in names ts) ext ≡ info_named names (by_ext ext ts)
unfolding exts_in distinct by_ext lists
exts_in-lists names ext [] h = refl
exts_in-lists names ext ((e, info) ∷ ts) h =
    let fresh : has_ext e ts ≡ false = ground arith in
    let others : distinct ts ≡ true = ground arith in
    elim (Bool-cases (text_eq e ext)) [
      | inl here ↦
          let same : has_ext ext ts ≡ false = rw (text_eq→eq e ext here) at fresh in
          ground (arith, exts_in-none names ext ts same)
      | inr other ↦ ground (arith, exts_in-lists names ext ts others)
    ]

module _ {ℓ} {A : Type ℓ} (fns : Extractors A) where
  run-one_of : (x : Extractor) → one_of extractor_names x ≡ is_handled (run fns x)
  unfolding one_of same_extractor
  run-one_of no_extractor = refl
  run-one_of ext_text = refl
  run-one_of ext_docx = refl
  run-one_of ext_xlsx = refl
  run-one_of ext_pptx = refl
  run-one_of ext_numbers = refl
  run-one_of ext_pages = refl
  run-one_of ext_keynote = refl
  run-one_of ext_pdf = refl

  run-named : (o : Option Info) → info_named extractor_names o ≡ is_handled (run_info fns o)
  run-named none = refl
  run-named (some info) = run-one_of info.extractor

-- Extract handles a file exactly when Supported lists its extension: for every other one it returns
-- ErrUnsupported.
pub extract-supported {ℓ} :
    {A : Type ℓ} (fns : Extractors A) (ext : Text)
    → lists supported ext ≡ is_handled (extract fns ext)
unfolding supported exts_with_extractor extract
extract-supported fns ext =
    sort_by-lists _ ext (exts_in extractor_names (or_empty init))
    ∙ (exts_in-lists extractor_names ext (or_empty init) distinct-init
        ∙ run-named fns (by_ext ext (or_empty init)))
