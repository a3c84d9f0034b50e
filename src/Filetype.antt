-- ===== src/Filetype.antt =====
-- backend/internal/filetype/filetype.go: what a file is, by its extension. `to_lower` is Go's
-- strings.ToLower, whose tables of letters are Unicode's.
pub mod Table
pub mod Lookup
use findo.Prelude.{
  ℕ, Bool, true, false, not, ◌&&◌, ◌||◌, Option, none, some, List, [], ◌∷◌, ◌++◌, codes, String,
  any, ◌==◌, if◌then◌else◌, Text, text_eq,
}
use findo.Strings.{fields}

pub data Kind : Type 0 where
  kind_pdf kind_doc kind_xls kind_ppt kind_img kind_vid kind_aud kind_zip kind_txt kind_file : Kind

pub data Extractor : Type 0 where
  no_extractor ext_text ext_docx ext_xlsx ext_pptx ext_numbers ext_pages ext_keynote ext_pdf :
      Extractor

pub record Info : Type 0 where
  pub mime : Text
  pub kind : Kind
  pub inline : Bool
  pub extractor : Extractor

abbrev pub text_plain : Text
text_plain = codes "text/plain; charset=utf-8"

abbrev pub octet : Text
octet = codes "application/octet-stream"

abbrev pub Types : Type 0
Types = List (Text × Info)

unfoldable pub by_ext : Text → Types → Option Info
unfolding text_eq
by_ext ext [] = none
by_ext ext ((e, info) ∷ ts) = if text_eq e ext then some info else by_ext ext ts

unfoldable pub has_ext : Text → Types → Bool
unfolding text_eq
has_ext ext [] = false
has_ext ext ((e, info) ∷ ts) = text_eq e ext || has_ext ext ts

-- strings.Fields of an ASCII literal
abbrev pub words : String → List Text
words s = fields (λ c. c == 32) (codes s)

-- add: none where it panics
unfoldable pub add_exts : Text → Kind → Bool → List Text → Types → Option Types
unfolding has_ext
add_exts mime kind inline [] ts = some ts
add_exts mime kind inline (e ∷ es) ts =
    let info : Info = record {
      mime = mime;
      kind = kind;
      inline = inline;
      extractor = no_extractor;
    } in
    let rest = add_exts mime kind inline es ((e, info) ∷ ts) in if has_ext e ts then none else rest

-- types[ext] = info, for an extension that is there
unfoldable pub extract_with : Extractor → Text → Types → Types
unfolding text_eq
extract_with x ext [] = []
extract_with x ext ((e, info) ∷ ts) =
    if text_eq e ext
    then (e, record info { extractor = x }) ∷ ts
    else (e, info) ∷ extract_with x ext ts

-- setExtractor: none where it panics
unfoldable pub set_exts : Extractor → List Text → Types → Option Types
unfolding has_ext extract_with
set_exts x [] ts = some ts
set_exts x (e ∷ es) ts =
    let rest = set_exts x es (extract_with x e ts) in if has_ext e ts then rest else none

pub data Call : Type 0 where
  add : Text → Kind → Bool → List Text → Call
  set_extractor : Extractor → List Text → Call

unfoldable pub run_call : Call → Types → Option Types
unfolding add_exts set_exts
run_call (add mime kind inline exts) ts = add_exts mime kind inline exts ts
run_call (set_extractor x exts) ts = set_exts x exts ts

abbrev pub then_calls : (Types → Option Types) → Option Types → Option Types
then_calls next none = none
then_calls next (some ts) = next ts

unfoldable pub run_calls : List Call → Types → Option Types
unfolding run_call
run_calls [] ts = some ts
run_calls (c ∷ cs) ts = then_calls (run_calls cs) (run_call c ts)
