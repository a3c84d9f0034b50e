-- ===== src/Tests/Pdf.antt =====
-- The PDF engine, plain text and packages at concrete inputs.
use findo.Prelude.{
  ℕ, ◌≤◌, ◌≡◌, refl, true, false, none, some, [], ◌∷◌, ◌++◌, Text, codes, length, ◌⊎◌,
}
use findo.Extract.Sink.{strip_controls}
use findo.Extract.Pdf.{Engine, acquires, unloaded, steps, acquire_pdf}
use findo.Extract.Pdf.Safe.{IsSafe, Reachable-IsSafe}
use findo.Extract.Pdf.Pages.{
  other_error, answer, refused, pdf_text, Page, read_pages, with_page, page_lines,
}
use findo.Extract.Plain.{decode_utf8, text_of, extract_text}
use findo.Extract.Package.{ZipEntry, open_part, read_results, max_part_bytes}
use findo.Extract.Package.Limit.{gained, refuses, reads_within_limit}
use findo.Extract.Dispatch.{Extractors, extract, supported}
use findo.Extract.Dispatch.Agrees.{lists, is_handled, extract-supported}

abbrev idle : Engine
idle = record { pool = none; in_use = 0; timer = false; made = 0; pending = 0; held = [] }

-- After the first instance.
abbrev busy : Engine
unfolding acquire_pdf
busy = (acquire_pdf true true true idle).0

Reachable-IsSafe_example : IsSafe busy
unfolding busy
Reachable-IsSafe_example = Reachable-IsSafe busy (steps unloaded (acquires true true true idle))

abbrev page : Text → Page
page t = record { before = none; page_text = answer t; then_ctx = none }

abbrev bad_page : Page
bad_page = record { before = none; page_text = refused other_error; then_ctx = none }

-- U+FB01 and a carriage return
abbrev page_of_text : Text
page_of_text = 239 ∷ 172 ∷ 129 ∷ 13 ∷ []

read_pages_keeps :
    read_pages (page page_of_text ∷ bad_page ∷ []) (record { bytes = []; max = 50 })
    ≡ pdf_text (codes "fi" ++ 10 ∷ 10 ∷ 10 ∷ [])
unfolding read_pages with_page page_lines strip_controls
read_pages_keeps = refl

-- One byte in thirty is no UTF-8.
decode_utf8_replaces :
    decode_utf8 (codes "twenty-nine bytes of plain te" ++ 255 ∷ [])
    ≡ some (codes "twenty-nine bytes of plain te" ++ 239 ∷ 191 ∷ 189 ∷ [])
unfolding decode_utf8
decode_utf8_replaces = refl

decode_utf8_refuses : decode_utf8 (255 ∷ 254 ∷ codes "PNG") ≡ none
unfolding decode_utf8
decode_utf8_refuses = refl

-- "aé" cut inside its second rune
extract_text_cuts : extract_text (λ n. some (97 ∷ 195 ∷ 169 ∷ [])) 3 2 ≡ text_of (97 ∷ [])
unfolding extract_text strip_controls
extract_text_cuts = refl

abbrev entry : ZipEntry
entry = record { bytes = codes "<w:p/>"; chunks = 2 ∷ 9 ∷ [] }

reads_within_limit_example :
    (rest : Text) × (gained (read_results (4 ∷ 4 ∷ []) (open_part entry)) ++ rest ≡ codes "<w:p/>")
    × (length (gained (read_results (4 ∷ 4 ∷ []) (open_part entry))) ≤ max_part_bytes)
    × ((refuses (read_results (4 ∷ 4 ∷ []) (open_part entry)) ≡ false)
        ⊎ (length (gained (read_results (4 ∷ 4 ∷ []) (open_part entry))) ≡ max_part_bytes))
reads_within_limit_example = reads_within_limit (4 ∷ 4 ∷ []) entry

abbrev results : Extractors ℕ
results = record {
  of_text = 0;
  of_docx = 1;
  of_xlsx = 2;
  of_pptx = 3;
  of_numbers = 4;
  of_pages = 5;
  of_keynote = 6;
  of_pdf = 7;
}

extract-supported_example :
    lists supported (codes "docx") ≡ is_handled (extract results (codes "docx"))
extract-supported_example = extract-supported results (codes "docx")
