-- ===== src/Extract/Pdf/Pages.antt =====
-- backend/internal/extract/pdf.go: extractPDF. What the engine and the context answer are arguments.
pub mod Texts
use findo.Prelude.{
  ℕ, ◌-◌, Bool, true, false, ◌&&◌, ◌||◌, Option, none, some, List, [], ◌∷◌, ◌++◌, ltb, leb, ◌==◌,
  if◌then◌else◌, Text, codes, length,
}
use findo.Strings.{replace}
use findo.Extract.Sink.{Sink, full, write, text}
use findo.Extract.Pdf.{
  Engine, Acquired, instance_of, no_engine, no_instance, acquire_pdf, release_pdf,
}

abbrev pub tail : List ℕ → List ℕ
tail [] = []
tail (p ∷ ps) = ps

pub data CtxError : Type 0 where
  canceled deadline_exceeded : CtxError

pub data EngineError : Type 0 where
  password_error other_error : EngineError

pub data EngineAnswer {ℓ} (A : Type ℓ) : Type ℓ where
  answer : A → EngineAnswer A
  refused : EngineError → EngineAnswer A

pub data PdfResult : Type 0 where
  pdf_text : Text → PdfResult
  ended : CtxError → PdfResult
  encrypted not_readable engine_not_started engine_not_given : PdfResult

-- pdfError, with what ctx.Err returns then
unfoldable pub pdf_error : Option CtxError → EngineError → PdfResult
pdf_error (some c) e = ended c
pdf_error none password_error = encrypted
pdf_error none other_error = not_readable

-- A page: the context before it is asked for, the engine's answer, and the context then.
pub record Page : Type 0 where
  pub before : Option CtxError
  pub page_text : EngineAnswer Text
  pub then_ctx : Option CtxError

-- strings.ReplaceAll(text, "\r\n", "\n")
unfoldable pub join_crlf : Text → Text
join_crlf [] = []
join_crlf (c ∷ []) = c ∷ []
join_crlf (c ∷ d ∷ s) =
    let rest = join_crlf (d ∷ s) in
    let after = join_crlf s in if c == 13 && d == 10 then 10 ∷ after else c ∷ rest

unfoldable pub newlines : Text → Text
unfolding join_crlf replace
newlines t = replace 13 10 (join_crlf t)

-- The ligatures from U+FB00 on, by the last of their three bytes.
unfoldable pub ligature : ℕ → Option Text
ligature b =
    if b == 128
    then some (codes "ff")
    else if b == 129
    then some (codes "fi")
    else if b == 130
    then some (codes "fl")
    else if b == 131
    then some (codes "ffi")
    else if b == 132
    then some (codes "ffl")
    else if b == 133 || b == 134
    then some (codes "st")
    else none

abbrev pub expanded : Text → Text → Option Text → Text
expanded rest after none = rest
expanded rest after (some l) = l ++ after

-- pdfLigatures.Replace
unfoldable pub expand_ligatures : Text → Text
unfolding ligature
expand_ligatures [] = []
expand_ligatures (a ∷ []) = a ∷ []
expand_ligatures (a ∷ b ∷ []) = a ∷ b ∷ []
expand_ligatures (a ∷ b ∷ c ∷ s) =
    let rest = expand_ligatures (b ∷ c ∷ s) in
    let after = expand_ligatures s in
    if a == 239 && b == 172 then expanded (a ∷ rest) after (ligature c) else a ∷ rest

unfoldable pub page_lines : Text → Text
unfolding newlines expand_ligatures
page_lines t = expand_ligatures (newlines t)

-- The pages that did read are kept.
unfoldable pub with_page : (Sink → PdfResult) → Page → Sink → EngineAnswer Text → PdfResult
unfolding pdf_error write text
with_page next p out (answer t) = next (write (10 ∷ 10 ∷ []) (write (page_lines t) out))
with_page next p out (refused e) =
    if ltb 0 (length out.bytes) then pdf_text (text out) else pdf_error p.then_ctx e

abbrev pub unless_ended : Option CtxError → PdfResult → PdfResult
unless_ended none r = r
unless_ended (some c) r = ended c

-- The loop over the pages that GetPageCount counts.
unfoldable pub read_pages : List Page → Sink → PdfResult
unfolding full text with_page
read_pages [] out = pdf_text (text out)
read_pages (p ∷ ps) out =
    let rest = unless_ended p.before (with_page (read_pages ps) p out p.page_text) in
    if full out then pdf_text (text out) else rest

-- What OpenDocument and FPDF_GetPageCount return, each with the context then; the pages are those
-- that are counted.
pub record Document : Type 0 where
  pub opened : Option EngineError
  pub open_ctx : Option CtxError
  pub counted : EngineAnswer (List Page)
  pub count_ctx : Option CtxError

abbrev pub with_count : ℕ → Option CtxError → EngineAnswer (List Page) → PdfResult
unfolding read_pages pdf_error
with_count max c (refused e) = pdf_error c e
with_count max c (answer pages) = read_pages pages (record { bytes = []; max = max })

abbrev pub with_document : ℕ → Document → Option EngineError → PdfResult
unfolding with_count pdf_error
with_document max d (some e) = pdf_error d.open_ctx e
with_document max d none = with_count max d.count_ctx d.counted

-- releasePDF is deferred: it is called however the reading ends.
abbrev pub with_instance : ℕ → Document → Engine × Acquired → PdfResult × Engine
unfolding with_document release_pdf
with_instance max d (e, instance_of p) = (with_document max d d.opened, release_pdf (tail e.held) e)
with_instance max d (e, no_engine) = (engine_not_started, e)
with_instance max d (e, no_instance) = (engine_not_given, e)

abbrev pub after_ctx :
    Option CtxError → Bool → Bool → Bool → ℕ → Document → Engine → PdfResult × Engine
unfolding acquire_pdf with_instance
after_ctx (some c) in_time inits gives max d e = (ended c, e)
after_ctx none in_time inits gives max d e = with_instance max d (acquire_pdf in_time inits gives e)

-- extractPDF, run without another call on the engine meanwhile: what it returns, and the engine then.
unfoldable pub extract_pdf :
    Option CtxError → Bool → Bool → Bool → ℕ → Document → Engine → PdfResult × Engine
unfolding after_ctx
extract_pdf ctx in_time inits gives max d e = after_ctx ctx in_time inits gives max d e
