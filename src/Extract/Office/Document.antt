-- ===== src/Extract/Office/Document.antt =====
-- backend/internal/extract: extractDocx (docx.go) and extractPptx (pptx.go) on the entries of the
-- package that openPackage returned.
pub mod Whole
use findo.Prelude.{
  ℕ, List, [], ◌∷◌, ◌++◌, Option, none, some, ◌==◌, if◌then◌else◌, codes, Text, length,
}
use findo.Extract.Proto.{no_document, no_slides}
use findo.Extract.Sink.{Sink, full, write, text}
use findo.Extract.Xml.{XmlPart, ScanEnd, damaged, at_eof, stopped}
use findo.Extract.Iwork.Parts.{Extracted, extracted, failed}
use findo.Extract.Office.{find_xml_part, optional_parts, numbered_parts}
use findo.Extract.Office.Body.{Breaks, BodyState, word_breaks, slide_breaks, parse_body}

-- A damaged part ends the loop and costs the text only if there is none yet.
abbrev pub settle_body : Extracted → XmlPart → BodyState × ScanEnd → Extracted
settle_body rest f (s, damaged e) =
    if length s.out.bytes == 0 then failed f.name e else extracted (text s.out)
settle_body rest f (s, at_eof) = rest
settle_body rest f (s, stopped) = rest

-- The loop over the parts; `after` is what extractPptx writes after each, and nothing in extractDocx.
unfoldable pub read_bodies : Breaks → Text → List XmlPart → Sink → Extracted
unfolding parse_body full write text
read_bodies breaks after [] out = extracted (text out)
read_bodies breaks after (f ∷ fs) out =
    let r = parse_body breaks f out in
    let rest = read_bodies breaks after fs (write after r.0.out) in
    if full out then extracted (text out) else settle_body rest f r

abbrev pub footnotes : List Text
footnotes = codes "word/footnotes.xml" ∷ codes "word/endnotes.xml" ∷ codes "word/comments.xml" ∷ []

abbrev pub with_main : List XmlPart → ℕ → Option XmlPart → Extracted
with_main zr max none = failed (codes "word/document.xml") no_document
with_main zr max (some main) =
    read_bodies word_breaks [] (main ∷ optional_parts zr footnotes)
      (record { bytes = []; max = max })

unfoldable pub extract_docx : List XmlPart → ℕ → Extracted
unfolding read_bodies find_xml_part optional_parts
extract_docx zr max = with_main zr max (find_xml_part zr (codes "word/document.xml"))

abbrev pub with_slides : List XmlPart → ℕ → List XmlPart → Extracted
with_slides zr max [] = failed [] no_slides
with_slides zr max (f ∷ fs) =
    read_bodies slide_breaks (10 ∷ [])
      ((f ∷ fs) ++ numbered_parts zr (codes "ppt/notesSlides/notesSlide"))
      (record { bytes = []; max = max })

unfoldable pub extract_pptx : List XmlPart → ℕ → Extracted
unfolding read_bodies numbered_parts
extract_pptx zr max = with_slides zr max (numbered_parts zr (codes "ppt/slides/slide"))
