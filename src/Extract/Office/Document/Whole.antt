-- ===== src/Extract/Office/Document/Whole.antt =====
-- The text of Word files and of presentations whose parts are well-formed documents.
use findo.Prelude.{
  ℕ, ◌+◌, ◌<◌, ◌≡◌, refl, sym, ap, ◌∙◌, true, false, Option, none, some, List, [], ◌∷◌, ◌++◌,
  append_assoc, append-nil, ◌==◌, if◌then◌else◌, Text, codes, length, length-append, arith,
}
use findo.Extract.Proto.{FormatError}
use findo.Extract.Sink.{strip_controls}
use findo.Extract.Sink.Room.{full-room, write-room, text-room}
use findo.Extract.Xml.{XmlPart, scan_end, scan}
use findo.Extract.Xml.Tree.{Forest, forest_tokens}
use findo.Extract.Iwork.Parts.{extracted, failed}
use findo.Extract.Office.{find_xml_part, optional_parts, numbered_parts}
use findo.Extract.Office.Body.{
  is_fallback, body_full, body_step, Breaks, word_breaks, slide_breaks, parse_body, forest_text,
  forest_is_plain,
}
use findo.Extract.Office.Body.Collect.{holds, collect-forest}
use findo.Extract.Office.Document.{read_bodies, footnotes, extract_docx, extract_pptx}

-- A part whose tokens are those of a document, up to its end or to where it is damaged.
pub record Holds (f : XmlPart) (doc : Forest) (failure : Option FormatError) : Type 0 where
  pub opened : f.opened ≡ some (record { tokens = forest_tokens doc; failure = failure })
  pub plain : forest_is_plain false doc ≡ true

abbrev pub AllWhole : List XmlPart → List Forest → Type 0
AllWhole [] [] = Unit
AllWhole [] (doc ∷ docs) = ⊥
AllWhole (f ∷ fs) [] = ⊥
AllWhole (f ∷ fs) (doc ∷ docs) = Holds f doc none × AllWhole fs docs

module _ (breaks : Breaks) (after : Text) where
  unfoldable pub texts : List Forest → Text
  unfolding forest_text
  texts [] = []
  texts (doc ∷ docs) = (forest_text breaks false doc ++ after) ++ texts docs

  parse-Holds :
      (f : XmlPart) (doc : Forest) (failure : Option FormatError) (b : Text) (max : ℕ)
      → Holds f doc failure
      → length b + length (forest_text breaks false doc) < max
      → parse_body breaks f (record { bytes = b; max = max })
        ≡ (holds false (b ++ forest_text breaks false doc) max, scan_end failure)
  unfolding parse_body scan
  parse-Holds f doc failure b max whole h = rw whole.opened (
      ap (λ ts. scan is_fallback (body_step breaks) body_full none ts failure (holds false b max))
        (sym (append-nil (forest_tokens doc)))
      ∙ collect-forest breaks doc [] failure false b max whole.plain h)

  read_whole :
      (fs : List XmlPart) (docs : List Forest) (rest : List XmlPart) (b : Text) (max : ℕ)
      → AllWhole fs docs
      → length b + length (texts docs) < max
      → read_bodies breaks after (fs ++ rest) (record { bytes = b; max = max })
        ≡ read_bodies breaks after rest (record { bytes = b ++ texts docs; max = max })
  unfolding read_bodies texts
  read_whole [] [] rest b max whole h = rw (append-nil b) refl
  read_whole [] (doc ∷ docs) rest b max whole h = elim whole [ ]
  read_whole (f ∷ fs) [] rest b max whole h = elim whole [ ]
  read_whole (f ∷ fs) (doc ∷ docs) rest b max (here, others) h =
      let t = forest_text breaks false doc in
      let size : length ((t ++ after) ++ texts docs)
          ≡ length t + length after + length (texts docs) =
        length-append (t ++ after) (texts docs)
        ∙ ap (λ n. n + length (texts docs)) (length-append t after) in
      let parsed = parse-Holds f doc none b max here (omega (arith, h, size)) in
      let written =
        write-room after (record { bytes = b ++ t; max = max })
          (omega (arith, h, size, length-append b t)) in
      let room = full-room (record { bytes = b; max = max }) (omega (arith, h)) in
      let sizes : length ((b ++ t) ++ after) ≡ length b + length t + length after =
        length-append (b ++ t) after ∙ ap (λ n. n + length after) (length-append b t) in
      let next =
        read_whole fs docs rest ((b ++ t) ++ after) max others (omega (arith, h, size, sizes)) in
      let parts : ((b ++ t) ++ after) ++ texts docs ≡ b ++ ((t ++ after) ++ texts docs) =
        ap (λ l. l ++ texts docs) (append_assoc b t after)
        ∙ append_assoc b (t ++ after) (texts docs) in
      rw (parsed, room, written, sym parts) next

  read_torn :
      (f : XmlPart) (doc : Forest) (e : FormatError) (rest : List XmlPart) (b : Text) (max : ℕ)
      → Holds f doc (some e)
      → length b + length (forest_text breaks false doc) < max
      → read_bodies breaks after (f ∷ rest) (record { bytes = b; max = max }) ≡ (
          if length (b ++ forest_text breaks false doc) == 0
          then failed f.name e
          else extracted (strip_controls (b ++ forest_text breaks false doc)))
  unfolding read_bodies
  read_torn f doc e rest b max torn h =
      let t = forest_text breaks false doc in
      let parsed = parse-Holds f doc (some e) b max torn h in
      let room = full-room (record { bytes = b; max = max }) (omega (arith, h)) in
      let said = text-room (b ++ t) max (omega (arith, h, length-append b t)) in
      rw (parsed, room, said) refl

  read_all :
      (fs : List XmlPart) (docs : List Forest) (max : ℕ)
      → AllWhole fs docs
      → length (texts docs) < max
      → read_bodies breaks after fs (record { bytes = []; max = max })
        ≡ extracted (strip_controls (texts docs))
  unfolding read_bodies
  read_all fs docs max whole h =
      ap (λ ps. read_bodies breaks after ps (record { bytes = []; max = max }))
        (sym (append-nil fs))
      ∙ (read_whole fs docs [] [] max whole (omega (arith, h))
          ∙ ap extracted (text-room (texts docs) max h))

-- Where the main part, and the footnotes, endnotes and comments that the package has, are well-formed
-- documents with no `t` element in another, and the cap is above the length of their texts, the text of
-- a Word file is, without control characters, the texts of those documents' trees in that order: what
-- stands in `t` elements, with tabs and line breaks and two newlines after each paragraph, and nothing
-- of a Fallback element.
pub extract_docx-texts :
    (zr : List XmlPart) (max : ℕ) (main : XmlPart) (docs : List Forest)
    → find_xml_part zr (codes "word/document.xml") ≡ some main
    → AllWhole (main ∷ optional_parts zr footnotes) docs
    → length (texts word_breaks [] docs) < max
    → extract_docx zr max ≡ extracted (strip_controls (texts word_breaks [] docs))
unfolding extract_docx
extract_docx-texts zr max main docs found whole h =
    rw found (read_all word_breaks [] (main ∷ optional_parts zr footnotes) docs max whole h)

-- Where the slides, at least one, and the notes of a package are well-formed documents with no `t`
-- element in another, and the cap is above the length of their texts, the text of a presentation is,
-- without control characters, the texts of the slides' trees and then of the notes' trees, both in the
-- order of their numbers, with a newline after each.
extract_pptx-texts :
    (zr : List XmlPart) (max : ℕ) (slide : XmlPart) (slides : List XmlPart) (docs : List Forest)
    → numbered_parts zr (codes "ppt/slides/slide") ≡ slide ∷ slides
    → AllWhole ((slide ∷ slides) ++ numbered_parts zr (codes "ppt/notesSlides/notesSlide")) docs
    → length (texts slide_breaks (10 ∷ []) docs) < max
    → extract_pptx zr max ≡ extracted (strip_controls (texts slide_breaks (10 ∷ []) docs))
unfolding extract_pptx
extract_pptx-texts zr max slide slides docs found whole h = rw found (
    read_all slide_breaks (10 ∷ [])
      ((slide ∷ slides) ++ numbered_parts zr (codes "ppt/notesSlides/notesSlide")) docs max whole h)

-- A part of a Word file that is damaged after a well-formed forest, behind parts that are well-formed
-- documents, ends the reading: the text is that of the parts before it and of the forest, and the error
-- is returned, with the part's name, only where that is empty. The parts behind it are not read.
extract_docx_torn :
    (zr : List XmlPart) (max : ℕ) (main f : XmlPart) (fs rest : List XmlPart) (docs : List Forest)
    (doc : Forest) (e : FormatError)
    → find_xml_part zr (codes "word/document.xml") ≡ some main
    → main ∷ optional_parts zr footnotes ≡ fs ++ f ∷ rest
    → AllWhole fs docs
    → Holds f doc (some e)
    → length (texts word_breaks [] docs ++ forest_text word_breaks false doc) < max
    → let t = texts word_breaks [] docs ++ forest_text word_breaks false doc in
      extract_docx zr max
      ≡ (if length t == 0 then failed f.name e else extracted (strip_controls t))
unfolding extract_docx
extract_docx_torn zr max main f fs rest docs doc e found parts whole torn h =
    let size = length-append (texts word_breaks [] docs) (forest_text word_breaks false doc) in
    rw found (
      ap (λ ps. read_bodies word_breaks [] ps (record { bytes = []; max = max })) parts
      ∙ (read_whole word_breaks [] fs docs (f ∷ rest) [] max whole (omega (arith, h, size))
          ∙ read_torn word_breaks [] f doc e rest (texts word_breaks [] docs) max torn
              (omega (arith, h, size))))
