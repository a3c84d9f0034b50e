-- ===== src/Extract/Xlsx/Workbook/Sheets.antt =====
-- The text of a workbook.
use findo.Prelude.{
  true, ℕ, ◌+◌, ◌<◌, ◌≡◌, refl, sym, ap, ◌∙◌, none, Option, some, List, [], ◌∷◌, ◌++◌, append_assoc,
  append-nil, arith, Text, codes, length, length-append,
}
use findo.Extract.Sink.{Sink, strip_controls}
use findo.Extract.Sink.Room.{full-room, write-room, text-room}
use findo.Extract.Xml.{XmlPart}
use findo.Extract.Iwork.Parts.{Extracted, extracted}
use findo.Extract.Office.{find_xml_part}
use findo.Extract.Xlsx.{loaded, SheetRef, read_shared_strings, read_sheets}
use findo.Extract.Xlsx.Sheet.Grid.{Worksheet, sheet_tokens, sheet_is_fine, rows_text}
use findo.Extract.Xlsx.Sheet.Rows.{parse_sheet-rows}
use findo.Extract.Xlsx.Workbook.{read_sheet_parts, with_part, extract_xlsx}

-- What the package has at a sheet's path: nothing, or a part that is this worksheet.
abbrev pub SheetHolds : List XmlPart → SheetRef → Option Worksheet → Type 0
SheetHolds zr sh none = find_xml_part zr sh.path ≡ none
SheetHolds zr sh (some w) =
    (f : XmlPart) × (find_xml_part zr sh.path ≡ some f)
    × (f.opened ≡ some (record { tokens = sheet_tokens w; failure = none }))
    × (sheet_is_fine w ≡ true)

abbrev pub AllSheets : List XmlPart → List SheetRef → List (Option Worksheet) → Type 0
AllSheets zr [] [] = Unit
AllSheets zr [] (r ∷ rs) = ⊥
AllSheets zr (sh ∷ sheets) [] = ⊥
AllSheets zr (sh ∷ sheets) (r ∷ rs) = SheetHolds zr sh r × AllSheets zr sheets rs

module _ (shared : List Text) where
  abbrev pub sheet_text : Text → Option Worksheet → Text
  sheet_text name none = []
  sheet_text name (some w) = ((name ++ 10 ∷ []) ++ rows_text shared w.rows) ++ 10 ∷ []

  unfoldable pub sheets_text : List SheetRef → List (Option Worksheet) → Text
  unfolding rows_text
  sheets_text [] rs = []
  sheets_text (sh ∷ sheets) [] = []
  sheets_text (sh ∷ sheets) (r ∷ rs) = sheet_text sh.name r ++ sheets_text sheets rs

  module _ (zr : List XmlPart) (max : ℕ) where
    abbrev sink : Text → Sink
    sink b = record { bytes = b; max = max }

    sheet_read :
        (next : Sink → Extracted) (sh : SheetRef) (r : Option Worksheet) (b : Text)
        → SheetHolds zr sh r
        → length b + length (sheet_text sh.name r) < max
        → with_part shared zr next sh.name (sink b) (find_xml_part zr sh.path)
          ≡ next (sink (b ++ sheet_text sh.name r))
    unfolding with_part
    sheet_read next sh none b missing h = rw (missing, append-nil b) refl
    sheet_read next sh (some w) b (f, found, opened, fine) h =
        let title = sh.name ++ 10 ∷ [] in
        let lines = rows_text shared w.rows in
        let size : length ((title ++ lines) ++ 10 ∷ []) ≡ length title + length lines + 1 =
          length-append (title ++ lines) (10 ∷ []) ∙ ap (λ n. n + 1) (length-append title lines) in
        let sizes : length ((b ++ title) ++ lines) ≡ length b + length title + length lines =
          length-append (b ++ title) lines ∙ ap (λ n. n + length lines) (length-append b title) in
        let titled = write-room title (sink b) (omega (arith, h, size)) in
        let (s, parsed, out) =
          parse_sheet-rows shared f w none (b ++ title) max opened fine
            (omega (arith, h, size, length-append b title)) in
        let ended =
          write-room (10 ∷ []) (sink ((b ++ title) ++ lines)) (omega (arith, h, size, sizes)) in
        let parts : ((b ++ title) ++ lines) ++ 10 ∷ [] ≡ b ++ ((title ++ lines) ++ 10 ∷ []) =
          ap (λ t. t ++ 10 ∷ []) (append_assoc b title lines)
          ∙ append_assoc b (title ++ lines) (10 ∷ []) in
        rw (found, titled, parsed, out, ended, parts) refl

    sheets_read :
        (sheets : List SheetRef) (rs : List (Option Worksheet)) (b : Text)
        → AllSheets zr sheets rs
        → length b + length (sheets_text sheets rs) < max
        → read_sheet_parts shared zr sheets (sink b)
          ≡ extracted (strip_controls (b ++ sheets_text sheets rs))
    unfolding read_sheet_parts sheets_text
    sheets_read [] [] b all h =
        rw (append-nil b) (ap extracted (text-room b max (omega (arith, h))))
    sheets_read [] (r ∷ rs) b all h = elim all [ ]
    sheets_read (sh ∷ sheets) [] b all h = elim all [ ]
    sheets_read (sh ∷ sheets) (r ∷ rs) b (here, others) h =
        let t = sheet_text sh.name r in
        let size = length-append t (sheets_text sheets rs) in
        let room = full-room (sink b) (omega (arith, h)) in
        let this =
          sheet_read (read_sheet_parts shared zr sheets) sh r b here (omega (arith, h, size)) in
        let rest =
          sheets_read sheets rs (b ++ t) others (omega (arith, h, size, length-append b t)) in
        rw (room, sym (append_assoc b t (sheets_text sheets rs))) (this ∙ rest)

-- Where the shared strings and the list of sheets of a workbook are read, each sheet's part is missing
-- or a well-formed worksheet, and the cap is above the length of the text, the text of a spreadsheet is,
-- without control characters, for each sheet that has a part, in the workbook's order, its name, the
-- lines of its rows and a newline. A worksheet is rows of cells with any attributes, each cell with a
-- `v` element, with the `t` elements of an `is` element, or with no value; anything else may stand
-- before, between and after them, such as formulas and formats, but no other row, c, v, is or t element.
pub extract_xlsx-texts :
    (zr : List XmlPart) (max : ℕ) (wb : XmlPart) (shared : List Text) (sheets : List SheetRef)
    (rs : List (Option Worksheet))
    → find_xml_part zr (codes "xl/workbook.xml") ≡ some wb
    → read_shared_strings zr ≡ loaded shared
    → read_sheets zr wb ≡ loaded sheets
    → AllSheets zr sheets rs
    → length (sheets_text shared sheets rs) < max
    → extract_xlsx zr max ≡ extracted (strip_controls (sheets_text shared sheets rs))
unfolding extract_xlsx
extract_xlsx-texts zr max wb shared sheets rs found strings refs holds h =
    rw (found, strings, refs) (sheets_read shared zr max sheets rs [] holds (omega (arith, h)))
