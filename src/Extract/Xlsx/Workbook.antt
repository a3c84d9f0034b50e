-- ===== src/Extract/Xlsx/Workbook.antt =====
-- backend/internal/extract/xlsx.go: extractXlsx on the entries of the package that openPackage returned.
pub mod Sheets
use findo.Prelude.{
  ℕ, Option, none, some, List, [], ◌∷◌, ◌++◌, ◌==◌, if◌then◌else◌, Text, codes, length,
}
use findo.Extract.Proto.{no_document}
use findo.Extract.Sink.{Sink, full, write, text}
use findo.Extract.Xml.{XmlPart, ScanEnd, damaged, at_eof, stopped}
use findo.Extract.Iwork.Parts.{Extracted, extracted, failed}
use findo.Extract.Office.{find_xml_part}
use findo.Extract.Xlsx.{LoadResult, loaded, broken, SheetRef, read_shared_strings, read_sheets}
use findo.Extract.Xlsx.Sheet.{SheetState, parse_sheet}

abbrev pub settle_sheet : (Sink → Extracted) → XmlPart → SheetState × ScanEnd → Extracted
unfolding write
settle_sheet next f (s, damaged e) =
    if length s.out.bytes == 0 then failed f.name e else extracted (text s.out)
settle_sheet next f (s, at_eof) = next (write (10 ∷ []) s.out)
settle_sheet next f (s, stopped) = next (write (10 ∷ []) s.out)

module _ (shared : List Text) (zr : List XmlPart) where
  -- A sheet whose part is missing is passed over.
  abbrev pub with_part : (Sink → Extracted) → Text → Sink → Option XmlPart → Extracted
  unfolding parse_sheet settle_sheet
  with_part next name out none = next out
  with_part next name out (some f) =
      settle_sheet next f (parse_sheet shared f (write (name ++ 10 ∷ []) out))

  unfoldable pub read_sheet_parts : List SheetRef → Sink → Extracted
  unfolding find_xml_part with_part full text
  read_sheet_parts [] out = extracted (text out)
  read_sheet_parts (sh ∷ sheets) out =
      let rest = with_part (read_sheet_parts sheets) sh.name out (find_xml_part zr sh.path) in
      if full out then extracted (text out) else rest

abbrev pub with_sheets : List Text → List XmlPart → ℕ → LoadResult (List SheetRef) → Extracted
unfolding read_sheet_parts
with_sheets shared zr max (broken e) = failed [] e
with_sheets shared zr max (loaded sheets) =
    read_sheet_parts shared zr sheets (record { bytes = []; max = max })

abbrev pub with_shared : List XmlPart → ℕ → XmlPart → LoadResult (List Text) → Extracted
unfolding read_sheets with_sheets
with_shared zr max wb (broken e) = failed (codes "shared strings") e
with_shared zr max wb (loaded shared) = with_sheets shared zr max (read_sheets zr wb)

abbrev pub with_workbook : List XmlPart → ℕ → Option XmlPart → Extracted
unfolding read_shared_strings with_shared
with_workbook zr max none = failed (codes "xl/workbook.xml") no_document
with_workbook zr max (some wb) = with_shared zr max wb (read_shared_strings zr)

unfoldable pub extract_xlsx : List XmlPart → ℕ → Extracted
unfolding find_xml_part with_workbook
extract_xlsx zr max = with_workbook zr max (find_xml_part zr (codes "xl/workbook.xml"))
