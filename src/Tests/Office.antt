-- ===== src/Tests/Office.antt =====
-- The readers of Office files at concrete inputs.
use findo.Prelude.{◌≤◌, ◌≡◌, refl, none, some, List, [], ◌∷◌, ◌++◌, arith, Text, text_eq, codes}
use findo.Extract.Proto.{bad_xml}
use findo.Extract.Sink.{strip_controls}
use findo.Extract.Iwork.Parts.{extracted}
use findo.Extract.Xml.{Attr, Token, start_tag, end_tag, chars, XmlPart}
use findo.Extract.Xml.Tree.{Node, element, text_node, Forest, nil, cons, node_tokens, forest_tokens}
use findo.Extract.Office.{find_xml_part, optional_parts}
use findo.Extract.Office.Body.{word_breaks, forest_text, forest_is_plain}
use findo.Extract.Office.Document.{extract_docx}
use findo.Extract.Office.Document.Whole.{texts, extract_docx-texts}
use findo.Extract.Xlsx.{loaded, SheetRef, max_shared_text, read_shared_strings, read_sheets}
use findo.Extract.Xlsx.Table.{all_strings, table_is_flat}
use findo.Extract.Xlsx.Shared.{Aligned, total, read_shared_strings-Aligned}
use findo.Extract.Xlsx.Sheet.Grid.{
  Value, plain, inline, Cell, Worksheet, sheet_tokens, sheet_is_fine, is_part,
}
use findo.Extract.Xlsx.Workbook.{extract_xlsx}
use findo.Extract.Xlsx.Workbook.Sheets.{sheets_text, extract_xlsx-texts}

abbrev only : Node → Forest
only n = cons n nil

abbrev run_of : Text → Node
run_of t = element (codes "t") [] (only (text_node t))

-- A paragraph with a tab, and a Fallback that repeats it.
abbrev body : Forest
body = only (
    element (codes "p") [] (
      cons (run_of (codes "one")) (
        cons (element (codes "tab") [] nil) (
          cons (run_of (codes "two"))
            (only (element (codes "Fallback") [] (only (run_of (codes "no")))))))))

abbrev remark : Forest
remark = only (element (codes "p") [] (only (run_of (codes "note"))))

abbrev part : Text → Forest → XmlPart
part name doc = record {
  name = name;
  opened = some (record { tokens = forest_tokens doc; failure = none });
}

abbrev torn_part : Text → Forest → XmlPart
torn_part name doc = record {
  name = name;
  opened = some (record { tokens = forest_tokens doc; failure = some bad_xml });
}

abbrev word_main : XmlPart
word_main = part (codes "word/document.xml") body

abbrev word_package : List XmlPart
word_package = part (codes "word/comments.xml") remark ∷ word_main ∷ []

extract_docx-texts_example :
    extract_docx word_package 100
    ≡ extracted (strip_controls (texts word_breaks [] (body ∷ remark ∷ [])))
unfolding find_xml_part optional_parts texts forest_text word_breaks forest_is_plain
extract_docx-texts_example =
    extract_docx-texts word_package 100 word_main (body ∷ remark ∷ []) refl
      (record { opened = refl; plain = refl }, (record { opened = refl; plain = refl }, tt))
      (omega arith)

abbrev torn_package : List XmlPart
torn_package = torn_part (codes "word/comments.xml") remark ∷ word_main ∷ []

abbrev slide2 : XmlPart
slide2 = part (codes "ppt/slides/slide2.xml") remark

abbrev slide10 : XmlPart
slide10 = part (codes "ppt/slides/slide10.xml") body

abbrev deck : List XmlPart
deck = slide10 ∷ slide2 ∷ part (codes "ppt/slides/_rels/slide2.xml.rels") nil ∷ []

-- Two shared strings, the first one with a phonetic run_of.
abbrev table : Forest
table =
    cons
      (element (codes "si") [] (
        cons (run_of (codes "East"))
          (only (element (codes "rPh") [] (only (run_of (codes "Higashi")))))))
      (only (element (codes "si") [] (only (run_of (codes "West")))))

abbrev strings_part : XmlPart
strings_part = part (codes "xl/sharedStrings.xml") table

read_shared_strings-Aligned_example :
    (ss : List Text) × (read_shared_strings (strings_part ∷ []) ≡ loaded ss)
    × (total ss ≤ max_shared_text)
    × Aligned ss (all_strings table)
unfolding find_xml_part table_is_flat
read_shared_strings-Aligned_example =
    read_shared_strings-Aligned (strings_part ∷ []) strings_part table refl refl refl

table_strings : all_strings table ≡ codes "East" ∷ codes "West" ∷ []
unfolding all_strings text_eq
table_strings = refl

abbrev workbook : XmlPart
workbook = part (codes "xl/workbook.xml") (
    only (
      element (codes "sheet")
        (record { name = codes "name"; value = codes "Sales" }
          ∷ record { name = codes "id"; value = codes "r1" }
          ∷ [])
        nil))

abbrev relations : XmlPart
relations = part (codes "xl/_rels/workbook.xml.rels") (
    only (
      element (codes "Relationship")
        (record { name = codes "Id"; value = codes "r1" }
          ∷ record { name = codes "Target"; value = codes "worksheets/sheet1.xml" }
          ∷ [])
        nil))

abbrev attr : Text → Text → Attr
attr name value = record { name = name; value = value }

abbrev newline : List Token
newline = chars (10 ∷ []) ∷ []

-- <c r="…" t="…"> around a value
abbrev cell : Text → Text → Value → Cell
cell at kind value = record {
  lead = [];
  attrs = attr (codes "r") at ∷ attr (codes "t") kind ∷ [];
  before = [];
  value = value;
  tail = [];
}

-- <c r="B1" s="1"><v>42</v></c>
abbrev number : Cell
number = record {
  lead = newline;
  attrs = attr (codes "r") (codes "B1") ∷ attr (codes "s") (codes "1") ∷ [];
  before = [];
  value = plain [] (codes "42" ∷ []);
  tail = [];
}

-- <c r="B2" t="str"><f>A1</f><v>sum</v></c>
abbrev formula : Cell
formula = record (cell (codes "B2") (codes "str") (plain [] (codes "sum" ∷ []))) {
  before = start_tag (codes "f") [] ∷ chars (codes "A1") ∷ end_tag (codes "f") ∷ [];
}

abbrev inline_ok : Value
inline_ok = inline [] (record { lead = []; attrs = []; texts = codes "ok" ∷ [] } ∷ []) []

-- A worksheet with a row of a shared string and a number, an empty row, and a row of an inline string
-- and a formula.
abbrev sheet : Worksheet
sheet = record {
  rows =
      record {
        lead = start_tag (codes "worksheet") [] ∷ start_tag (codes "sheetData") [] ∷ newline;
        attrs = attr (codes "r") (codes "1") ∷ [];
        cells = cell (codes "A1") (codes "s") (plain [] (codes "1" ∷ [])) ∷ number ∷ [];
        tail = [];
      }
      ∷ record { lead = newline; attrs = attr (codes "r") (codes "2") ∷ []; cells = []; tail = [] }
      ∷ record {
        lead = newline;
        attrs = attr (codes "r") (codes "3") ∷ [];
        cells = cell (codes "A3") (codes "inlineStr") inline_ok ∷ formula ∷ [];
        tail = newline;
      }
      ∷ [];
  tail = newline ++ end_tag (codes "sheetData") ∷ end_tag (codes "worksheet") ∷ [];
}

abbrev sheet1 : XmlPart
sheet1 = record {
  name = codes "xl/worksheets/sheet1.xml";
  opened = some (record { tokens = sheet_tokens sheet; failure = none });
}

abbrev spreadsheet : List XmlPart
spreadsheet = workbook ∷ relations ∷ strings_part ∷ sheet1 ∷ []

abbrev sheets : List SheetRef
sheets = record { name = codes "Sales"; path = codes "xl/worksheets/sheet1.xml" } ∷ []

abbrev sales : List Text
sales = codes "East" ∷ codes "West" ∷ []

extract_xlsx-texts_example :
    extract_xlsx spreadsheet 100
    ≡ extracted (strip_controls (sheets_text sales sheets (some sheet ∷ [])))
unfolding find_xml_part read_shared_strings read_sheets sheets_text node_tokens sheet_is_fine
    is_part
extract_xlsx-texts_example =
    extract_xlsx-texts spreadsheet 100 workbook sales sheets (some sheet ∷ []) refl refl refl
      ((sheet1, refl, refl, refl), tt) (omega arith)

sheets_text_reads :
    sheets_text sales sheets (some sheet ∷ [])
    ≡ codes "Sales" ++ 10 ∷ codes "West" ++ 10 ∷ codes "ok" ++ 9 ∷ codes "sum" ++ 10 ∷ 10 ∷ []
unfolding sheets_text
sheets_text_reads = refl
