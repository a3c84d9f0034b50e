-- ===== src/Extract/Xlsx/Sheet.antt =====
-- backend/internal/extract/xlsx.go: parseSheetXML.
pub mod Grid
pub mod Cells
pub mod Quiet
pub mod Rows
use findo.Prelude.{
  ℕ, suc, Bool, true, false, not, ◌&&◌, ◌||◌, Option, none, some, List, [], ◌∷◌, ◌++◌,
  if◌then◌else◌, Text, text_eq, codes, zero,
}
use findo.Prelude.Int.{ℤ, pos, negsuc}
use findo.Strings.{join}
use findo.Strings.Numbers.{atoi}
use findo.Strings.Runes.{trim_space}
use findo.Extract.Proto.{not_opened}
use findo.Extract.Sink.{Sink, full, write}
use findo.Extract.Xml.{
  Token, start_tag, end_tag, chars, other_token, XmlPart, ScanEnd, attr_or, scan, scan_opened,
}
use findo.Extract.Office.Body.{is_t}
use findo.Extract.Xlsx.{skips_none}

pub record SheetState : Type 0 where
  pub cell_type : Text
  pub in_v : Bool
  pub in_is : Bool
  pub in_t : Bool
  pub cell : Text
  pub row_cells : List Text
  pub out : Sink

-- shared[idx], the empty text out of range
unfoldable pub shared_at : List Text → ℕ → Text
shared_at [] i = []
shared_at (s ∷ ss) zero = s
shared_at (s ∷ ss) (suc i) = shared_at ss i

abbrev pub at_index : List Text → Option ℤ → Text
unfolding shared_at
at_index shared none = []
at_index shared (some (pos i)) = shared_at shared i
at_index shared (some (negsuc i)) = []

-- Numbers, dates, booleans and errors have no text.
unfoldable pub cell_text : List Text → Text → Text → Text
unfolding text_eq atoi trim_space at_index
cell_text shared cell_type cell =
    if text_eq cell_type (codes "s")
    then at_index shared (atoi (trim_space cell))
    else if text_eq cell_type (codes "inlineStr") || text_eq cell_type (codes "str")
    then cell
    else []

unfoldable pub add_cell : Text → List Text → List Text
unfolding trim_space text_eq
add_cell t cells = if text_eq (trim_space t) [] then cells else cells ++ t ∷ []

-- what the end of a row writes
unfoldable pub row_text : List Text → Text
unfolding join
row_text [] = []
row_text (c ∷ cells) = join (9 ∷ []) (c ∷ cells) ++ 10 ∷ []

abbrev pub sheet_full : SheetState → Bool
unfolding full
sheet_full s = full s.out

abbrev pub first_state : Sink → SheetState
first_state out = record {
  cell_type = [];
  in_v = false;
  in_is = false;
  in_t = false;
  cell = [];
  row_cells = [];
  out = out;
}

module _ (shared : List Text) where
  unfoldable pub sheet_start : Text → Text → SheetState → SheetState
  unfolding text_eq
  sheet_start name typ s =
      if text_eq name (codes "row")
      then record s { row_cells = [] }
      else if text_eq name (codes "c")
      then record s { cell_type = typ; cell = [] }
      else if text_eq name (codes "v")
      then record s { in_v = true }
      else if text_eq name (codes "is")
      then record s { in_is = true }
      else if is_t name
      then record s { in_t = true }
      else s

  unfoldable pub sheet_end : Text → SheetState → SheetState
  unfolding text_eq cell_text add_cell row_text write
  sheet_end name s =
      if text_eq name (codes "v")
      then record s { in_v = false }
      else if text_eq name (codes "is")
      then record s { in_is = false }
      else if is_t name
      then record s { in_t = false }
      else if text_eq name (codes "c")
      then record s { row_cells = add_cell (cell_text shared s.cell_type s.cell) s.row_cells }
      else if text_eq name (codes "row")
      then record s { out = write (row_text s.row_cells) s.out }
      else s

  unfoldable pub sheet_step : SheetState → Token → SheetState
  unfolding sheet_start sheet_end attr_or
  sheet_step s (start_tag name attrs) = sheet_start name (attr_or (codes "t") attrs []) s
  sheet_step s (end_tag name) = sheet_end name s
  sheet_step s (chars t) =
      if (s.in_v && not s.in_is) || s.in_t then record s { cell = s.cell ++ t } else s
  sheet_step s other_token = s

  unfoldable pub parse_sheet : XmlPart → Sink → SheetState × ScanEnd
  unfolding scan sheet_step sheet_full
  parse_sheet f out =
      scan_opened skips_none sheet_step sheet_full (some not_opened) f.opened (first_state out)
