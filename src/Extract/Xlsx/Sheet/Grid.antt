-- ===== src/Extract/Xlsx/Sheet/Grid.antt =====
-- A worksheet as a spreadsheet program writes it: its rows and cells, with the attributes, formulas,
-- formats, comments and other elements around them, as the tokens that the decoder returns.
use findo.Prelude.{Bool, true, not, ◌&&◌, ◌||◌, List, [], ◌∷◌, ◌++◌, all, Text, text_eq, codes}
use findo.Strings.Runes.{concat}
use findo.Extract.Xml.{Attr, Token, start_tag, end_tag, chars, other_token, attr_or}
use findo.Extract.Office.Body.{is_t}
use findo.Extract.Xlsx.Sheet.{add_cell, cell_text, row_text}

-- The elements that the text of a worksheet is made of.
unfoldable pub is_part : Text → Bool
unfolding text_eq
is_part name =
    text_eq name (codes "row")
    || (text_eq name (codes "c")
        || (text_eq name (codes "v") || (text_eq name (codes "is") || is_t name)))

-- Any other token, such as the tags of a formula and the text in it.
abbrev pub is_idle : Token → Bool
is_idle (start_tag name attrs) = not (is_part name)
is_idle (end_tag name) = not (is_part name)
is_idle (chars t) = true
is_idle other_token = true

-- One `t` element of an inline string, after what stands before it (its format, the tag of its run).
pub record Run : Type 0 where
  pub lead : List Token
  pub attrs : List Attr
  pub texts : List Text

-- The value of a cell: none, a `v` element, or an `is` element with runs.
pub data Value : Type 0 where
  no_value : Value
  plain : List Attr → List Text → Value
  inline : List Attr → List Run → List Token → Value

-- A `c` element, after what stands before it, with what stands in it before the value (a formula) and
-- after it.
pub record Cell : Type 0 where
  pub lead : List Token
  pub attrs : List Attr
  pub before : List Token
  pub value : Value
  pub tail : List Token

pub record Row : Type 0 where
  pub lead : List Token
  pub attrs : List Attr
  pub cells : List Cell
  pub tail : List Token

-- The rows, the first one after what the worksheet begins with, and what stands after them.
pub record Worksheet : Type 0 where
  pub rows : List Row
  pub tail : List Token

abbrev pub chars_of : List Text → List Token
chars_of [] = []
chars_of (t ∷ ts) = chars t ∷ chars_of ts

unfoldable pub runs_tokens : List Run → List Token
runs_tokens [] = []
runs_tokens (r ∷ rs) =
    r.lead
    ++ start_tag (codes "t") r.attrs ∷ (chars_of r.texts ++ end_tag (codes "t") ∷ runs_tokens rs)

unfoldable pub value_tokens : Value → List Token
unfolding runs_tokens
value_tokens no_value = []
value_tokens (plain attrs ts) =
    start_tag (codes "v") attrs ∷ (chars_of ts ++ end_tag (codes "v") ∷ [])
value_tokens (inline attrs rs tail) =
    start_tag (codes "is") attrs ∷ (runs_tokens rs ++ (tail ++ end_tag (codes "is") ∷ []))

unfoldable pub cell_tokens : Cell → List Token
unfolding value_tokens
cell_tokens c =
    c.lead
    ++ start_tag (codes "c") c.attrs
      ∷ (c.before ++ (value_tokens c.value ++ (c.tail ++ end_tag (codes "c") ∷ [])))

unfoldable pub cells_tokens : List Cell → List Token
unfolding cell_tokens
cells_tokens [] = []
cells_tokens (c ∷ cs) = cell_tokens c ++ cells_tokens cs

-- A row but for its end tag.
unfoldable pub row_tokens : Row → List Token
unfolding cells_tokens
row_tokens r = r.lead ++ start_tag (codes "row") r.attrs ∷ (cells_tokens r.cells ++ r.tail)

unfoldable pub rows_tokens : List Row → List Token → List Token
unfolding row_tokens
rows_tokens [] tail = tail
rows_tokens (r ∷ rs) tail = row_tokens r ++ end_tag (codes "row") ∷ rows_tokens rs tail

unfoldable pub sheet_tokens : Worksheet → List Token
unfolding rows_tokens
sheet_tokens w = rows_tokens w.rows w.tail

-- What stands between the parts is idle.
unfoldable pub runs_are_fine : List Run → Bool
unfolding all
runs_are_fine [] = true
runs_are_fine (r ∷ rs) = all is_idle r.lead && runs_are_fine rs

unfoldable pub value_is_fine : Value → Bool
unfolding all runs_are_fine
value_is_fine no_value = true
value_is_fine (plain attrs ts) = true
value_is_fine (inline attrs rs tail) = runs_are_fine rs && all is_idle tail

unfoldable pub cells_are_fine : List Cell → Bool
unfolding all value_is_fine
cells_are_fine [] = true
cells_are_fine (c ∷ cs) =
    all is_idle c.lead
    && (all is_idle c.before
        && (value_is_fine c.value && (all is_idle c.tail && cells_are_fine cs)))

unfoldable pub rows_are_fine : List Row → Bool
unfolding all cells_are_fine
rows_are_fine [] = true
rows_are_fine (r ∷ rs) =
    all is_idle r.lead && (cells_are_fine r.cells && (all is_idle r.tail && rows_are_fine rs))

unfoldable pub sheet_is_fine : Worksheet → Bool
unfolding all rows_are_fine
sheet_is_fine w = rows_are_fine w.rows && all is_idle w.tail

unfoldable pub runs_text : List Run → Text
unfolding concat
runs_text [] = []
runs_text (r ∷ rs) = concat r.texts ++ runs_text rs

unfoldable pub value_text : Value → Text
unfolding concat runs_text
value_text no_value = []
value_text (plain attrs ts) = concat ts
value_text (inline attrs rs tail) = runs_text rs

module _ (shared : List Text) where
  -- The text of a cell of the type that its attribute `t` names.
  unfoldable pub text_of_cell : Cell → Text
  unfolding attr_or cell_text value_text
  text_of_cell c = cell_text shared (attr_or (codes "t") c.attrs []) (value_text c.value)

  -- The cells of a row that have text.
  unfoldable pub texts_of : List Cell → List Text → List Text
  unfolding add_cell text_of_cell
  texts_of [] cells = cells
  texts_of (c ∷ cs) cells = texts_of cs (add_cell (text_of_cell c) cells)

  unfoldable pub rows_text : List Row → Text
  unfolding row_text texts_of
  rows_text [] = []
  rows_text (r ∷ rs) = row_text (texts_of r.cells []) ++ rows_text rs
