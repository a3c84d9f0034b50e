-- ===== src/Extract/Xlsx/Sheet/Rows.antt =====
-- The text that parseSheetXML leaves for a worksheet.
use findo.Prelude.{
  ℕ, ◌+◌, ◌<◌, ◌≡◌, refl, sym, ap, ◌∙◌, true, false, all, &&-true, Option, some, List, [], ◌∷◌,
  ◌++◌, append_assoc, append-nil, Text, text_eq, codes, length, length-append, arith,
}
use findo.Extract.Proto.{FormatError}
use findo.Extract.Sink.{Sink, full}
use findo.Extract.Sink.Room.{full-room, write-room}
use findo.Extract.Xml.{Token, start_tag, end_tag, XmlPart, scan_end, scan}
use findo.Extract.Xlsx.Sheet.{SheetState, row_text, sheet_start, sheet_end, sheet_step, parse_sheet}
use findo.Extract.Xlsx.Sheet.Grid.{
  is_idle, Row, Worksheet, cells_tokens, row_tokens, rows_tokens, sheet_tokens, cells_are_fine,
  rows_are_fine, sheet_is_fine, texts_of, rows_text,
}
use findo.Extract.Xlsx.Sheet.Cells.{after, after-append, at_rest, after-idle, after-cells}
use findo.Extract.Xlsx.Sheet.Quiet.{loop, loop-next, loop-quiet, all_idle_quiet, row_quiet}

module _ (shared : List Text) where
  -- What the tokens of a row but for its end tag leave.
  after-row :
      (r : Row) (typ cell : Text) (cells : List Text) (out : Sink)
      → all is_idle r.lead ≡ true
      → cells_are_fine r.cells ≡ true
      → all is_idle r.tail ≡ true
      → (typ' : Text) × (cell' : Text) × (after shared
            (row_tokens r)
            (at_rest shared typ false cell cells out)
          ≡ at_rest shared typ' false cell' (texts_of shared r.cells []) out)
  unfolding after row_tokens sheet_step sheet_start text_eq
  after-row r typ cell cells out lead fine tail =
      let inner = cells_tokens r.cells ++ r.tail in
      let body = start_tag (codes "row") r.attrs ∷ inner in
      let (typ', cell', e) = after-cells shared r.cells typ cell [] out fine in
      (
        typ',
        cell',
        after-append shared r.lead body (at_rest shared typ false cell cells out)
            ∙ (ap (after shared body) (after-idle shared r.lead typ false cell cells out lead)
                ∙ (after-append shared (cells_tokens r.cells) r.tail
                      (at_rest shared typ false cell [] out)
                    ∙ (ap (after shared r.tail) e
                        ∙ after-idle shared r.tail typ' false cell' (texts_of shared r.cells []) out
                            tail))),
      )

  abbrev sink : Text → ℕ → Sink
  sink b max = record { bytes = b; max = max }

  -- A row with room for its line.
  row_read :
      (r : Row) (rest : List Token) (failure : Option FormatError) (typ cell : Text)
      (cells : List Text) (b : Text) (max : ℕ)
      → all is_idle r.lead ≡ true
      → cells_are_fine r.cells ≡ true
      → all is_idle r.tail ≡ true
      → let line = row_text (texts_of shared r.cells []) in
        length b + length line < max
        → (typ' : Text) × (cell' : Text) × (loop shared
              (row_tokens r ++ end_tag (codes "row") ∷ rest)
              failure
              (at_rest shared typ false cell cells (sink b max))
            ≡ loop shared rest failure (
                at_rest shared typ' false cell'
                  (texts_of shared r.cells [])
                  (sink (b ++ line) max)))
  unfolding sheet_step sheet_end text_eq
  row_read r rest failure typ cell cells b max lead fine tail h =
      let texts = texts_of shared r.cells [] in
      let line = row_text texts in
      let ends = end_tag (codes "row") ∷ rest in
      let room = full-room (sink b max) (omega (arith, h)) in
      let (typ', cell', e) = after-row r typ cell cells (sink b max) lead fine tail in
      let written = write-room line (sink b max) (omega (arith, h)) in
      (
        typ',
        cell',
        loop-quiet shared (row_tokens r) ends failure
              (at_rest shared typ false cell cells (sink b max)) (row_quiet r lead fine tail) room
            ∙ (ap (loop shared ends failure) e
                ∙ (loop-next shared (end_tag (codes "row")) rest failure
                      (at_rest shared typ' false cell' texts (sink b max))
                      (ap full written
                        ∙ full-room (sink (b ++ line) max) (omega (arith, h, length-append b line)))
                    ∙ ap (λ o. loop shared rest failure (at_rest shared typ' false cell' texts o))
                        written)),
      )

  rows_read :
      (rs : List Row) (tail : List Token) (failure : Option FormatError) (typ cell : Text)
      (cells : List Text) (b : Text) (max : ℕ)
      → rows_are_fine rs ≡ true
      → length b + length (rows_text shared rs) < max
      → (typ' : Text) × (cell' : Text) × (cells' : List Text) × (loop shared
            (rows_tokens rs tail)
            failure
            (at_rest shared typ false cell cells (sink b max))
          ≡ loop shared tail failure
              (at_rest shared typ' false cell' cells' (sink (b ++ rows_text shared rs) max)))
  unfolding rows_tokens rows_text rows_are_fine
  rows_read [] tail failure typ cell cells b max fine h = (typ, cell, cells, rw (append-nil b) refl)
  rows_read (r ∷ rs) tail failure typ cell cells b max fine h =
      let line = row_text (texts_of shared r.cells []) in
      let size = length-append line (rows_text shared rs) in
      let (lead, h1) = &&-true (all is_idle r.lead) _ fine in
      let (inner, h2) = &&-true (cells_are_fine r.cells) _ h1 in
      let (last, others) = &&-true (all is_idle r.tail) _ h2 in
      let (typ', cell', e) =
        row_read r (rows_tokens rs tail) failure typ cell cells b max lead inner last
          (omega (arith, h, size)) in
      let (typ'', cell'', cells'', more) =
        rows_read rs tail failure typ' cell' (texts_of shared r.cells []) (b ++ line) max others
          (omega (arith, h, size, length-append b line)) in
      (typ'', cell'', cells'', e ∙ rw (sym (append_assoc b line (rows_text shared rs))) more)

  -- The loop over a worksheet, with room for all of its text, ends at the end of the part, and then the
  -- sink holds what it held and a line for each row that has a cell with text: the texts of its cells
  -- with tabs between them.
  pub parse_sheet-rows :
      (f : XmlPart) (w : Worksheet) (failure : Option FormatError) (b : Text) (max : ℕ)
      → f.opened ≡ some (record { tokens = sheet_tokens w; failure = failure })
      → sheet_is_fine w ≡ true
      → length b + length (rows_text shared w.rows) < max
      → (s : SheetState) × (parse_sheet shared f (record { bytes = b; max = max })
          ≡ (s, scan_end failure))
        × (s.out ≡ record { bytes = b ++ rows_text shared w.rows; max = max })
  unfolding parse_sheet scan sheet_tokens sheet_is_fine
  parse_sheet-rows f w failure b max opened fine h =
      let (rows, tail) = &&-true (rows_are_fine w.rows) (all is_idle w.tail) fine in
      let whole = b ++ rows_text shared w.rows in
      let (typ, cell, cells, e) = rows_read w.rows w.tail failure [] [] [] b max rows h in
      let room =
        full-room (sink whole max) (omega (arith, h, length-append b (rows_text shared w.rows))) in
      let last =
        ap (λ ts. loop shared ts failure (at_rest shared typ false cell cells (sink whole max)))
          (sym (append-nil w.tail))
        ∙ (loop-quiet shared w.tail [] failure
              (at_rest shared typ false cell cells (sink whole max)) (all_idle_quiet w.tail tail)
              room
            ∙ ap (loop shared [] failure)
                (after-idle shared w.tail typ false cell cells (sink whole max) tail)) in
      (at_rest shared typ false cell cells (sink whole max), rw opened (e ∙ last), refl)
