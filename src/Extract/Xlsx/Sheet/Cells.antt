-- ===== src/Extract/Xlsx/Sheet/Cells.antt =====
-- What the steps of parseSheetXML leave after the tokens of a cell.
use findo.Prelude.{
  ◌≡◌, refl, sym, ap, ◌∙◌, Bool, true, false, &&-true, List, [], ◌∷◌, ◌++◌, append_assoc,
  append-nil, all, Text, codes, arith, text_eq,
}
use findo.Strings.Runes.{concat}
use findo.Extract.Sink.{Sink}
use findo.Extract.Xml.{Token, start_tag, end_tag, chars, other_token, attr_or}
use findo.Extract.Xlsx.Sheet.{SheetState, add_cell, sheet_start, sheet_end, sheet_step}
use findo.Extract.Xlsx.Sheet.Grid.{
  is_part, is_idle, Run, Value, no_value, plain, inline, Cell, chars_of, runs_tokens, value_tokens,
  cell_tokens, cells_tokens, runs_are_fine, value_is_fine, cells_are_fine, runs_text, value_text,
  text_of_cell, texts_of,
}

module _ (shared : List Text) where
  -- The tokens are read in order.
  unfoldable pub after : List Token → SheetState → SheetState
  unfolding sheet_step
  after [] s = s
  after (t ∷ ts) s = after ts (sheet_step shared s t)

  pub after-append :
      (ts us : List Token) (s : SheetState) → after (ts ++ us) s ≡ after us (after ts s)
  unfolding after
  after-append [] us s = refl
  after-append (t ∷ ts) us s = after-append ts us (sheet_step shared s t)

  -- A state with these flags.
  abbrev pub state : Text → Bool → Bool → Bool → Text → List Text → Sink → SheetState
  state typ in_v in_is in_t cell cells out = record {
    cell_type = typ;
    in_v = in_v;
    in_is = in_is;
    in_t = in_t;
    cell = cell;
    row_cells = cells;
    out = out;
  }

  -- Outside of a value and of `t` elements.
  abbrev pub at_rest : Text → Bool → Text → List Text → Sink → SheetState
  at_rest typ in_is cell cells out = state typ false in_is false cell cells out

  step-idle :
      (typ : Text) (in_is : Bool) (cell : Text) (cells : List Text) (out : Sink) (t : Token)
      → is_idle t ≡ true
      → sheet_step shared (at_rest typ in_is cell cells out) t ≡ at_rest typ in_is cell cells out
  unfolding sheet_step sheet_start sheet_end is_part
  step-idle typ in_is cell cells out (start_tag name attrs) h = ground arith
  step-idle typ in_is cell cells out (end_tag name) h = ground arith
  step-idle typ in_is cell cells out (chars t) h = refl
  step-idle typ in_is cell cells out other_token h = refl

  pub after-idle :
      (ts : List Token) (typ : Text) (in_is : Bool) (cell : Text) (cells : List Text) (out : Sink)
      → all is_idle ts ≡ true
      → after ts (at_rest typ in_is cell cells out) ≡ at_rest typ in_is cell cells out
  unfolding after all
  after-idle [] typ in_is cell cells out h = refl
  after-idle (t ∷ ts) typ in_is cell cells out h =
      let (one, rest) = &&-true (is_idle t) (all is_idle ts) h in
      ap (after ts) (step-idle typ in_is cell cells out t one)
      ∙ after-idle ts typ in_is cell cells out rest

  after-chars_v :
      (ts : List Text) (typ cell : Text) (cells : List Text) (out : Sink)
      → after (chars_of ts) (state typ true false false cell cells out)
        ≡ state typ true false false (cell ++ concat ts) cells out
  unfolding after sheet_step concat
  after-chars_v [] typ cell cells out =
      ap (λ c. state typ true false false c cells out) (sym (append-nil cell))
  after-chars_v (t ∷ ts) typ cell cells out =
      after-chars_v ts typ (cell ++ t) cells out
      ∙ ap (λ c. state typ true false false c cells out) (append_assoc cell t (concat ts))

  after-chars_t :
      (ts : List Text) (typ cell : Text) (cells : List Text) (out : Sink)
      → after (chars_of ts) (state typ false true true cell cells out)
        ≡ state typ false true true (cell ++ concat ts) cells out
  unfolding after sheet_step concat
  after-chars_t [] typ cell cells out =
      ap (λ c. state typ false true true c cells out) (sym (append-nil cell))
  after-chars_t (t ∷ ts) typ cell cells out =
      after-chars_t ts typ (cell ++ t) cells out
      ∙ ap (λ c. state typ false true true c cells out) (append_assoc cell t (concat ts))

  after-runs :
      (rs : List Run) (typ cell : Text) (cells : List Text) (out : Sink)
      → runs_are_fine rs ≡ true
      → after (runs_tokens rs) (at_rest typ true cell cells out)
        ≡ at_rest typ true (cell ++ runs_text rs) cells out
  unfolding after runs_tokens runs_are_fine runs_text sheet_step sheet_start sheet_end text_eq
  after-runs [] typ cell cells out h =
      ap (λ c. at_rest typ true c cells out) (sym (append-nil cell))
  after-runs (r ∷ rs) typ cell cells out h =
      let (lead, rest) = &&-true (all is_idle r.lead) (runs_are_fine rs) h in
      let more = end_tag (codes "t") ∷ runs_tokens rs in
      after-append r.lead (start_tag (codes "t") r.attrs ∷ (chars_of r.texts ++ more))
        (at_rest typ true cell cells out)
      ∙ (ap (after (start_tag (codes "t") r.attrs ∷ (chars_of r.texts ++ more)))
            (after-idle r.lead typ true cell cells out lead)
          ∙ (after-append (chars_of r.texts) more (state typ false true true cell cells out)
              ∙ (ap (after more) (after-chars_t r.texts typ cell cells out)
                  ∙ (after-runs rs typ (cell ++ concat r.texts) cells out rest
                      ∙ ap (λ c. at_rest typ true c cells out)
                          (append_assoc cell (concat r.texts) (runs_text rs))))))

  after-value :
      (v : Value) (typ : Text) (cells : List Text) (out : Sink)
      → value_is_fine v ≡ true
      → after (value_tokens v) (at_rest typ false [] cells out)
        ≡ at_rest typ false (value_text v) cells out
  unfolding after value_tokens value_is_fine value_text sheet_step sheet_start sheet_end text_eq
  after-value no_value typ cells out h = refl
  after-value (plain attrs ts) typ cells out h =
      after-append (chars_of ts) (end_tag (codes "v") ∷ [])
        (state typ true false false [] cells out)
      ∙ ap (after (end_tag (codes "v") ∷ [])) (after-chars_v ts typ [] cells out)
  after-value (inline attrs rs tail) typ cells out h =
      let (runs, rest) = &&-true (runs_are_fine rs) (all is_idle tail) h in
      let close = end_tag (codes "is") ∷ [] in
      after-append (runs_tokens rs) (tail ++ close) (at_rest typ true [] cells out)
      ∙ (ap (after (tail ++ close)) (after-runs rs typ [] cells out runs)
          ∙ (after-append tail close (at_rest typ true (runs_text rs) cells out)
              ∙ ap (after close) (after-idle tail typ true (runs_text rs) cells out rest)))

  after-cell :
      (c : Cell) (typ cell : Text) (cells : List Text) (out : Sink)
      → all is_idle c.lead ≡ true
      → all is_idle c.before ≡ true
      → value_is_fine c.value ≡ true
      → all is_idle c.tail ≡ true
      → after (cell_tokens c) (at_rest typ false cell cells out)
        ≡ at_rest
            (attr_or (codes "t") c.attrs [])
            false
            (value_text c.value)
            (add_cell (text_of_cell shared c) cells)
            out
  unfolding after cell_tokens text_of_cell sheet_step sheet_start sheet_end text_eq
  after-cell c typ cell cells out lead before value tail =
      let kind = attr_or (codes "t") c.attrs [] in
      let close = end_tag (codes "c") ∷ [] in
      let third = c.tail ++ close in
      let second = value_tokens c.value ++ third in
      let first = start_tag (codes "c") c.attrs ∷ (c.before ++ second) in
      after-append c.lead first (at_rest typ false cell cells out)
      ∙ (ap (after first) (after-idle c.lead typ false cell cells out lead)
          ∙ (after-append c.before second (at_rest kind false [] cells out)
              ∙ (ap (after second) (after-idle c.before kind false [] cells out before)
                  ∙ (after-append (value_tokens c.value) third (at_rest kind false [] cells out)
                      ∙ (ap (after third) (after-value c.value kind cells out value)
                          ∙ (after-append c.tail close
                                (at_rest kind false (value_text c.value) cells out)
                              ∙ ap (after close) (
                                  after-idle c.tail kind false (value_text c.value) cells out
                                    tail)))))))

  -- The cells of a row; the type and the value of the last one are still there.
  pub after-cells :
      (cs : List Cell) (typ cell : Text) (cells : List Text) (out : Sink)
      → cells_are_fine cs ≡ true
      → (typ' : Text) × (cell' : Text) × (after (cells_tokens cs) (at_rest typ false cell cells out)
          ≡ at_rest typ' false cell' (texts_of shared cs cells) out)
  unfolding after cells_tokens cells_are_fine texts_of
  after-cells [] typ cell cells out h = (typ, cell, refl)
  after-cells (c ∷ cs) typ cell cells out h =
      let (lead, h1) = &&-true (all is_idle c.lead) _ h in
      let (before, h2) = &&-true (all is_idle c.before) _ h1 in
      let (value, h3) = &&-true (value_is_fine c.value) _ h2 in
      let (tail, rest) = &&-true (all is_idle c.tail) _ h3 in
      let (typ', cell', e) =
        after-cells cs (attr_or (codes "t") c.attrs []) (value_text c.value)
          (add_cell (text_of_cell shared c) cells) out rest in
      (
        typ',
        cell',
        after-append (cell_tokens c) (cells_tokens cs) (at_rest typ false cell cells out)
            ∙ (ap (after (cells_tokens cs)) (after-cell c typ cell cells out lead before value tail)
                ∙ e),
      )
