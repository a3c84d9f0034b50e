-- ===== src/Extract/Xlsx/Sheet/Quiet.antt =====
-- Which tokens of a worksheet write nothing: all but the end tags of rows.
use findo.Prelude.{
  ◌≡◌, refl, ap, ◌∙◌, Bool, true, false, not, &&-true, List, [], ◌∷◌, ◌++◌, all, Text, codes, arith,
  text_eq, Option, none,
}
use findo.Extract.Proto.{FormatError}
use findo.Extract.Sink.{full}
use findo.Extract.Xml.{Token, start_tag, end_tag, chars, other_token, ScanEnd, scan}
use findo.Extract.Xlsx.{skips_none}
use findo.Extract.Xlsx.Sheet.{SheetState, sheet_start, sheet_end, sheet_step, sheet_full}
use findo.Extract.Xlsx.Sheet.Grid.{
  is_part, is_idle, Run, Value, no_value, plain, inline, Cell, Row, chars_of, runs_tokens,
  value_tokens, cell_tokens, cells_tokens, row_tokens, runs_are_fine, value_is_fine, cells_are_fine,
}
use findo.Extract.Xlsx.Sheet.Cells.{after}

abbrev pub is_quiet : Token → Bool
is_quiet (end_tag name) = not (text_eq name (codes "row"))
is_quiet (start_tag name attrs) = true
is_quiet (chars t) = true
is_quiet other_token = true

all-join :
    (xs ys : List Token)
    → all is_quiet xs ≡ true
    → all is_quiet ys ≡ true
    → all is_quiet (xs ++ ys) ≡ true
unfolding all
all-join [] ys h k = k
all-join (x ∷ xs) ys h k =
    let (one, rest) = &&-true (is_quiet x) (all is_quiet xs) h in
    let more = all-join xs ys rest k in rw (one, more) refl

idle_is_quiet : (t : Token) → is_idle t ≡ true → is_quiet t ≡ true
unfolding is_part
idle_is_quiet (start_tag name attrs) h = refl
idle_is_quiet (end_tag name) h = ground arith
idle_is_quiet (chars t) h = refl
idle_is_quiet other_token h = refl

pub all_idle_quiet : (ts : List Token) → all is_idle ts ≡ true → all is_quiet ts ≡ true
unfolding all
all_idle_quiet [] h = refl
all_idle_quiet (t ∷ ts) h =
    let (one, rest) = &&-true (is_idle t) (all is_idle ts) h in
    rw (idle_is_quiet t one, all_idle_quiet ts rest) refl

chars_quiet : (ts : List Text) → all is_quiet (chars_of ts) ≡ true
unfolding all
chars_quiet [] = refl
chars_quiet (t ∷ ts) = chars_quiet ts

runs_quiet : (rs : List Run) → runs_are_fine rs ≡ true → all is_quiet (runs_tokens rs) ≡ true
unfolding all runs_tokens runs_are_fine text_eq
runs_quiet [] h = refl
runs_quiet (r ∷ rs) h =
    let (lead, rest) = &&-true (all is_idle r.lead) (runs_are_fine rs) h in
    all-join r.lead
      (start_tag (codes "t") r.attrs ∷ (chars_of r.texts ++ end_tag (codes "t") ∷ runs_tokens rs))
      (all_idle_quiet r.lead lead)
      (all-join (chars_of r.texts) (end_tag (codes "t") ∷ runs_tokens rs) (chars_quiet r.texts)
        (runs_quiet rs rest))

value_quiet : (v : Value) → value_is_fine v ≡ true → all is_quiet (value_tokens v) ≡ true
unfolding all value_tokens value_is_fine text_eq
value_quiet no_value h = refl
value_quiet (plain attrs ts) h =
    all-join (chars_of ts) (end_tag (codes "v") ∷ []) (chars_quiet ts) refl
value_quiet (inline attrs rs tail) h =
    let (runs, rest) = &&-true (runs_are_fine rs) (all is_idle tail) h in
    all-join (runs_tokens rs) (tail ++ end_tag (codes "is") ∷ []) (runs_quiet rs runs)
      (all-join tail (end_tag (codes "is") ∷ []) (all_idle_quiet tail rest) refl)

pub cells_quiet :
    (cs : List Cell) → cells_are_fine cs ≡ true → all is_quiet (cells_tokens cs) ≡ true
unfolding all cells_tokens cell_tokens cells_are_fine text_eq
cells_quiet [] h = refl
cells_quiet (c ∷ cs) h =
    let (lead, h1) = &&-true (all is_idle c.lead) _ h in
    let (before, h2) = &&-true (all is_idle c.before) _ h1 in
    let (value, h3) = &&-true (value_is_fine c.value) _ h2 in
    let (tail, rest) = &&-true (all is_idle c.tail) _ h3 in
    let close = end_tag (codes "c") ∷ [] in
    all-join (cell_tokens c) (cells_tokens cs)
      (all-join c.lead
        (start_tag (codes "c") c.attrs ∷ (c.before ++ (value_tokens c.value ++ (c.tail ++ close))))
        (all_idle_quiet c.lead lead)
        (all-join c.before (value_tokens c.value ++ (c.tail ++ close))
          (all_idle_quiet c.before before)
          (all-join (value_tokens c.value) (c.tail ++ close) (value_quiet c.value value)
            (all-join c.tail close (all_idle_quiet c.tail tail) refl))))
      (cells_quiet cs rest)

pub row_quiet :
    (r : Row)
    → all is_idle r.lead ≡ true
    → cells_are_fine r.cells ≡ true
    → all is_idle r.tail ≡ true
    → all is_quiet (row_tokens r) ≡ true
unfolding all row_tokens
row_quiet r lead cells tail =
    all-join r.lead (start_tag (codes "row") r.attrs ∷ (cells_tokens r.cells ++ r.tail))
      (all_idle_quiet r.lead lead)
      (all-join (cells_tokens r.cells) r.tail (cells_quiet r.cells cells)
        (all_idle_quiet r.tail tail))

module _ (shared : List Text) where
  step-quiet :
      (s : SheetState) (t : Token) → is_quiet t ≡ true → (sheet_step shared s t).out ≡ s.out
  unfolding sheet_step sheet_start sheet_end
  step-quiet s (start_tag name attrs) h = ground arith
  step-quiet s (end_tag name) h = ground arith
  step-quiet s (chars t) h = ground arith
  step-quiet s other_token h = refl

  abbrev pub loop : List Token → Option FormatError → SheetState → SheetState × ScanEnd
  loop = scan skips_none (sheet_step shared) sheet_full none

  pub loop-next :
      (t : Token) (ts : List Token) (failure : Option FormatError) (s : SheetState)
      → sheet_full (sheet_step shared s t) ≡ false
      → loop (t ∷ ts) failure s ≡ loop ts failure (sheet_step shared s t)
  unfolding scan
  loop-next (start_tag name attrs) ts failure s room = rw room refl
  loop-next (end_tag name) ts failure s room = rw room refl
  loop-next (chars t) ts failure s room = rw room refl
  loop-next other_token ts failure s room = rw room refl

  -- With room, quiet tokens are read in order.
  pub loop-quiet :
      (ts rest : List Token) (failure : Option FormatError) (s : SheetState)
      → all is_quiet ts ≡ true
      → full s.out ≡ false
      → loop (ts ++ rest) failure s ≡ loop rest failure (after shared ts s)
  unfolding all after
  loop-quiet [] rest failure s h room = refl
  loop-quiet (t ∷ ts) rest failure s h room =
      let (one, others) = &&-true (is_quiet t) (all is_quiet ts) h in
      let room' : full (sheet_step shared s t).out ≡ false = ap full (step-quiet s t one) ∙ room in
      loop-next t (ts ++ rest) failure s room'
      ∙ loop-quiet ts rest failure (sheet_step shared s t) others room'
