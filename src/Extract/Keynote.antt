-- ===== src/Extract/Keynote.antt =====
-- backend/internal/extract/keynote.go, over the archives of Iwork. What the handlers set is the list
-- that they hand on.
pub mod Order
use findo.Prelude.{
  ℕ, suc, ◌+◌, Bool, true, false, Option, none, some, List, [], ◌∷◌, ◌++◌, map, filter, leb, ◌==◌,
  if◌then◌else◌, Text, codes, length,
}
use findo.Prelude.Sorts.{sort_by_key}
use findo.Extract.Sink.{Sink, full, text}
use findo.Extract.Proto.{FormatError, no_document, Protowire, Field, each_field}
use findo.Extract.Iwork.{
  EmittedOf, HandlerOf, bytes_of, storage_lines, string_field, trimmed, numbers_message,
  walk_archive,
}
use findo.Extract.Iwork.Parts.{
  Part, Decoded, decoded, undecoded, read_iwa, is_iwa_of, by_name, table_parts, find_part,
  emit_lines, Extracted, extracted, failed, read_messages,
}

pub data ShowEvent : Type 0 where
  node : ℕ → ShowEvent
  slide_of : ℕ → ℕ → ShowEvent

pub data SlideEvent : Type 0 where
  slide_id : ℕ → SlideEvent
  slide_line note_line : Text → SlideEvent

pub record Slide : Type 0 where
  pub id : ℕ
  pub lines : List Text
  pub notes : List Text

-- Object ids and their positions, the last one set first.
abbrev pub Positions : Type 0
Positions = List (ℕ × ℕ)

unfoldable pub find_id : ℕ → Positions → Option ℕ
find_id id [] = none
find_id id ((k, v) ∷ m) = if k == id then some v else find_id id m

abbrev pub is_set : Option ℕ → Bool
is_set none = false
is_set (some v) = true

-- len(order)
unfoldable pub count_ids : Positions → ℕ
unfolding find_id
count_ids [] = 0
count_ids ((k, v) ∷ m) = if is_set (find_id k m) then count_ids m else suc (count_ids m)

-- slideOf[n], 0 where it is not set
abbrev pub slide_or_zero : Option ℕ → ℕ
slide_or_zero none = 0
slide_or_zero (some v) = v

unfoldable pub nodes_of : List ShowEvent → List ℕ
nodes_of [] = []
nodes_of (node n ∷ es) = n ∷ nodes_of es
nodes_of (slide_of id s ∷ es) = nodes_of es

unfoldable pub slides_of : List ShowEvent → Positions → Positions
slides_of [] m = m
slides_of (node n ∷ es) m = slides_of es m
slides_of (slide_of id s ∷ es) m = slides_of es ((id, s) ∷ m)

-- for i, n := range nodes { order[slideOf[n]] = i }
unfoldable pub number_nodes : Positions → ℕ → List ℕ → Positions → Positions
unfolding find_id
number_nodes slide i [] order = order
number_nodes slide i (n ∷ ns) order =
    number_nodes slide (suc i) ns ((slide_or_zero (find_id n slide), i) ∷ order)

abbrev pub order_of : EmittedOf ShowEvent → Positions
unfolding number_nodes nodes_of slides_of
order_of (es, some e) = []
order_of (es, none) = number_nodes (slides_of es []) 0 (nodes_of es) []

-- pos: slides that are missing from the show have the number of those in it.
unfoldable pub position : Positions → ℕ → ℕ
unfolding find_id count_ids
position order id = elim (find_id id order) [ none ↦ count_ids order | some i ↦ i ]

abbrev pub add_event : Slide → SlideEvent → Slide
add_event s (slide_id id) = if s.id == 0 then record s { id = id } else s
add_event s (slide_line l) = record s { lines = s.lines ++ l ∷ [] }
add_event s (note_line l) = record s { notes = s.notes ++ l ∷ [] }

unfoldable pub add_events : Slide → List SlideEvent → Slide
add_events s [] = s
add_events s (e ∷ es) = add_events (add_event s e) es

unfoldable pub size_of : List Text → ℕ
size_of [] = 0
size_of (l ∷ ls) = length l + size_of ls

-- A damaged slide does not cost the others.
abbrev pub slide_from : EmittedOf SlideEvent → Option Slide
unfolding add_events
slide_from (es, some e) = none
slide_from (es, none) = some (add_events (record { id = 0; lines = []; notes = [] }) es)

abbrev pub note_kind : ℕ
note_kind = 4

abbrev pub storage_events : ℕ × EmittedOf Text → EmittedOf SlideEvent
storage_events (kind, (lines, e)) =
    (map (λ (l : Text). if kind == note_kind then note_line l else slide_line l) lines, e)

abbrev pub comment_events : EmittedOf Text → EmittedOf SlideEvent
comment_events (out, e) = (map slide_line out, e)

abbrev pub add_slide : ℕ → (ℕ → List Slide) → Option Slide → List Slide
unfolding size_of
add_slide collected next none = next collected
add_slide collected next (some s) = s ∷ next (collected + (size_of s.lines + size_of s.notes))

abbrev pub slide_lines : Slide → List Text
slide_lines s = s.lines ++ s.notes

unfoldable pub emit_slides : List Slide → Sink → Sink
unfolding emit_lines
emit_slides [] out = out
emit_slides (s ∷ ss) out = emit_slides ss (emit_lines (slide_lines s) out)

unfoldable pub in_order : Positions → List Slide → List Slide
unfolding position
in_order order slides = sort_by_key (λ (s : Slide). position order s.id) slides

module _ (wire : Protowire) where
  unfoldable pub ref_id : Text → ℕ
  unfolding each_field
  ref_id ref =
      (each_field wire (λ (id : ℕ) (f : Field). (if f.num == 1 then f.x else id, none)) ref 0).0

  abbrev pub tree_field : List ShowEvent → Field → EmittedOf ShowEvent
  unfolding ref_id
  tree_field out f = (if f.num == 2 then out ++ node (ref_id (bytes_of f.v)) ∷ [] else out, none)

  abbrev pub show_field : List ShowEvent → Field → EmittedOf ShowEvent
  unfolding each_field tree_field
  show_field out f =
      if f.num == 3 then each_field wire tree_field (bytes_of f.v) out else (out, none)

  abbrev pub node_field : ℕ → List ShowEvent → Field → EmittedOf ShowEvent
  unfolding ref_id
  node_field id out f =
      (if f.num == 2 then out ++ slide_of id (ref_id (bytes_of f.v)) ∷ [] else out, none)

  unfoldable pub show_message : HandlerOf ShowEvent
  unfolding each_field show_field node_field
  show_message id typ payload =
      if typ == 2
      then each_field wire show_field payload []
      else if typ == 4
      then each_field wire (node_field id) payload []
      else ([], none)

  unfoldable pub slide_order : Text → Positions
  unfolding walk_archive show_message order_of
  slide_order doc = order_of (walk_archive wire show_message doc)

  unfoldable pub slide_message : HandlerOf SlideEvent
  unfolding storage_lines string_field
  slide_message id typ payload =
      if typ == 5
      then (slide_id id ∷ [], none)
      else if typ == 2001
      then storage_events (storage_lines wire payload)
      else if typ == 3056
      then comment_events (trimmed (string_field wire payload 1))
      else ([], none)

  module _ (decoded_len : Text → Option ℕ) (decode : Text → Option Text) where
    abbrev pub walk_slide : Decoded → EmittedOf SlideEvent
    unfolding walk_archive slide_message
    walk_slide (decoded b) = walk_archive wire slide_message b
    walk_slide (undecoded e) = ([], some e)

    -- The loop over the slides' parts; `collected` is the text held so far.
    unfoldable pub read_slides : ℕ → List Part → ℕ → List Slide
    unfolding walk_slide slide_from add_slide read_iwa
    read_slides max [] collected = []
    read_slides max (f ∷ fs) collected =
        let rest =
          add_slide collected (read_slides max fs)
            (slide_from (walk_slide (read_iwa decoded_len decode f.opened))) in
        if leb max collected then [] else rest

    -- The tables; a damaged part keeps what it gave before.
    unfoldable pub emit_tables : List Part → Sink → Sink
    unfolding emit_lines read_messages full walk_archive numbers_message
    emit_tables [] out = out
    emit_tables (f ∷ fs) out =
        let rest = emit_tables fs (
          emit_lines
            (read_messages decoded_len decode (walk_archive wire) (numbers_message wire) f).0
            out) in
        if full out then out else rest

    abbrev pub with_show : List Part → ℕ → Decoded → Extracted
    unfolding slide_order read_slides emit_slides emit_tables in_order table_parts by_name is_iwa_of
        text
    with_show zr max (undecoded e) = failed [] e
    with_show zr max (decoded doc) =
        let slides =
          read_slides max
            (by_name (filter (λ (f : Part). is_iwa_of (codes "Index/Slide") f.name) zr)) 0 in
        extracted (
          text (
            emit_tables (table_parts zr)
              (emit_slides (in_order (slide_order doc) slides) (record { bytes = []; max = max }))))

    abbrev pub with_document_part : List Part → ℕ → Option Part → Extracted
    unfolding with_show read_iwa
    with_document_part zr max none = failed (codes "Index/Document.iwa") no_document
    with_document_part zr max (some doc) = with_show zr max (read_iwa decoded_len decode doc.opened)

    unfoldable pub extract_keynote : List Part → ℕ → Extracted
    unfolding find_part with_document_part
    extract_keynote zr max = with_document_part zr max (find_part zr (codes "Index/Document.iwa"))
