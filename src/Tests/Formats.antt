-- ===== src/Tests/Formats.antt =====
-- The readers of file formats at concrete inputs.
use findo.Prelude.{
  ℕ, ◌+◌, ◌/◌, ◌%◌, ◌≤◌, ◌≡◌, refl, Option, none, some, List, [], ◌∷◌, arith, ltb, leb, ◌==◌,
  if◌then◌else◌, Text, codes, take, length, All, inl, inr, Bool-cases,
}
use findo.Extract.Sink.{Sink, strip_controls}
use findo.Extract.Sink.Clean.{IsPrinted, strip_controls-IsClean}
use findo.Extract.Proto.{
  FormatError, WireType, varint_type, bytes_type, other_type, Protowire, IsProtowire, Field,
  each_field,
}
use findo.Extract.Proto.Streams.{Parses, visit, each_field_visits}
use findo.Extract.Iwork.{walk_archive, numbers_message, entry_field, ListEntry}
use findo.Extract.Iwork.Parts.{
  Part, Stream, read_iwa, decoded, extract_iwork, table_parts, find_part,
}
use findo.Extract.Iwork.Parts.Chunks.{Chunk, framed, contents, IsWritten, read_iwa_round_trip}
use findo.Extract.Keynote.{slide_order, position}
use findo.Extract.Iwork.Parts.Damaged.{kept, lines_of, first_error, outcome, extract_iwork_keeps}

strip_controls-IsClean_example : All IsPrinted (strip_controls (97 ∷ 2 ∷ 255 ∷ 10 ∷ []))
strip_controls-IsClean_example = strip_controls-IsClean (97 ∷ 2 ∷ 255 ∷ 10 ∷ [])

-- The cap is inside the second rune.
abbrev sink : Sink
sink = record { bytes = 97 ∷ 195 ∷ 169 ∷ 98 ∷ []; max = 2 }

-- A wire of small numbers: a tag and a number are a byte each, and so is a length.
abbrev small_type : ℕ → WireType
small_type t = if t == 0 then varint_type else if t == 2 then bytes_type else other_type

abbrev small_tag : Text → Option (ℕ × WireType × ℕ)
small_tag [] = none
small_tag (c ∷ b) = if ltb c 128 then some (c / 8, small_type (c % 8), 1) else none

abbrev small_varint : Text → Option (ℕ × ℕ)
small_varint [] = none
small_varint (c ∷ b) = if ltb c 128 then some (c, 1) else none

abbrev small_bytes : Text → Option (Text × ℕ)
small_bytes [] = none
small_bytes (c ∷ b) =
    if ltb c 128 then if leb c (length b) then some (take c b, 1 + c) else none else none

abbrev wire : Protowire
wire = record {
  consume_tag = small_tag;
  consume_varint = small_varint;
  consume_bytes = small_bytes;
}

tag_moves : (b : Text) (num : ℕ) (t : WireType) (k : ℕ) → small_tag b ≡ some (num, t, k) → 1 ≤ k
tag_moves [] num t k e = cc
tag_moves (c ∷ b) num t k e = elim (Bool-cases (ltb c 128)) [
  | inl small ↦
      let same : some (c / 8, small_type (c % 8), 1) ≡ some (num, t, k) = rw small at e in
      let one : 1 ≡ k = cc in omega arith
  | inr large ↦ let same : none ≡ some (num, t, k) = rw large at e in cc
]

varint_moves : (b : Text) (x k : ℕ) → small_varint b ≡ some (x, k) → 1 ≤ k
varint_moves [] x k e = cc
varint_moves (c ∷ b) x k e = elim (Bool-cases (ltb c 128)) [
  | inl small ↦
      let same : some (c, 1) ≡ some (x, k) = rw small at e in let one : 1 ≡ k = cc in omega arith
  | inr large ↦ let same : none ≡ some (x, k) = rw large at e in cc
]

abbrev law : IsProtowire wire
law = record { tag_moves = tag_moves; varint_moves = varint_moves }

abbrev entry : ListEntry
entry = record { refs = 1; text = none }

-- The fields 2 = 0 and 3 = "hi" of an entry.
abbrev message : Text
message = 16 ∷ 0 ∷ 26 ∷ 2 ∷ 104 ∷ 105 ∷ []

each_field_visits_example :
    (fs : List Field) × (e : Option FormatError) × Parses wire message fs e
    × (each_field wire entry_field message entry ≡ visit wire law entry_field fs e entry)
each_field_visits_example = each_field_visits wire law entry_field message entry

-- An archive with a sheet of the name "hi".
abbrev archive : Text
archive = 6 ∷ 18 ∷ 4 ∷ 8 ∷ 2 ∷ 24 ∷ 4 ∷ 10 ∷ 2 ∷ 104 ∷ 105 ∷ []

archive_text : walk_archive wire (numbers_message wire) archive ≡ (codes "hi" ∷ [], none)
unfolding walk_archive numbers_message
archive_text = refl

-- A show of the nodes 7 and 6, which are of the slides 4 and 3.
abbrev show : Text
show =
    8 ∷ 8 ∷ 1 ∷ 18 ∷ 4 ∷ 8 ∷ 2 ∷ 24 ∷ 10 ∷ 26 ∷ 8 ∷ 18 ∷ 2 ∷ 8 ∷ 7 ∷ 18 ∷ 2 ∷ 8 ∷ 6 ∷ 8 ∷ 8 ∷ 6 ∷ 18
    ∷ 4 ∷ 8 ∷ 4 ∷ 24 ∷ 4 ∷ 18 ∷ 2 ∷ 8 ∷ 3 ∷ 8 ∷ 8 ∷ 7 ∷ 18 ∷ 4 ∷ 8 ∷ 4 ∷ 24 ∷ 4 ∷ 18 ∷ 2 ∷ 8 ∷ 4
    ∷ []

show_order : slide_order wire show ≡ (3, 1) ∷ (4, 0) ∷ []
unfolding slide_order
show_order = refl

missing_last : position ((3, 1) ∷ (4, 0) ∷ []) 9 ≡ 2
unfolding position
missing_last = refl

-- Two nodes are of the slide 1, so the number of slides is the position of the last one.
missing_ties : position ((2, 2) ∷ (1, 1) ∷ (1, 0) ∷ []) 9 ≡ 2
unfolding position
missing_ties = refl

-- A compressor that compresses nothing.
abbrev stored_len : Text → Option ℕ
stored_len b = some (length b)

abbrev stored : Text → Option Text
stored b = some b

abbrev chunks : List Chunk
chunks = record { comp = archive; content = archive } ∷ []

chunks-IsWritten : All (IsWritten stored_len stored) chunks
chunks-IsWritten =
    (record { short = ground arith; small = ground arith; declared = refl; decodes = refl }, tt)

read_iwa_round_trip_example :
    read_iwa stored_len stored (some (record { bytes = framed chunks; failure = none }))
    ≡ decoded (contents chunks)
read_iwa_round_trip_example =
    read_iwa_round_trip stored_len stored chunks chunks-IsWritten (ground arith)

stored_law : (comp d : Text) → stored comp ≡ some d → stored_len comp ≡ some (length d)
stored_law comp d e = let same : comp ≡ d = cc in rw same refl

abbrev stream : Stream
stream = record { bytes = framed chunks; failure = none }

abbrev document : Part
document = record {
  name = codes "Index/Document.iwa";
  opened = some (record { bytes = 1 ∷ []; failure = none });
}

-- The document is damaged, and the calculation engine's part is not.
abbrev entries : List Part
entries =
    record { name = codes "Index/CalculationEngine-7.iwa"; opened = some stream } ∷ document ∷ []

extract_iwork_keeps_example :
    let ps = document ∷ table_parts entries in
    let walk = walk_archive wire in
    let handle = numbers_message wire in
    extract_iwork stored_len stored walk handle entries 100
    ≡ outcome stored_len stored walk handle
        (kept (lines_of stored_len stored walk handle ps))
        (first_error stored_len stored walk handle none ps)
unfolding kept lines_of table_parts find_part walk_archive numbers_message
extract_iwork_keeps_example =
    extract_iwork_keeps stored_len stored (walk_archive wire) (numbers_message wire) entries 100
      document refl (ground arith)
