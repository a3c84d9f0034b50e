-- ===== src/Extract/Iwork/Parts.antt =====
-- backend/internal/extract/iwork.go: the parts of a package and the chunks of a part. Snappy's
-- answers are the parameters `decoded_len` and `decode`.
pub mod Chunks
pub mod Damaged
use findo.Prelude.{
  ℕ, zero, suc, ◌+◌, ◌-◌, ◌*◌, Bool, true, false, not, ◌&&◌, Option, none, some, List, [], ◌∷◌,
  ◌++◌, codes, any, find, filter, leb, ltb, ◌==◌, if◌then◌else◌, Text, text_eq, take, drop, length,
}
use findo.Strings.{has_prefix}
use findo.Index.Content.{text_le}
use findo.Extract.Sink.{Sink, full, write, text, valid}
use findo.Extract.Proto.{
  Protowire, FormatError, truncated_chunk_header, not_a_chunk, chunk_too_large, truncated_chunk,
  bad_snappy, part_too_large, not_opened, no_document,
}
use findo.Extract.Iwork.{MessageFunc, Emitted, walk_archive, numbers_message, pages_message}

abbrev pub max_iwa_chunk : ℕ
max_iwa_chunk = 1048576

abbrev pub max_iwa_bytes : ℕ
max_iwa_bytes = 67108864

-- What the reader of an opened part gives: bytes, and then the end or an error.
pub record Stream : Type 0 where
  pub bytes : Text
  pub failure : Option FormatError

-- An entry of the package; none if it cannot be opened.
pub record Part : Type 0 where
  pub name : Text
  pub opened : Option Stream

pub data Decoded : Type 0 where
  decoded : Text → Decoded
  undecoded : FormatError → Decoded

pub data FullRead : Type 0 where
  got : Text → Text → FullRead
  at_end cut_short : FullRead

abbrev ended : Text → Option FormatError → FullRead
ended [] none = at_end
ended [] (some e) = cut_short
ended (c ∷ b) e = cut_short

-- io.ReadFull, and what is left to read
unfoldable pub read_full : ℕ → Option FormatError → Text → FullRead
read_full n failure b = if leb n (length b) then got (take n b) (drop n b) else ended b failure

-- binary.LittleEndian.Uint32(hdr) >> 8, where the first byte is 0
abbrev pub chunk_length : Text → ℕ
chunk_length (h ∷ a ∷ b ∷ c ∷ _) = a + 256 * b + 65536 * c
chunk_length _ = 0

abbrev pub starts_with_zero : Text → Bool
starts_with_zero [] = false
starts_with_zero (h ∷ _) = h == 0

module _ (decoded_len : Text → Option ℕ) (decode : Text → Option Text) where
  abbrev pub append_decoded : (Text → Decoded) → Text → Option Text → Decoded
  append_decoded next out none = undecoded bad_snappy
  append_decoded next out (some d) = next (out ++ d)

  -- The declared size is checked before the block is decoded.
  abbrev pub check_size : (Text → Decoded) → Text → Text → Option ℕ → Decoded
  check_size next comp out none = undecoded bad_snappy
  check_size next comp out (some dn) =
      if ltb max_iwa_chunk dn
      then undecoded part_too_large
      else if ltb max_iwa_bytes (length out + dn)
      then undecoded part_too_large
      else append_decoded next out (decode comp)

  abbrev pub after_chunk : (Text → Text → Decoded) → Text → FullRead → Decoded
  after_chunk next out (got comp b) = check_size (next b) comp out (decoded_len comp)
  after_chunk next out at_end = undecoded truncated_chunk
  after_chunk next out cut_short = undecoded truncated_chunk

  abbrev pub after_header : (Text → Text → Decoded) → Option FormatError → Text → FullRead → Decoded
  after_header next failure out at_end = decoded out
  after_header next failure out cut_short = undecoded truncated_chunk_header
  after_header next failure out (got hdr b) =
      if starts_with_zero hdr
      then if ltb max_iwa_chunk (chunk_length hdr)
        then undecoded chunk_too_large
        else after_chunk next out (read_full (chunk_length hdr) failure b)
      else undecoded not_a_chunk

  -- The loop of readIWA: each round reads a header of four bytes at least.
  unfoldable pub chunk_loop : ℕ → Option FormatError → Text → Text → Decoded
  unfolding read_full
  chunk_loop zero failure b out = undecoded truncated_chunk_header
  chunk_loop (suc fuel) failure b out =
      after_header (chunk_loop fuel failure) failure out (read_full 4 failure b)

  unfoldable pub read_iwa : Option Stream → Decoded
  unfolding chunk_loop
  read_iwa none = undecoded not_opened
  read_iwa (some s) = chunk_loop (suc (length s.bytes)) s.failure s.bytes []

-- A name of the form prefix[^/]*.iwa
unfoldable pub is_iwa_of : Text → Text → Bool
unfolding has_prefix any
is_iwa_of prefix name =
    let rest = drop (length prefix) name in
    has_prefix name prefix
    && (not (any (λ c. c == b'/') rest)
        && (leb 4 (length rest) && text_eq (drop (length rest - 4) rest) (codes ".iwa")))

unfoldable pub insert_part : Part → List Part → List Part
unfolding text_le
insert_part p [] = p ∷ []
insert_part p (q ∷ ps) = if text_le p.name q.name then p ∷ q ∷ ps else q ∷ insert_part p ps

-- Parts in the order of their names; those of one name keep theirs.
unfoldable pub by_name : List Part → List Part
unfolding insert_part
by_name [] = []
by_name (p ∷ ps) = insert_part p (by_name ps)

abbrev pub is_calc : Part → Bool
is_calc p = is_iwa_of (codes "Index/CalculationEngine") p.name

abbrev pub is_data_list : Part → Bool
is_data_list p = is_iwa_of (codes "Index/Tables/DataList") p.name

unfoldable pub table_parts : List Part → List Part
unfolding by_name filter is_iwa_of
table_parts zr =
    by_name (filter is_calc zr) ++ by_name (filter (λ p. not (is_calc p) && is_data_list p) zr)

unfoldable pub find_part : List Part → Text → Option Part
unfolding find text_eq
find_part zr name = find (λ (f : Part). text_eq f.name name) zr

-- lineEmitter: each string that is not empty and is valid, on its own line
unfoldable pub emit_line : Text → Sink → Sink
unfolding valid write
emit_line [] out = out
emit_line (c ∷ s) out = if valid (c ∷ s) then write (10 ∷ []) (write (c ∷ s) out) else out

unfoldable pub emit_lines : List Text → Sink → Sink
unfolding emit_line
emit_lines [] out = out
emit_lines (s ∷ ss) out = emit_lines ss (emit_line s out)

pub data Extracted : Type 0 where
  extracted : Text → Extracted
  failed : Text → FormatError → Extracted

-- The text so far, and the first part that was damaged with its error.
pub record Reading : Type 0 where
  pub out : Sink
  pub first_err : Option (Text × FormatError)

abbrev pub first_of :
    Option (Text × FormatError) → Text → Option FormatError → Option (Text × FormatError)
first_of (some e) name r = some e
first_of none name none = none
first_of none name (some e) = some (name, e)

abbrev pub finish : Reading → Extracted
finish r = elim r.first_err [
  | none ↦ extracted (text r.out)
  | some (name, e) ↦ if length r.out.bytes == 0 then failed name e else extracted (text r.out)
]

module _ (decoded_len : Text → Option ℕ) (decode : Text → Option Text)
    (walk : MessageFunc → Text → Emitted) (handle : MessageFunc) where
  abbrev pub walk_decoded : Decoded → Emitted
  walk_decoded (decoded b) = walk handle b
  walk_decoded (undecoded e) = ([], some e)

  unfoldable pub read_messages : Part → Emitted
  unfolding read_iwa
  read_messages f = walk_decoded (read_iwa decoded_len decode f.opened)

  abbrev pub read_part : Part → Reading → Reading
  read_part f r = record {
    out = emit_lines (read_messages f).0 r.out;
    first_err = first_of r.first_err f.name (read_messages f).1;
  }

  unfoldable pub read_parts : List Part → Reading → Reading
  unfolding full emit_lines read_messages
  read_parts [] r = r
  read_parts (f ∷ fs) r = let rest = read_parts fs (read_part f r) in if full r.out then r else rest

  abbrev pub extract_document : List Part → ℕ → Option Part → Extracted
  extract_document zr max none = failed (codes "Index/Document.iwa") no_document
  extract_document zr max (some doc) = finish (
      read_parts (doc ∷ table_parts zr)
        (record { out = record { bytes = []; max = max }; first_err = none }))

  -- extractIWork on the entries of the package that openPackage returned
  unfoldable pub extract_iwork : List Part → ℕ → Extracted
  unfolding read_parts table_parts find_part text
  extract_iwork zr max = extract_document zr max (find_part zr (codes "Index/Document.iwa"))

module _ (wire : Protowire) (decoded_len : Text → Option ℕ) (decode : Text → Option Text) where
  unfoldable pub extract_numbers : List Part → ℕ → Extracted
  unfolding extract_iwork walk_archive numbers_message
  extract_numbers = extract_iwork decoded_len decode (walk_archive wire) (numbers_message wire)

  unfoldable pub extract_pages : List Part → ℕ → Extracted
  unfolding extract_iwork walk_archive pages_message
  extract_pages = extract_iwork decoded_len decode (walk_archive wire) (pages_message wire)
