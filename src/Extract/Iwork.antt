-- ===== src/Extract/Iwork.antt =====
-- backend/internal/extract/iwork.go: the messages of an iWork archive that carry text. What the
-- source emits is the list that a handler returns beside its error.
pub mod Parts
pub mod Archive
use findo.Prelude.{
  ℕ, zero, suc, ◌-◌, Bool, true, false, not, ◌&&◌, ◌||◌, Option, none, some, List, [], ◌∷◌, ◌++◌,
  map, filter, leb, ltb, ◌==◌, if◌then◌else◌, Text, take, drop, length,
}
use findo.Strings.{split, non_empty}
use findo.Strings.Runes.{trim_space}
use findo.Extract.Sink.{strip_controls, valid}
use findo.Extract.Proto.{
  FormatError, bad_archive_header_length, message_too_long, Protowire, Field, each_field,
}

-- U+FFFC marks where an image or a table sits.
unfoldable pub remove_marks : Text → Text
remove_marks (a ∷ b ∷ c ∷ s) =
    let rest = remove_marks (b ∷ c ∷ s) in
    let after = remove_marks s in
    if (a == 239) && ((b == 191) && (c == 188)) then after else a ∷ rest
remove_marks s = s

-- What a handler hands on, and its error.
abbrev pub EmittedOf : Type 0 → Type 0
EmittedOf A = List A × Option FormatError

abbrev pub Emitted : Type 0
Emitted = EmittedOf Text

abbrev pub HandlerOf : Type 0 → Type 0
HandlerOf A = ℕ → ℕ → Text → EmittedOf A

abbrev pub MessageFunc : Type 0
MessageFunc = HandlerOf Text

abbrev pub bytes_of : Option Text → Text
bytes_of none = []
bytes_of (some v) = v

abbrev pub emit_value : List Text → Option Text → List Text
emit_value out none = out
emit_value out (some v) = out ++ v ∷ []

-- text = append(text, v...) after a newline; a nil text is an empty one
abbrev pub append_text : Text → Text → Text
append_text [] v = v
append_text (c ∷ t) v = (c ∷ t) ++ 10 ∷ v

unfoldable pub lines_in : Text → List Text
unfolding split non_empty remove_marks strip_controls trim_space
lines_in text =
    non_empty (map trim_space (split (λ c. c == 10) (remove_marks (strip_controls text))))

pub record Storage : Type 0 where
  pub kind : ℕ
  pub text : Text

abbrev pub storage_field : Storage → Field → Storage × Option FormatError
storage_field s f =
    if f.num == 1
    then (record s { kind = f.x }, none)
    else if f.num == 3
    then (record s { text = append_text s.text (bytes_of f.v) }, none)
    else (s, none)

abbrev pub lines_of_storage : Storage × Option FormatError → ℕ × Emitted
lines_of_storage (s, some e) = (s.kind, ([], some e))
lines_of_storage (s, none) = (s.kind, (if valid s.text then lines_in s.text else [], none))

pub record DataList : Type 0 where
  pub list_type : ℕ
  pub entries : List Text

abbrev pub list_field : DataList → Field → DataList × Option FormatError
list_field s f =
    if f.num == 1
    then (record s { list_type = f.x }, none)
    else if f.num == 3
    then (record s { entries = s.entries ++ bytes_of f.v ∷ [] }, none)
    else (s, none)

pub record ListEntry : Type 0 where
  pub refs : ℕ
  pub text : Option Text

abbrev pub entry_field : ListEntry → Field → ListEntry × Option FormatError
entry_field s f =
    if f.num == 2
    then (record s { refs = f.x }, none)
    else if f.num == 3
    then (record s { text = f.v }, none)
    else (s, none)

abbrev pub emit_entry : List Text → ListEntry → List Text
emit_entry out e = if ltb 0 e.refs then emit_value out e.text else out

abbrev pub header_kind : ℕ
header_kind = 1

-- What is left of the archive, and what was emitted.
pub record Walk (A : Type 0) : Type 0 where
  pub rest : Text
  pub out : List A

abbrev pub body_lines : ℕ × Emitted → Emitted
body_lines (kind, (lines, e)) = (if kind == header_kind then [] else lines, e)

abbrev pub trimmed : Emitted → Emitted
trimmed (out, e) = (map trim_space out, e)

-- The type and the length in a message_info.
abbrev pub info_field : ℕ × ℕ → Field → (ℕ × ℕ) × Option FormatError
info_field (typ, len) f =
    if f.num == 1
    then ((f.x, len), none)
    else if f.num == 3
    then ((typ, f.x), none)
    else ((typ, len), none)

abbrev pub emitted : {A : Type 0} → Walk A → EmittedOf A → Walk A × Option FormatError
emitted w (out, e) = (record w { out = w.out ++ out }, e)

abbrev pub payload_of :
    {A : Type 0}
    → HandlerOf A
    → ℕ
    → Walk A
    → (ℕ × ℕ) × Option FormatError
    → Walk A × Option FormatError
payload_of handle id w (_, some e) = (w, some e)
payload_of handle id w ((typ, len), none) =
    if ltb (length w.rest) len
    then (w, some message_too_long)
    else emitted (record w { rest = drop len w.rest }) (handle id typ (take len w.rest))

abbrev pub next_archive :
    {A : Type 0} → (Walk A → EmittedOf A) → Walk A × Option FormatError → EmittedOf A
next_archive next (w, some e) = (w.out, some e)
next_archive next (w, none) = next w

module _ (wire : Protowire) where
  unfoldable pub string_field : Text → ℕ → Emitted
  unfolding each_field
  string_field payload num =
      each_field wire
        (λ (out : List Text) (f : Field). (if f.num == num then emit_value out f.v else out, none))
        payload []

  unfoldable pub storage_lines : Text → ℕ × Emitted
  unfolding each_field lines_in valid
  storage_lines payload =
      lines_of_storage (each_field wire storage_field payload (record { kind = 0; text = [] }))

  -- The entries of a list of strings; one that is malformed ends them.
  abbrev pub then_entry :
      (List Text → Emitted) → List Text → ListEntry × Option FormatError → Emitted
  then_entry next out (e, some x) = (out, some x)
  then_entry next out (e, none) = next (emit_entry out e)

  unfoldable pub entries_text : List Text → List Text → Emitted
  unfolding each_field
  entries_text [] out = (out, none)
  entries_text (e ∷ es) out =
      then_entry (entries_text es) out
        (each_field wire entry_field e (record { refs = 1; text = none }))

  abbrev pub list_text : DataList × Option FormatError → Emitted
  list_text (s, some e) = ([], some e)
  list_text (s, none) = if s.list_type == 1 then entries_text s.entries [] else ([], none)

  unfoldable pub data_list_text : Text → Emitted
  unfolding each_field entries_text
  data_list_text payload =
      list_text (each_field wire list_field payload (record { list_type = 0; entries = [] }))

  unfoldable pub numbers_message : MessageFunc
  unfolding string_field data_list_text
  numbers_message id typ payload =
      if typ == 2
      then string_field payload 1
      else if typ == 6001
      then string_field payload 8
      else if typ == 6005
      then data_list_text payload
      else ([], none)

  unfoldable pub pages_message : MessageFunc
  unfolding string_field data_list_text storage_lines trim_space
  pages_message id typ payload =
      if typ == 2001
      then body_lines (storage_lines payload)
      else if typ == 3056
      then trimmed (string_field payload 1)
      else if typ == 6001
      then string_field payload 8
      else if typ == 6005
      then data_list_text payload
      else ([], none)

  unfoldable pub message_info :
      {A : Type 0} → HandlerOf A → ℕ → Walk A → Field → Walk A × Option FormatError
  unfolding each_field
  message_info handle id w f =
      if f.num == 2
      then payload_of handle id w (each_field wire info_field (bytes_of f.v) (0, 0))
      else (w, none)

  -- The object id in an ArchiveInfo; a malformed one keeps what was read.
  unfoldable pub object_id : Text → ℕ
  unfolding each_field
  object_id info =
      (each_field wire (λ (id : ℕ) (f : Field). (if f.num == 1 then f.x else id, none)) info 0).0

  unfoldable pub archive : {A : Type 0} → HandlerOf A → Text → Walk A → Walk A × Option FormatError
  unfolding each_field object_id message_info
  archive handle info w = each_field wire (message_info handle (object_id info)) info w

  abbrev pub after_length :
      {A : Type 0} → (Walk A → EmittedOf A) → HandlerOf A → Walk A → Option (ℕ × ℕ) → EmittedOf A
  after_length next handle w none = (w.out, some bad_archive_header_length)
  after_length next handle w (some (n, k)) =
      if ltb (length w.rest - k) n
      then (w.out, some bad_archive_header_length)
      else next_archive next
          (archive handle (take n (drop k w.rest)) (record w { rest = drop n (drop k w.rest) }))

  unfoldable pub walk_loop : {A : Type 0} → ℕ → HandlerOf A → Walk A → EmittedOf A
  unfolding archive
  walk_loop zero handle w = (w.out, none)
  walk_loop (suc fuel) handle w =
      if length w.rest == 0
      then (w.out, none)
      else after_length (walk_loop fuel handle) handle w (wire.consume_varint w.rest)

  unfoldable pub walk_archive : {A : Type 0} → HandlerOf A → Text → EmittedOf A
  unfolding walk_loop
  walk_archive handle b = walk_loop (length b) handle (record { rest = b; out = [] })
