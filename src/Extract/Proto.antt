-- ===== src/Extract/Proto.antt =====
-- backend/internal/extract/iwork.go: eachField, over the reader of protocol buffers in package
-- protowire, whose answers are the parameter `wire`.
pub mod Streams
use findo.Prelude.{
  ℕ, zero, suc, Option, none, some, List, [], ◌∷◌, leb, if◌then◌else◌, Text, drop, length, ◌≡◌, ◌≤◌,
}

-- The error values of the readers of iWork files.
pub data FormatError : Type 0 where
  malformed_tag unsupported_wire_type malformed_field bad_archive_header_length : FormatError
  message_too_long truncated_chunk_header not_a_chunk chunk_too_large : FormatError
  truncated_chunk bad_snappy part_too_large not_opened no_document : FormatError
  bad_xml no_slides : FormatError

pub data WireType : Type 0 where
  varint_type bytes_type fixed32_type fixed64_type other_type : WireType

-- ConsumeTag, ConsumeVarint and ConsumeBytes: what is read and the number of bytes that it took;
-- none for a negative number.
pub record Protowire : Type 0 where
  pub consume_tag : Text → Option (ℕ × WireType × ℕ)
  pub consume_varint : Text → Option (ℕ × ℕ)
  pub consume_bytes : Text → Option (Text × ℕ)

-- What is used of protowire: a tag or a number that was read took a byte at least.
pub record IsProtowire (wire : Protowire) : Type 0 where
  pub tag_moves :
      (b : Text) (num : ℕ) (t : WireType) (k : ℕ) → wire.consume_tag b ≡ some (num, t, k) → 1 ≤ k
  pub varint_moves : (b : Text) (x k : ℕ) → wire.consume_varint b ≡ some (x, k) → 1 ≤ k

-- What fn is called with: v is nil but for a field of bytes.
pub record Field : Type 0 where
  pub num : ℕ
  pub x : ℕ
  pub v : Option Text

pub data Value : Type 0 where
  refused : FormatError → Value
  value : ℕ → Option Text → ℕ → Value

abbrev within : Text → ℕ → Option Text → ℕ → Value
within b x v k = if leb k (length b) then value x v k else refused malformed_field

abbrev of_varint : Text → Option (ℕ × ℕ) → Value
of_varint b none = refused malformed_field
of_varint b (some (x, k)) = within b x none k

abbrev of_bytes : Text → Option (Text × ℕ) → Value
of_bytes b none = refused malformed_field
of_bytes b (some (v, k)) = within b 0 (some v) k

module _ (wire : Protowire) where
  -- The switch on the type of a field.
  unfoldable pub read_value : WireType → Text → Value
  read_value varint_type b = of_varint b (wire.consume_varint b)
  read_value bytes_type b = of_bytes b (wire.consume_bytes b)
  read_value fixed32_type b = within b 0 none 4
  read_value fixed64_type b = within b 0 none 8
  read_value other_type b = refused unsupported_wire_type

  module _ {ℓ} {S : Type ℓ} (fn : S → Field → S × Option FormatError) where
    abbrev pub next_field :
        (Text → S → S × Option FormatError) → Text → S × Option FormatError → S × Option FormatError
    next_field next b (s, some e) = (s, some e)
    next_field next b (s, none) = next b s

    abbrev pub after_value :
        (Text → S → S × Option FormatError) → ℕ → Text → S → Value → S × Option FormatError
    after_value next num b s (refused e) = (s, some e)
    after_value next num b s (value x v k) =
        next_field next (drop k b) (fn s (record { num = num; x = x; v = v }))

    abbrev pub after_tag :
        (Text → S → S × Option FormatError)
        → Text
        → S
        → Option (ℕ × WireType × ℕ)
        → S × Option FormatError
    after_tag next b s none = (s, some malformed_tag)
    after_tag next b s (some (num, t, k)) =
        after_value next num (drop k b) s (read_value t (drop k b))

    -- The loop of eachField: `s` is what fn has set so far.
    unfoldable pub field_loop : ℕ → Text → S → S × Option FormatError
    unfolding read_value
    field_loop zero b s = (s, none)
    field_loop (suc fuel) [] s = (s, none)
    field_loop (suc fuel) (c ∷ b) s =
        after_tag (field_loop fuel) (c ∷ b) s (wire.consume_tag (c ∷ b))

    unfoldable pub each_field : Text → S → S × Option FormatError
    unfolding field_loop
    each_field b s = field_loop (length b) b s
