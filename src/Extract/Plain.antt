-- ===== src/Extract/Plain.antt =====
-- backend/internal/extract/text.go: extractText and decodeUTF8.
pub mod Utf8
use findo.Prelude.{
  ℕ, zero, suc, ◌+◌, ◌-◌, ◌*◌, Bool, true, false, ◌&&◌, ◌||◌, Option, none, some, List, [], ◌∷◌,
  ◌++◌, any, ltb, leb, ◌==◌, if◌then◌else◌, Text, take, drop, length,
}
use findo.Strings.{trim_prefix}
use findo.Strings.Runes.{rune_width}
use findo.Extract.Sink.{valid, starts_invalid, strip_controls}

pub data TextResult : Type 0 where
  text_of : Text → TextResult
  not_text read_failed : TextResult

abbrev pub utf_max : ℕ
utf_max = 4

-- The last k bytes are one rune.
abbrev pub ends_in_rune : ℕ → Text → Bool
unfolding rune_width
ends_in_rune k b = leb k (length b) && rune_width (drop (length b - k) b) == k

abbrev pub last_byte : Text → ℕ
last_byte [] = 0
last_byte (c ∷ []) = c
last_byte (c ∷ d ∷ b) = last_byte (d ∷ b)

-- utf8.DecodeLastRune returns RuneError of width 1, for bytes that are not empty
unfoldable pub ends_invalid : Text → Bool
unfolding ends_in_rune
ends_invalid b =
    if leb 128 (last_byte b)
    then if ends_in_rune 2 b || (ends_in_rune 3 b || ends_in_rune 4 b) then false else true
    else false

-- for i := 0; i < n && len(buf) > 0; i++
unfoldable pub drop_cut : ℕ → Text → Text
unfolding ends_invalid
drop_cut zero b = b
drop_cut (suc n) [] = []
drop_cut (suc n) (c ∷ b) =
    let shorter = drop_cut n (take (length b) (c ∷ b)) in
    if ends_invalid (c ∷ b) then shorter else c ∷ b

unfoldable pub cut : ℕ → Text → Text
unfolding drop_cut
cut max b = if ltb max (length b) then drop_cut (utf_max - 1) (take max b) else b

-- Runes that are invalid bytes, and all runes; the fuel is the length.
unfoldable pub count_runes : ℕ → Text → ℕ × ℕ
unfolding rune_width
count_runes zero b = (0, 0)
count_runes (suc fuel) [] = (0, 0)
count_runes (suc fuel) (a ∷ b) =
    let (bad, total) = count_runes fuel (drop (rune_width (a ∷ b)) (a ∷ b)) in
    ((if starts_invalid (a ∷ b) then bad + 1 else bad), total + 1)

-- strings.ToValidUTF8: one replacement for each run of invalid bytes, in which `inside` is true.
unfoldable pub to_valid : ℕ → Bool → Text → Text
unfolding rune_width
to_valid zero inside b = []
to_valid (suc fuel) inside [] = []
to_valid (suc fuel) inside (a ∷ b) =
    let bad = starts_invalid (a ∷ b) in
    let w = rune_width (a ∷ b) in
    (if bad then (if inside then [] else 239 ∷ 191 ∷ 189 ∷ []) else take w (a ∷ b))
    ++ to_valid fuel bad (drop w (a ∷ b))

abbrev pub unless_bad : ℕ × ℕ → Text → Option Text
unless_bad (bad, total) t = if ltb total (bad * 20) then none else some t

-- none for ErrBinary
unfoldable pub decode_utf8 : Text → Option Text
unfolding valid count_runes to_valid
decode_utf8 b =
    if valid b then some b else unless_bad (count_runes (length b) b) (to_valid (length b) false b)

abbrev pub decoded_text : Option Text → TextResult
decoded_text none = not_text
decoded_text (some t) = text_of (strip_controls t)

abbrev pub bom : Text
bom = 239 ∷ 187 ∷ 191 ∷ []

abbrev pub of_read : ℕ → Option Text → TextResult
unfolding cut decode_utf8 trim_prefix any
of_read max none = read_failed
of_read max (some b) =
    if any (λ c. c == 0) b
    then not_text
    else decoded_text (decode_utf8 (cut max (trim_prefix b bom)))

-- `read n` is what ReadAt gives for a buffer of n bytes at 0, none for an error but io.EOF.
unfoldable pub extract_text : (ℕ → Option Text) → ℕ → ℕ → TextResult
unfolding of_read
extract_text read size max =
    of_read max (read (if ltb (max + utf_max) size then max + utf_max else size))
