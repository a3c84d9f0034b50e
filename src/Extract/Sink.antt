-- ===== src/Extract/Sink.antt =====
-- backend/internal/extract/ooxml.go: sink, and stripControls of backend/internal/extract/text.go.
pub mod Clean
pub mod Bounded
pub mod Room
use findo.Prelude.{
  ℕ, zero, suc, Bool, true, false, not, ◌&&◌, ◌||◌, List, [], ◌∷◌, ◌++◌, filter, ltb, leb, ◌==◌,
  if◌then◌else◌, Text, take, drop, length,
}
use findo.Strings.Runes.{rune_width, runes, concat}

-- r < 0x20 but tab, newline and carriage return, or r == 0x7f
abbrev pub is_control : ℕ → Bool
is_control b = (ltb b 32 && not ((b == 9) || ((b == 10) || (b == 13)))) || (b == 127)

-- A rune of more bytes is no control character.
abbrev pub keeps_rune : Text → Bool
keeps_rune (b ∷ []) = not (is_control b)
keeps_rune _ = true

unfoldable pub strip_controls : Text → Text
unfolding runes concat filter
strip_controls s = concat (filter keeps_rune (runes (length s) s))

-- A byte that is no rune: utf8.RuneError of width 1.
abbrev pub starts_invalid : Text → Bool
starts_invalid [] = false
starts_invalid (a ∷ s) = (rune_width (a ∷ s) == 1) && leb 128 a

-- utf8.Valid; the fuel is the length.
unfoldable pub valid_from : ℕ → Text → Bool
unfolding rune_width
valid_from zero s = true
valid_from (suc fuel) [] = true
valid_from (suc fuel) (a ∷ s) =
    let rest = valid_from fuel (drop (rune_width (a ∷ s)) (a ∷ s)) in
    if starts_invalid (a ∷ s) then false else rest

unfoldable pub valid : Text → Bool
unfolding valid_from
valid s = valid_from (length s) s

pub record Sink : Type 0 where
  pub bytes : Text
  pub max : ℕ

unfoldable pub full : Sink → Bool
full s = leb s.max (length s.bytes)

unfoldable pub write : Text → Sink → Sink
unfolding full
write t s = if full s then s else record s { bytes = s.bytes ++ t }

-- for len(b) > 0 && !utf8.Valid(b) { b = b[:len(b)-1] }, for the first n bytes of b
unfoldable pub valid_prefix : ℕ → Text → Text
unfolding valid
valid_prefix zero b = []
valid_prefix (suc n) b =
    let shorter = valid_prefix n b in if valid (take (suc n) b) then take (suc n) b else shorter

unfoldable pub text : Sink → Text
unfolding strip_controls valid_prefix
text s = strip_controls (if ltb s.max (length s.bytes) then valid_prefix s.max s.bytes else s.bytes)
