-- ===== src/Strings/Runes.antt =====
-- The functions of Go's packages unicode/utf8 and strings that decode runes, over bytes.
use findo.Prelude.{
  ℕ, zero, suc, Bool, true, false, not, ◌&&◌, ◌||◌, List, [], ◌∷◌, ◌++◌, leb, ◌==◌, if◌then◌else◌,
  Text, take, drop, length,
}

abbrev pub between : ℕ → ℕ → ℕ → Bool
between lo hi b = leb lo b && leb b hi

-- A byte that continues a rune.
abbrev pub is_continuation : ℕ → Bool
is_continuation = between 128 191

-- utf8.RuneStart
abbrev pub rune_start : ℕ → Bool
rune_start b = not (is_continuation b)

-- The first continuation byte's bounds depend on the first byte.
abbrev pub second : ℕ → ℕ → Bool
second a b =
    if a == 224
    then between 160 191 b
    else if a == 237
    then between 128 159 b
    else if a == 240
    then between 144 191 b
    else if a == 244
    then between 128 143 b
    else is_continuation b

abbrev pub width3 : ℕ → Text → ℕ
width3 a (b ∷ c ∷ s) = if second a b && is_continuation c then 3 else 1
width3 a _ = 1

abbrev pub width4 : ℕ → Text → ℕ
width4 a (b ∷ c ∷ d ∷ s) = if second a b && (is_continuation c && is_continuation d) then 4 else 1
width4 a _ = 1

abbrev pub width2 : Text → ℕ
width2 [] = 1
width2 (b ∷ s) = if is_continuation b then 2 else 1

-- The size that utf8.DecodeRuneInString returns: 1 for a byte that starts no valid rune.
unfoldable pub rune_width : Text → ℕ
rune_width [] = 0
rune_width (a ∷ s) =
    if between 194 223 a
    then width2 s
    else if between 224 239 a
    then width3 a s
    else if between 240 244 a
    then width4 a s
    else 1

abbrev pub is_invalid : Text → Bool
is_invalid (a ∷ []) = leb 128 a
is_invalid _ = false

-- string([]rune(s)), rune by rune: an invalid byte becomes U+FFFD. The fuel is the length.
unfoldable pub runes : ℕ → Text → List Text
unfolding rune_width
runes zero s = []
runes (suc fuel) [] = []
runes (suc fuel) (a ∷ s) =
    let w = rune_width (a ∷ s) in
    let r = take w (a ∷ s) in
    (if is_invalid r then 239 ∷ 191 ∷ 189 ∷ [] else r) ∷ runes fuel (drop w (a ∷ s))

unfoldable pub concat : List Text → Text
concat [] = []
concat (r ∷ rs) = r ++ concat rs

abbrev latin : Text → ℕ
latin (b ∷ t) = if (b == 133) || (b == 160) then 2 else 0
latin [] = 0

abbrev ogham : Text → ℕ
ogham (b ∷ c ∷ t) = if (b == 154) && (c == 128) then 3 else 0
ogham _ = 0

abbrev punctuation : Text → ℕ
punctuation (b ∷ c ∷ t) =
    if ((b == 128) && (between 128 138 c || (between 168 169 c || (c == 175))))
      || ((b == 129) && (c == 159))
    then 3
    else 0
punctuation _ = 0

abbrev ideographic : Text → ℕ
ideographic (b ∷ c ∷ t) = if (b == 128) && (c == 128) then 3 else 0
ideographic _ = 0

-- The width of the unicode.IsSpace rune that a text begins with, or 0.
unfoldable pub space_width : Text → ℕ
space_width [] = 0
space_width (a ∷ s) =
    if between 9 13 a || (a == 32)
    then 1
    else if a == 194
    then latin s
    else if a == 225
    then ogham s
    else if a == 226
    then punctuation s
    else if a == 227
    then ideographic s
    else 0

-- strings.TrimSpace: leading spaces go, then each rest that is only spaces.
unfoldable pub trim_space_left : ℕ → Text → Text
unfolding space_width
trim_space_left zero s = s
trim_space_left (suc fuel) s =
    let rest = trim_space_left fuel (drop (space_width s) s) in
    if space_width s == 0 then s else rest

abbrev is_nil : Text → Bool
is_nil [] = true
is_nil (a ∷ s) = false

unfoldable pub trim_space_right : Text → Text
unfolding trim_space_left
trim_space_right [] = []
trim_space_right (a ∷ s) =
    let rest = trim_space_right s in
    if is_nil (trim_space_left (length (a ∷ s)) (a ∷ s)) then [] else a ∷ rest

unfoldable pub trim_space : Text → Text
unfolding trim_space_left trim_space_right
trim_space s = trim_space_right (trim_space_left (length s) s)
