-- ===== src/Extract/Chunk.antt =====
-- backend/internal/extract/chunk.go: text in pieces.
pub mod Bounds
pub mod Enough
use findo.Prelude.{
  ℕ, zero, suc, ◌+◌, ◌/◌, Bool, true, false, not, ◌&&◌, ◌||◌, Option, none, some, List, [], ◌∷◌,
  ◌++◌, leb, ltb, ◌==◌, if◌then◌else◌, Text, take, drop, length,
}
use findo.Strings.Runes.{trim_space, rune_start, rune_width}

abbrev pub chunk_size : ℕ
chunk_size = 1500

-- strings.ReplaceAll of "\r\n" by "\n"
unfoldable pub unix_lines : Text → Text
unix_lines [] = []
unix_lines (a ∷ []) = a ∷ []
unix_lines (a ∷ b ∷ s) =
    let rest = unix_lines (b ∷ s) in
    let skipped = unix_lines s in if (a == 13) && (b == 10) then 10 ∷ skipped else a ∷ rest

abbrev start_line : ℕ → List Text → List Text
start_line c [] = (c ∷ []) ∷ []
start_line c (p ∷ ps) = (c ∷ p) ∷ ps

-- strings.Split at "\n\n"
unfoldable pub paragraphs : Text → List Text
paragraphs [] = [] ∷ []
paragraphs (a ∷ []) = (a ∷ []) ∷ []
paragraphs (a ∷ b ∷ s) =
    let rest = paragraphs (b ∷ s) in
    let after = paragraphs s in if (a == 10) && (b == 10) then [] ∷ after else start_line a rest

abbrev is_blank : ℕ → Bool
is_blank c = (c == 32) || ((c == 10) || (c == 9))

-- strings.LastIndexAny(s, " \n\t"); none stands for -1
unfoldable pub last_blank : ℕ → Text → Option ℕ
last_blank i [] = none
last_blank i (c ∷ s) = elim (last_blank (suc i) s) [
  | some j ↦ some j
  | none ↦ if is_blank c then some i else none
]

abbrev starts_rune : Text → Bool
starts_rune [] = true
starts_rune (b ∷ s) = rune_start b

-- for cut > 0 && !utf8.RuneStart(s[cut]) { cut-- }
unfoldable pub back_to_rune : ℕ → Text → ℕ
back_to_rune zero s = zero
back_to_rune (suc cut) s =
    let back = back_to_rune cut s in if starts_rune (drop (suc cut) s) then suc cut else back

unfoldable pub cut_at : Option ℕ → Text → ℕ → ℕ
unfolding back_to_rune
cut_at none s target = back_to_rune target s
cut_at (some i) s target = if ltb (target / 2) i then i else back_to_rune target s

-- a single rune wider than target: take it whole
unfoldable pub or_whole_rune : ℕ → Text → ℕ
unfolding rune_width
or_whole_rune zero s = rune_width s
or_whole_rune (suc cut) s = suc cut

unfoldable pub push_piece : Text → List Text → List Text
push_piece [] out = out
push_piece (c ∷ p) out = (c ∷ p) ∷ out

-- The loop of splitLong. A round shortens the text, so that its length is enough fuel.
unfoldable pub split_loop : ℕ → Text → ℕ → List Text
unfolding last_blank cut_at or_whole_rune push_piece trim_space
split_loop zero s target = []
split_loop (suc fuel) s target =
    let cut = or_whole_rune (cut_at (last_blank 0 (take target s)) s target) s in
    let rest = split_loop fuel (trim_space (drop cut s)) target in
    if leb (length s) target then push_piece s [] else push_piece (trim_space (take cut s)) rest

unfoldable pub split_long : Text → ℕ → List Text
unfolding split_loop
split_long s target = if leb (length s) target then s ∷ [] else split_loop (suc (length s)) s target

-- The variables of Chunk: the chunks and the one that is being built.
pub record Builder : Type 0 where
  pub chunks : List Text
  pub cur : Text

unfoldable pub flush : Builder → Builder
unfolding trim_space push_piece
flush b = record { chunks = b.chunks ++ push_piece (trim_space b.cur) []; cur = [] }

abbrev pub is_nil : Text → Bool
is_nil [] = true
is_nil (c ∷ s) = false

abbrev pub append_piece : Builder → Text → Builder
append_piece b piece = record b {
  cur = (if is_nil b.cur then [] else b.cur ++ 10 ∷ 10 ∷ []) ++ piece;
}

unfoldable pub add_piece : ℕ → Builder → Text → Builder
unfolding flush
add_piece target b piece =
    let full = not (is_nil b.cur) && ltb target (length b.cur + 2 + length piece) in
    append_piece (if full then flush b else b) piece

unfoldable pub add_pieces : ℕ → Builder → List Text → Builder
unfolding add_piece
add_pieces target b [] = b
add_pieces target b (p ∷ ps) = add_pieces target (add_piece target b p) ps

unfoldable pub add_paragraphs : ℕ → Builder → List Text → Builder
unfolding add_pieces split_long trim_space
add_paragraphs target b [] = b
add_paragraphs target b (para ∷ paras) =
    let p = trim_space para in
    add_paragraphs target (if is_nil p then b else add_pieces target b (split_long p target)) paras

unfoldable pub chunk : Text → ℕ → List Text
unfolding add_paragraphs paragraphs unix_lines flush
chunk text target =
    (flush (
      add_paragraphs target (record { chunks = []; cur = [] })
        (paragraphs (unix_lines text)))).chunks
