-- ===== src/Extract/Chunk/Bounds.antt =====
-- The size of chunks.
use findo.Prelude.{
  ℕ, zero, suc, ◌+◌, ◌≤◌, ◌<◌, ◌≡◌, refl, Bool, true, false, Option, none, some, List, [], ◌∷◌,
  ◌++◌, arith, if◌then◌else◌, ltb, leb, Text, take, drop, length, length-append, length-take-le,
  length-drop-le, All, All-append, inl, inr, Bool-cases, ◌&&◌, not,
}
use findo.Strings.Runes.{trim_space, trim_space_left, trim_space_right, rune_width, space_width}
use findo.Extract.Chunk.{
  last_blank, back_to_rune, cut_at, or_whole_rune, push_piece, split_loop, split_long, Builder,
  flush, add_piece, add_pieces, add_paragraphs, paragraphs, chunk, is_nil, unix_lines,
}

length-trim_space_left : (n : ℕ) (s : Text) → length (trim_space_left n s) ≤ length s
unfolding trim_space_left
length-trim_space_left zero s = omega arith
length-trim_space_left (suc n) s =
    ground
      (arith, length-trim_space_left n (drop (space_width s) s), length-drop-le (space_width s) s)

length-trim_space_right : (s : Text) → length (trim_space_right s) ≤ length s
unfolding trim_space_right
length-trim_space_right [] = omega arith
length-trim_space_right (a ∷ s) = ground (arith, length-trim_space_right s)

pub length-trim_space : (s : Text) → length (trim_space s) ≤ length s
unfolding trim_space
length-trim_space s = omega (
  arith,
  length-trim_space_right (trim_space_left (length s) s),
  length-trim_space_left (length s) s,
)

rune_width-le : (s : Text) → rune_width s ≤ 4
unfolding rune_width
rune_width-le [] = omega arith
rune_width-le (a ∷ []) = ground arith
rune_width-le (a ∷ b ∷ []) = ground arith
rune_width-le (a ∷ b ∷ c ∷ []) = ground arith
rune_width-le (a ∷ b ∷ c ∷ d ∷ s) = ground arith

pub rune_width-positive : (a : ℕ) (s : Text) → 1 ≤ rune_width (a ∷ s)
unfolding rune_width
rune_width-positive a [] = ground arith
rune_width-positive a (b ∷ []) = ground arith
rune_width-positive a (b ∷ c ∷ []) = ground arith
rune_width-positive a (b ∷ c ∷ d ∷ s) = ground arith

last_blank-lt : (i : ℕ) (s : Text) (j : ℕ) → last_blank i s ≡ some j → j < i + length s
unfolding last_blank
last_blank-lt i [] j h = cc
last_blank-lt i (c ∷ s) j h = ground (arith, last_blank-lt (suc i) s j)

back_to_rune-le : (cut : ℕ) (s : Text) → back_to_rune cut s ≤ cut
unfolding back_to_rune
back_to_rune-le zero s = omega arith
back_to_rune-le (suc cut) s = ground (arith, back_to_rune-le cut s)

cut_at-le :
    (o : Option ℕ) (s : Text) (target : ℕ)
    → ((j : ℕ) → o ≡ some j → j ≤ target)
    → cut_at o s target ≤ target
unfolding cut_at
cut_at-le none s target h = back_to_rune-le target s
cut_at-le (some i) s target h = ground (arith, back_to_rune-le target s, h i refl)

-- Where a window is cut.
abbrev pub cut_of : Text → ℕ → ℕ
cut_of s target = or_whole_rune (cut_at (last_blank 0 (take target s)) s target) s

or_whole_rune-le : (cut : ℕ) (s : Text) (m : ℕ) → 4 ≤ m → cut ≤ m → or_whole_rune cut s ≤ m
unfolding or_whole_rune
or_whole_rune-le zero s m h k = omega (arith, rune_width-le s)
or_whole_rune-le (suc cut) s m h k = k

pub or_whole_rune-positive : (cut a : ℕ) (s : Text) → 1 ≤ or_whole_rune cut (a ∷ s)
unfolding or_whole_rune
or_whole_rune-positive zero a s = rune_width-positive a s
or_whole_rune-positive (suc cut) a s = omega arith

cut_of-le : (s : Text) (target m : ℕ) → 4 ≤ m → target ≤ m → cut_of s target ≤ m
cut_of-le s target m h k =
    let le =
      cut_at-le (last_blank 0 (take target s)) s target
        (λ j e. omega (arith, last_blank-lt 0 (take target s) j e, length-take-le target s)) in
    or_whole_rune-le _ s m h (omega (arith, le))

-- A piece that is not empty and has at most `m` bytes.
abbrev pub Sized : ℕ → Text → Type 0
Sized m p = (1 ≤ length p) × (length p ≤ m)

push_piece-Sized :
    (m : ℕ) (p : Text) (out : List Text)
    → length p ≤ m
    → All (Sized m) out
    → All (Sized m) (push_piece p out)
unfolding push_piece
push_piece-Sized m [] out h k = k
push_piece-Sized m (c ∷ p) out h k = ((omega arith, h), k)

split_loop-Sized :
    (fuel : ℕ) (s : Text) (target m : ℕ)
    → 4 ≤ m
    → target ≤ m
    → All (Sized m) (split_loop fuel s target)
unfolding split_loop
split_loop-Sized zero s target m h k = tt
split_loop-Sized (suc fuel) s target m h k = elim (Bool-cases (leb (length s) target)) [
  | inl fits ↦ rw fits (push_piece-Sized m s [] (ground arith) tt)
  | inr long ↦ rw long (
      push_piece-Sized m (trim_space (take (cut_of s target) s)) _
        (omega (
          arith,
          length-trim_space (take (cut_of s target) s),
          length-take-le (cut_of s target) s,
          cut_of-le s target m h k,
        ))
        (split_loop-Sized fuel (trim_space (drop (cut_of s target) s)) target m h k))
]

All-if :
    (P : Text → Type 0) (b : Bool) (xs ys : List Text)
    → (b ≡ true → All P xs)
    → (b ≡ false → All P ys)
    → All P (if b then xs else ys)
All-if P true xs ys h k = h refl
All-if P false xs ys h k = k refl

split_long-Sized :
    (s : Text) (target m : ℕ)
    → 1 ≤ length s
    → 4 ≤ m
    → target ≤ m
    → All (Sized m) (split_long s target)
unfolding split_long
split_long-Sized s target m n h k =
    All-if (Sized m) (leb (length s) target) (s ∷ []) _ (λ fits. ((n, ground arith), tt))
      (λ long. split_loop-Sized (suc (length s)) s target m h k)

-- The chunks are sized, and the one that is being built is not too long.
abbrev pub Built : ℕ → Builder → Type 0
Built m b = All (Sized m) b.chunks × (length b.cur ≤ m)

flush-Built : (m : ℕ) (b : Builder) → Built m b → Built m (flush b)
unfolding flush
flush-Built m b (h, k) = (
  All-append (Sized m) b.chunks _ h
      (push_piece-Sized m (trim_space b.cur) [] (omega (arith, length-trim_space b.cur)) tt),
  omega arith,
)

length-appended :
    (m : ℕ) (cur piece : Text)
    → length piece ≤ m
    → (is_nil cur ≡ false → length cur + 2 + length piece ≤ m)
    → length ((if is_nil cur then [] else cur ++ 10 ∷ 10 ∷ []) ++ piece) ≤ m
length-appended m [] piece h k = h
length-appended m (c ∷ cur) piece h k = omega (
  arith,
  length-append (c ∷ cur ++ 10 ∷ 10 ∷ []) piece,
  length-append (c ∷ cur) (10 ∷ 10 ∷ []),
  k refl,
)

add_piece-Built :
    (target m : ℕ) (b : Builder) (piece : Text)
    → target ≤ m
    → length piece ≤ m
    → Built m b
    → Built m (add_piece target b piece)
unfolding add_piece flush
add_piece-Built target m b piece h k built =
    elim (Bool-cases (not (is_nil b.cur) && ltb target (length b.cur + 2 + length piece))) [
      | inl full ↦ rw full ((flush-Built m b built).0, k)
      | inr room ↦ rw room (built.0, length-appended m b.cur piece k (λ e. ground arith))
    ]

add_pieces-Built :
    (target m : ℕ) (b : Builder) (pieces : List Text)
    → target ≤ m
    → All (Sized m) pieces
    → Built m b
    → Built m (add_pieces target b pieces)
unfolding add_pieces
add_pieces-Built target m b [] h k built = built
add_pieces-Built target m b (p ∷ ps) h ((n, k), ks) built =
    add_pieces-Built target m (add_piece target b p) ps h ks
      (add_piece-Built target m b p h k built)

Built-if :
    (m : ℕ) (is_blank : Bool) (b b' : Builder)
    → Built m b
    → (is_blank ≡ false → Built m b')
    → Built m (if is_blank then b else b')
Built-if m true b b' h k = h
Built-if m false b b' h k = k refl

positive : (s : Text) → is_nil s ≡ false → 1 ≤ length s
positive s h = ground arith

add_paragraphs-Built :
    (target m : ℕ) (paras : List Text) (b : Builder)
    → 4 ≤ m
    → target ≤ m
    → Built m b
    → Built m (add_paragraphs target b paras)
unfolding add_paragraphs
add_paragraphs-Built target m [] b h k built = built
add_paragraphs-Built target m (para ∷ paras) b h k built =
    let p = trim_space para in
    add_paragraphs-Built target m paras
      (if is_nil p then b else add_pieces target b (split_long p target)) h k
      (Built-if m (is_nil p) b _ built (λ some_text.
        add_pieces-Built target m b (split_long p target) k
          (split_long-Sized p target m (positive p some_text) h k) built))

-- Every chunk of a text has at least one byte, and at most the target's or, under a smaller target,
-- the four bytes of a rune.
pub chunk-IsSized :
    (text : Text) (target m : ℕ) → 4 ≤ m → target ≤ m → All (Sized m) (chunk text target)
unfolding chunk flush
chunk-IsSized text target m h k =
    (flush-Built m _ (
      add_paragraphs-Built target m (paragraphs (unix_lines text))
        (record { chunks = []; cur = [] }) h k (tt, omega arith))).0
