-- ===== src/Extract/Plain/Utf8.antt =====
-- The text of a plain file is valid UTF-8.
use findo.Prelude.{
  ℕ, zero, suc, ◌≤◌, ◌≡◌, refl, ◌∙◌, Bool, true, false, ◌&&◌, Option, some, [], ◌∷◌, ◌++◌, arith,
  leb, ◌==◌, if◌then◌else◌, ◌⊎◌, Text, take, drop, length, inl, inr, Bool-cases,
}
use findo.Prelude.Slices.{length-drop}
use findo.Strings.Runes.{rune_width, between, second, is_continuation, width2, width3, width4}
use findo.Extract.Chunk.Bounds.{rune_width-positive}
use findo.Extract.Sink.{valid, valid_from, starts_invalid}
use findo.Extract.Plain.{to_valid, decode_utf8, unless_bad, count_runes}

valid_from-enough :
    (m n : ℕ) (s : Text) → length s ≤ m → length s ≤ n → valid_from m s ≡ valid_from n s
unfolding valid_from
valid_from-enough zero zero s h k = refl
valid_from-enough zero (suc n) [] h k = refl
valid_from-enough zero (suc n) (a ∷ s) h k = let absurd : ⊥ = omega (arith, h) in elim absurd [ ]
valid_from-enough (suc m) zero [] h k = refl
valid_from-enough (suc m) zero (a ∷ s) h k = let absurd : ⊥ = omega (arith, k) in elim absurd [ ]
valid_from-enough (suc m) (suc n) [] h k = refl
valid_from-enough (suc m) (suc n) (a ∷ s) h k =
    let w = rune_width (a ∷ s) in
    let size = length-drop w (a ∷ s) in
    let moves = rune_width-positive a s in
    let ih =
      valid_from-enough m n (drop w (a ∷ s)) (omega (arith, h, size, moves))
        (omega (arith, k, size, moves)) in
    rw ih refl

-- A rune of w bytes stays the first one, whatever follows it.
abbrev Front : ℕ → ℕ → Text → Text → Type 0
Front w a b s = (rune_width (take w (a ∷ b) ++ s) ≡ w) × (drop w (take w (a ∷ b) ++ s) ≡ s)

abbrev Known : ℕ → ℕ → Type 0
Known w a = (w == 1 && leb 128 a) ≡ false

front2 :
    (a : ℕ) (b s : Text) → between 194 223 a ≡ true → Known (width2 b) a → Front (width2 b) a b s
unfolding rune_width
front2 a [] s range known = let no_rune : true ≡ false = ground arith in cc
front2 a (x ∷ b) s range known = elim (Bool-cases (is_continuation x)) [
  | inl long ↦ rw (long, range) (rw long refl, refl)
  | inr short ↦
      let no_rune : leb 128 a ≡ false = rw short at known in
      let absurd : true ≡ false = ground arith in cc
]

front3 :
    (a : ℕ) (b s : Text)
    → between 194 223 a ≡ false
    → between 224 239 a ≡ true
    → Known (width3 a b) a
    → Front (width3 a b) a b s
unfolding rune_width
front3 a [] s r2 range known = let no_rune : true ≡ false = ground arith in cc
front3 a (x ∷ []) s r2 range known = let no_rune : true ≡ false = ground arith in cc
front3 a (x ∷ y ∷ b) s r2 range known = elim (Bool-cases (second a x && is_continuation y)) [
  | inl long ↦ rw (long, r2, range) (rw long refl, refl)
  | inr short ↦
      let no_rune : leb 128 a ≡ false = rw short at known in
      let absurd : true ≡ false = ground arith in cc
]

front4 :
    (a : ℕ) (b s : Text)
    → between 194 223 a ≡ false
    → between 224 239 a ≡ false
    → between 240 244 a ≡ true
    → Known (width4 a b) a
    → Front (width4 a b) a b s
unfolding rune_width
front4 a [] s r2 r3 range known = let no_rune : true ≡ false = ground arith in cc
front4 a (x ∷ []) s r2 r3 range known = let no_rune : true ≡ false = ground arith in cc
front4 a (x ∷ y ∷ []) s r2 r3 range known = let no_rune : true ≡ false = ground arith in cc
front4 a (x ∷ y ∷ z ∷ b) s r2 r3 range known =
    elim (Bool-cases (second a x && (is_continuation y && is_continuation z))) [
      | inl long ↦ rw (long, r2, r3, range) (rw long refl, refl)
      | inr short ↦
          let no_rune : leb 128 a ≡ false = rw short at known in
          let absurd : true ≡ false = ground arith in cc
    ]

rune-Front :
    (a : ℕ) (b s : Text) → starts_invalid (a ∷ b) ≡ false → Front (rune_width (a ∷ b)) a b s
unfolding rune_width
rune-Front a b s known = elim (Bool-cases (between 194 223 a)) [
  | inl two ↦ rw two (front2 a b s two (rw two at known))
  | inr not_two ↦ rw not_two (elim (Bool-cases (between 224 239 a)) [
    | inl three ↦ rw three (front3 a b s not_two three (rw (not_two, three) at known))
    | inr not_three ↦ rw not_three (elim (Bool-cases (between 240 244 a)) [
      | inl four ↦
          rw four (front4 a b s not_two not_three four (rw (not_two, not_three, four) at known))
      | inr not_four ↦ rw not_four (rw (not_two, not_three, not_four) refl, refl)
    ])
  ])
]

valid-first :
    (a : ℕ) (t : Text)
    → starts_invalid (a ∷ t) ≡ false
    → valid (drop (rune_width (a ∷ t)) (a ∷ t)) ≡ true
    → valid (a ∷ t) ≡ true
unfolding valid valid_from
valid-first a t known h =
    let d = drop (rune_width (a ∷ t)) (a ∷ t) in
    let size = length-drop (rune_width (a ∷ t)) (a ∷ t) in
    let moves = rune_width-positive a t in
    rw known
      (valid_from-enough (length t) (length d) d (omega (arith, size, moves)) (omega arith) ∙ h)

-- A rune before a valid text leaves it valid.
rune-valid :
    (w a : ℕ) (b s : Text)
    → 1 ≤ w
    → Front w a b s
    → Known w a
    → valid s ≡ true
    → valid (take w (a ∷ b) ++ s) ≡ true
rune-valid zero a b s pos front known h = let absurd : ⊥ = omega (arith, pos) in elim absurd [ ]
rune-valid (suc k) a b s pos (width, rest) known h =
    valid-first a (take k b ++ s) (rw width known) (rw (width, rest) h)

replacement-valid : (s : Text) → valid s ≡ true → valid (239 ∷ 191 ∷ 189 ∷ s) ≡ true
unfolding rune_width
replacement-valid s h = valid-first 239 (191 ∷ 189 ∷ s) refl h

nil-valid : valid [] ≡ true
unfolding valid valid_from
nil-valid = refl

run-valid :
    (inside : Bool) (s : Text)
    → valid s ≡ true
    → valid ((if inside then [] else 239 ∷ 191 ∷ 189 ∷ []) ++ s) ≡ true
run-valid true s h = h
run-valid false s h = replacement-valid s h

to_valid-valid : (fuel : ℕ) (inside : Bool) (b : Text) → valid (to_valid fuel inside b) ≡ true
unfolding to_valid
to_valid-valid zero inside b = nil-valid
to_valid-valid (suc fuel) inside [] = nil-valid
to_valid-valid (suc fuel) inside (a ∷ b) =
    let w = rune_width (a ∷ b) in
    elim (Bool-cases (starts_invalid (a ∷ b))) [
      | inl bad ↦
          let rest = to_valid-valid fuel true (drop w (a ∷ b)) in
          rw bad (run-valid inside (to_valid fuel true (drop w (a ∷ b))) rest)
      | inr good ↦
          let rest = to_valid-valid fuel false (drop w (a ∷ b)) in
          rw good (
            rune-valid w a b (to_valid fuel false (drop w (a ∷ b))) (rune_width-positive a b)
              (rune-Front a b (to_valid fuel false (drop w (a ∷ b))) good) good rest)
    ]

unless_bad-valid :
    (n : ℕ × ℕ) (u t : Text) → valid u ≡ true → unless_bad n u ≡ some t → valid t ≡ true
unless_bad-valid (bad, total) u t h e = ground (arith, h, e)

-- What decodeUTF8 returns is valid UTF-8, and it is the bytes themselves unless they are not valid.
decode_utf8-valid :
    (b t : Text) → decode_utf8 b ≡ some t → (valid t ≡ true) × ((t ≡ b) ⊎ (valid b ≡ false))
unfolding decode_utf8
decode_utf8-valid b t e = elim (Bool-cases (valid b)) [
  | inl good ↦
      let e' : ◌≡◌ {A = Option Text} (some b) (some t) = rw good at e in
      let same : t ≡ b = cc in (rw same good, inl same)
  | inr bad ↦
      let e' : unless_bad (count_runes (length b) b) (to_valid (length b) false b) ≡ some t =
        rw bad at e in
      (
        unless_bad-valid (count_runes (length b) b) (to_valid (length b) false b) t
            (to_valid-valid (length b) false b) e',
        inr bad,
      )
]
