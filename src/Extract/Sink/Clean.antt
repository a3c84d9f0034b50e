-- ===== src/Extract/Sink/Clean.antt =====
-- What is left in a text that was stripped of its control characters.
use findo.Prelude.{
  ℕ, zero, suc, ◌≡◌, refl, true, false, [], ◌∷◌, arith, filter, Text, take, drop, length, All,
  All-append, Bool-cases, inl, inr, if◌then◌else◌, &&-true, ◌&&◌, leb, ◌⊎◌, ◌≤◌, ◌≢◌,
}
use findo.Strings.Runes.{
  rune_width, runes, concat, between, second, is_continuation, width2, width3, width4, is_invalid,
}
use findo.Extract.Sink.{is_control, keeps_rune, strip_controls}

abbrev High : Text → Type 0
High = All (λ b. leb 128 b ≡ true)

abbrev pub Clean : Text → Type 0
Clean = All (λ b. is_control b ≡ false)

High-Clean : (r : Text) → High r → Clean r
High-Clean [] h = tt
High-Clean (b ∷ r) (h, hs) = (ground arith, High-Clean r hs)

second_high : (a b : ℕ) → second a b ≡ true → leb 128 b ≡ true
second_high a b h = ground arith

-- A rune is one byte, or none of its bytes is below 128.
abbrev Wide : ℕ → Text → Type 0
Wide w s = (w ≡ 1) ⊎ High (take w s)

width2-Wide : (a : ℕ) (s : Text) → leb 128 a ≡ true → Wide (width2 s) (a ∷ s)
width2-Wide a [] h = inl refl
width2-Wide a (b ∷ s) h = elim (Bool-cases (is_continuation b)) [
  | inl long ↦ rw long (inr (h, (ground arith, tt)))
  | inr short ↦ rw short (inl refl)
]

width3-Wide : (a : ℕ) (s : Text) → leb 128 a ≡ true → Wide (width3 a s) (a ∷ s)
width3-Wide a [] h = inl refl
width3-Wide a (b ∷ []) h = inl refl
width3-Wide a (b ∷ c ∷ s) h = elim (Bool-cases (second a b && is_continuation c)) [
  | inl long ↦
      let (sb, sc) = &&-true (second a b) (is_continuation c) long in
      rw long (inr (h, (second_high a b sb, (ground arith, tt))))
  | inr short ↦ rw short (inl refl)
]

width4-Wide : (a : ℕ) (s : Text) → leb 128 a ≡ true → Wide (width4 a s) (a ∷ s)
width4-Wide a [] h = inl refl
width4-Wide a (b ∷ []) h = inl refl
width4-Wide a (b ∷ c ∷ []) h = inl refl
width4-Wide a (b ∷ c ∷ d ∷ s) h =
    elim (Bool-cases (second a b && (is_continuation c && is_continuation d))) [
      | inl long ↦
          let (sb, scd) = &&-true (second a b) (is_continuation c && is_continuation d) long in
          let (sc, sd) = &&-true (is_continuation c) (is_continuation d) scd in
          rw long (inr (h, (second_high a b sb, (ground arith, (ground arith, tt)))))
      | inr short ↦ rw short (inl refl)
    ]

rune-Wide : (a : ℕ) (s : Text) → Wide (rune_width (a ∷ s)) (a ∷ s)
unfolding rune_width
rune-Wide a s = elim (Bool-cases (between 194 223 a)) [
  | inl two ↦ rw two (width2-Wide a s (ground arith))
  | inr not_two ↦ rw not_two (elim (Bool-cases (between 224 239 a)) [
    | inl three ↦ rw three (width3-Wide a s (ground arith))
    | inr not_three ↦ rw not_three (elim (Bool-cases (between 240 244 a)) [
      | inl four ↦ rw four (width4-Wide a s (ground arith))
      | inr not_four ↦ rw not_four (inl refl)
    ])
  ])
]

-- A rune that is kept has no control character.
kept-Clean :
    (w a : ℕ) (s : Text)
    → Wide w (a ∷ s)
    → keeps_rune (take w (a ∷ s)) ≡ true
    → Clean (take w (a ∷ s))
kept-Clean w a s (inl one) h =
    rw one (let k : keeps_rune (a ∷ []) ≡ true = rw one at h in (ground arith, tt))
kept-Clean w a s (inr high) h = High-Clean (take w (a ∷ s)) high

kept_rune-Clean :
    (w a : ℕ) (s : Text)
    → Wide w (a ∷ s)
    → let r = take w (a ∷ s) in
      let rune = if is_invalid r then 239 ∷ 191 ∷ 189 ∷ [] else r in
      keeps_rune rune ≡ true → Clean rune
kept_rune-Clean w a s wide h = elim (Bool-cases (is_invalid (take w (a ∷ s)))) [
  | inl bad ↦ rw bad (refl, (refl, (refl, tt)))
  | inr good ↦ rw good (kept-Clean w a s wide (rw good at h))
]

runes-Clean : (fuel : ℕ) (s : Text) → Clean (concat (filter keeps_rune (runes fuel s)))
unfolding runes concat filter
runes-Clean zero s = tt
runes-Clean (suc fuel) [] = tt
runes-Clean (suc fuel) (a ∷ s) =
    let w = rune_width (a ∷ s) in
    let r = take w (a ∷ s) in
    let rune = if is_invalid r then 239 ∷ 191 ∷ 189 ∷ [] else r in
    let rest = runes-Clean fuel (drop w (a ∷ s)) in
    elim (Bool-cases (keeps_rune rune)) [
      | inl kept ↦ rw kept (
          All-append (λ b. is_control b ≡ false) rune _ (kept_rune-Clean w a s (rune-Wide a s) kept)
            rest)
      | inr gone ↦ rw gone rest
    ]

-- A tab, a newline, a carriage return, or a byte from 32 on that is not 127.
abbrev pub IsPrinted : ℕ → Type 0
IsPrinted b = ((b ≡ 9) ⊎ ((b ≡ 10) ⊎ ((b ≡ 13) ⊎ (32 ≤ b)))) × (b ≢ 127)

is_control-IsPrinted : (b : ℕ) → is_control b ≡ false → IsPrinted b
is_control-IsPrinted b h = (ground arith, ground arith)

Clean-IsPrinted : (s : Text) → Clean s → All IsPrinted s
Clean-IsPrinted [] h = tt
Clean-IsPrinted (b ∷ s) (h, hs) = (is_control-IsPrinted b h, Clean-IsPrinted s hs)

-- Each byte of a text that was stripped is a tab, a newline, a carriage return, or at least 32 and not
-- 127, whatever the text's bytes were: the marks of the search results, 2 and 3, cannot occur in it.
pub strip_controls-IsClean : (s : Text) → All IsPrinted (strip_controls s)
unfolding strip_controls
strip_controls-IsClean s = Clean-IsPrinted (strip_controls s) (runes-Clean (length s) s)
