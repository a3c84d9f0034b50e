-- ===== src/Extract/Sink/Bounded.antt =====
-- How long the text of a sink is.
use findo.Prelude.{
  ℕ, zero, suc, ◌+◌, ◌≤◌, ◌≡◌, refl, true, false, [], ◌∷◌, arith, filter, Text, take, drop, length,
  length-append, Bool-cases, inl, inr, length-take-le, ltb,
}
use findo.Prelude.Slices.{length-take_and_drop}
use findo.Strings.Runes.{rune_width, runes, concat, is_invalid}
use findo.Extract.Sink.{
  Sink, keeps_rune, strip_controls, starts_invalid, valid_from, valid, valid_prefix, text,
}

-- A rune that is valid is kept as it is.
is_invalid-first :
    (w a : ℕ) (s : Text)
    → (rune_width (a ∷ s) ≡ w)
    → starts_invalid (a ∷ s) ≡ false
    → is_invalid (take w (a ∷ s)) ≡ false
unfolding rune_width
is_invalid-first zero a s e h = refl
is_invalid-first (suc zero) a s e h = ground arith
is_invalid-first (suc (suc w)) a [] e h = ground arith
is_invalid-first (suc (suc w)) a (b ∷ s) e h = refl

kept_no_longer :
    (fuel : ℕ) (s : Text)
    → valid_from fuel s ≡ true
    → length (concat (filter keeps_rune (runes fuel s))) ≤ length s
unfolding valid_from runes concat filter
kept_no_longer zero s h = omega arith
kept_no_longer (suc fuel) [] h = omega arith
kept_no_longer (suc fuel) (a ∷ s) h = elim (Bool-cases (starts_invalid (a ∷ s))) [
  | inl bad ↦ let no : false ≡ true = rw bad at h in cc
  | inr good ↦
      let w = rune_width (a ∷ s) in
      let r = take w (a ∷ s) in
      let ih = kept_no_longer fuel (drop w (a ∷ s)) (rw good at h) in
      let same = is_invalid-first w a s refl good in
      let parts : length r + length (drop w (a ∷ s)) ≡ length (a ∷ s) =
        length-take_and_drop w (a ∷ s) in
      rw same (elim (Bool-cases (keeps_rune r)) [
        | inl kept ↦ rw kept (
            omega (
              arith,
              ih,
              parts,
              length-append r (concat (filter keeps_rune (runes fuel (drop w (a ∷ s))))),
            ))
        | inr gone ↦ rw gone (omega (arith, ih, parts))
      ])
]

strip_controls_no_longer : (s : Text) → valid s ≡ true → length (strip_controls s) ≤ length s
unfolding strip_controls valid
strip_controls_no_longer s h = kept_no_longer (length s) s h

valid_prefix_lem :
    (n : ℕ) (s : Text) → (valid (valid_prefix n s) ≡ true) × (length (valid_prefix n s) ≤ n)
unfolding valid_prefix valid
valid_prefix_lem zero s = (refl, omega arith)
valid_prefix_lem (suc n) s = elim (Bool-cases (valid (take (suc n) s))) [
  | inl good ↦ rw good (good, length-take-le (suc n) s)
  | inr bad ↦ let (v, l) = valid_prefix_lem n s in rw bad (v, omega (arith, l))
]

-- The text of a sink whose bytes are valid UTF-8 is at most the sink's cap long, also where what was
-- written last went past the cap.
text-bounded : (s : Sink) → valid s.bytes ≡ true → length (text s) ≤ s.max
unfolding text
text-bounded s h = elim (Bool-cases (ltb s.max (length s.bytes))) [
  | inl over ↦
      let (v, l) = valid_prefix_lem s.max s.bytes in
      rw over (omega (arith, l, strip_controls_no_longer (valid_prefix s.max s.bytes) v))
  | inr within ↦
      let le : length s.bytes ≤ s.max = ground arith in
      rw within (omega (arith, strip_controls_no_longer s.bytes h, le))
]
