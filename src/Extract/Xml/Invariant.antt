-- ===== src/Extract/Xml/Invariant.antt =====
-- What the loop over the tokens keeps.
use findo.Prelude.{
  zero, suc, Bool, false, ◌&&◌, Option, none, some, List, [], ◌∷◌, Text, Bool-cases, inl, inr,
}
use findo.Extract.Proto.{FormatError}
use findo.Extract.Xml.{Token, start_tag, end_tag, chars, other_token, Mode, advance, scan}

module _ {ℓ κ} {S : Type ℓ} (skips : Text → Bool) (step : S → Token → S) (is_full : S → Bool)
    (P : S → Type κ) (keeps : (s : S) (t : Token) → P s → P (step s t)) where
  advance-keeps : (m : Mode) (t : Token) (s : S) → P s → P (advance skips step is_full m t s).state
  advance-keeps none (start_tag name attrs) s h = elim (Bool-cases (skips name)) [
    | inl skipped ↦ rw skipped h
    | inr taken ↦ rw taken (keeps s (start_tag name attrs) h)
  ]
  advance-keeps none (end_tag name) s h = keeps s (end_tag name) h
  advance-keeps none (chars t) s h = keeps s (chars t) h
  advance-keeps none other_token s h = keeps s other_token h
  advance-keeps (some d) (start_tag name attrs) s h = h
  advance-keeps (some zero) (end_tag name) s h = h
  advance-keeps (some (suc d)) (end_tag name) s h = h
  advance-keeps (some d) (chars t) s h = h
  advance-keeps (some d) other_token s h = h

  pub scan-keeps :
      (m : Mode) (ts : List Token) (failure : Option FormatError) (s : S)
      → P s
      → P (scan skips step is_full m ts failure s).0
  unfolding scan
  scan-keeps m [] failure s h = h
  scan-keeps m (t ∷ ts) failure s h =
      let a = advance skips step is_full m t s in
      elim (Bool-cases (a.checks && is_full a.state)) [
        | inl done ↦ rw done (advance-keeps m t s h)
        | inr more ↦ rw more (scan-keeps a.mode ts failure a.state (advance-keeps m t s h))
      ]

-- Two loops over the same tokens that never are done.
module _ {ℓ ℓ' κ} {S : Type ℓ} {U : Type ℓ'} (skips : Text → Bool) (step : S → Token → S)
    (step' : U → Token → U) (R : S → U → Type κ)
    (keeps : (s : S) (u : U) (t : Token) → R s u → R (step s t) (step' u t)) where
  pub scan-related :
      (m : Mode) (ts : List Token) (failure : Option FormatError) (s : S) (u : U)
      → R s u
      → R
          (scan skips step (λ s'. false) m ts failure s).0
          (scan skips step' (λ u'. false) m ts failure u).0
  unfolding scan
  scan-related m [] failure s u h = h
  scan-related none (start_tag name attrs ∷ ts) failure s u h = elim (Bool-cases (skips name)) [
    | inl skipped ↦ rw skipped (scan-related (some 0) ts failure s u h)
    | inr taken ↦ rw taken (scan-related none ts failure _ _ (keeps s u (start_tag name attrs) h))
  ]
  scan-related none (end_tag name ∷ ts) failure s u h =
      scan-related none ts failure _ _ (keeps s u (end_tag name) h)
  scan-related none (chars t ∷ ts) failure s u h =
      scan-related none ts failure _ _ (keeps s u (chars t) h)
  scan-related none (other_token ∷ ts) failure s u h =
      scan-related none ts failure _ _ (keeps s u other_token h)
  scan-related (some d) (start_tag name attrs ∷ ts) failure s u h =
      scan-related (some (suc d)) ts failure s u h
  scan-related (some zero) (end_tag name ∷ ts) failure s u h = scan-related none ts failure s u h
  scan-related (some (suc d)) (end_tag name ∷ ts) failure s u h =
      scan-related (some d) ts failure s u h
  scan-related (some d) (chars t ∷ ts) failure s u h = scan-related (some d) ts failure s u h
  scan-related (some d) (other_token ∷ ts) failure s u h = scan-related (some d) ts failure s u h
