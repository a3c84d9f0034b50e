-- ===== src/Strings/Decimal.antt =====
-- strconv.FormatInt in base 10, for numbers that are not negative, and what Atoi reads of it.
use findo.Prelude.{
  ℕ, zero, suc, ◌+◌, ◌-◌, ◌*◌, ◌/◌, ◌%◌, ◌≤◌, ◌≡◌, refl, ap, ◌∙◌, true, false, ◌&&◌, some, [], ◌∷◌,
  arith, leb, ltb, ◌==◌, if◌then◌else◌, Text, inl, inr, Bool-cases,
}
use findo.Prelude.Int.{pos}
use findo.Strings.Numbers.{max_int, is_digit, digits_from, digits, positive, atoi}

-- The digits of n before those that are there; n is enough fuel.
unfoldable pub digits_before : ℕ → ℕ → Text → Text
digits_before zero n s = (48 + n) ∷ s
digits_before (suc fuel) n s =
    let rest = digits_before fuel (n / 10) ((48 + n % 10) ∷ s) in
    if ltb n 10 then (48 + n) ∷ s else rest

unfoldable pub format_int : ℕ → Text
unfolding digits_before
format_int n = digits_before n n []

one_digit : (k n : ℕ) (s : Text) → n ≤ 9 → digits_from k ((48 + n) ∷ s) ≡ digits_from (k * 10 + n) s
unfolding digits_from is_digit
one_digit k n s h =
    let digit : (leb b'0' (48 + n) && leb (48 + n) b'9') ≡ true = ground arith in
    let same : 48 + n - b'0' ≡ n = omega arith in rw (digit, same) refl

digits_before-reads :
    (fuel n : ℕ) (s : Text) → n ≤ fuel → digits_from 0 (digits_before fuel n s) ≡ digits_from n s
unfolding digits_before
digits_before-reads zero n s h =
    one_digit 0 n s (omega arith) ∙ ap (λ k. digits_from k s) (omega arith)
digits_before-reads (suc fuel) n s h = elim (Bool-cases (ltb n 10)) [
  | inl small ↦ rw small (one_digit 0 n s (ground arith) ∙ ap (λ k. digits_from k s) (omega arith))
  | inr large ↦ rw large (
      digits_before-reads fuel (n / 10) ((48 + n % 10) ∷ s) (ground arith)
      ∙ (one_digit (n / 10) (n % 10) s (omega arith) ∙ ap (λ k. digits_from k s) (omega arith)))
]

abbrev StartsWithDigit : Text → Type 0
StartsWithDigit [] = ⊥
StartsWithDigit (c ∷ s) = (c == b'-' ≡ false) × (c == b'+' ≡ false)

digits_before-StartsWithDigit :
    (fuel n : ℕ) (s : Text) → n ≤ fuel → StartsWithDigit (digits_before fuel n s)
unfolding digits_before
digits_before-StartsWithDigit zero n s h = (ground arith, ground arith)
digits_before-StartsWithDigit (suc fuel) n s h = elim (Bool-cases (ltb n 10)) [
  | inl small ↦ rw small (ground arith, ground arith)
  | inr large ↦
      rw large (digits_before-StartsWithDigit fuel (n / 10) ((48 + n % 10) ∷ s) (ground arith))
]

atoi-digits : (s : Text) → StartsWithDigit s → atoi s ≡ positive (digits_from 0 s)
unfolding atoi digits
atoi-digits [] x = elim x [ ]
atoi-digits (c ∷ s) (h, k) = rw (h, k) refl

read_all : (n : ℕ) → ltb max_int n ≡ false → positive (digits_from n []) ≡ some (pos n)
unfolding digits_from
read_all n h = rw h refl

pub atoi-format_int : (n : ℕ) → n ≤ max_int → atoi (format_int n) ≡ some (pos n)
unfolding format_int
atoi-format_int n h =
    let fits : ltb max_int n ≡ false = ground arith in
    atoi-digits (digits_before n n []) (digits_before-StartsWithDigit n n [] (omega arith))
    ∙ (ap positive (digits_before-reads n n [] (omega arith)) ∙ read_all n fits)
