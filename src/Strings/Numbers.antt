-- ===== src/Strings/Numbers.antt =====
-- strconv.Atoi on a 64-bit machine.
use findo.Prelude.{
  ℕ, zero, suc, ◌+◌, ◌-◌, ◌*◌, ◌^◌, ◌≡◌, refl, Bool, ◌&&◌, Option, none, some, [], ◌∷◌, ltb, leb,
  ◌==◌, if◌then◌else◌, Text, codes,
}
use findo.Prelude.Int.{ℤ, pos, negsuc}

abbrev pub max_int : ℕ
max_int = 2 ^ 63 - 1

unfoldable pub is_digit : ℕ → Bool
is_digit c = leb b'0' c && leb c b'9'

unfoldable pub digits_from : ℕ → Text → Option ℕ
unfolding is_digit
digits_from n [] = some n
digits_from n (c ∷ s) = if is_digit c then digits_from (n * 10 + (c - b'0')) s else none

-- at least one digit
unfoldable pub digits : Text → Option ℕ
unfolding digits_from
digits [] = none
digits (c ∷ s) = digits_from 0 (c ∷ s)

abbrev pub positive : Option ℕ → Option ℤ
positive none = none
positive (some n) = if ltb max_int n then none else some (pos n)

abbrev pub negative : Option ℕ → Option ℤ
negative none = none
negative (some zero) = some (pos 0)
negative (some (suc n)) = if ltb max_int n then none else some (negsuc n)

unfoldable pub atoi : Text → Option ℤ
unfolding digits
atoi [] = none
atoi (c ∷ s) =
    if c == b'-'
    then negative (digits s)
    else if c == b'+'
    then positive (digits s)
    else positive (digits (c ∷ s))

atoi_reads :
    (atoi (codes "042") ≡ some (pos 42))
    × (atoi (codes "-7") ≡ some (negsuc 6))
    × (atoi (codes "+") ≡ none)
    × (atoi (codes "9223372036854775808") ≡ none)
unfolding atoi
atoi_reads = (refl, refl, refl, refl)
