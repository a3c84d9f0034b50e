-- ===== src/Strings.antt =====
-- The functions of Go's packages strings and strconv that the program calls, over bytes.
pub mod Numbers
pub mod Runes
pub mod Decimal
use findo.Prelude.{
  ℕ, zero, suc, ◌≡◌, refl, Bool, true, false, not, ◌&&◌, ◌||◌, Option, none, some, List, [], ◌∷◌,
  ◌++◌, arith, ◌==◌, if◌then◌else◌, Text, text_eq, drop, length,
}

-- strings.HasPrefix
unfoldable pub has_prefix : Text → Text → Bool
has_prefix s [] = true
has_prefix [] (b ∷ p) = false
has_prefix (a ∷ s) (b ∷ p) = (a == b) && has_prefix s p

-- strings.TrimPrefix
unfoldable pub trim_prefix : Text → Text → Text
unfolding has_prefix
trim_prefix s p = if has_prefix s p then drop (length p) s else s

-- s[:i] for the first index i of a byte with `p`, or the whole of s
unfoldable pub before : (ℕ → Bool) → Text → Text
before p [] = []
before p (c ∷ s) = if p c then [] else c ∷ before p s

-- strings.TrimLeftFunc and strings.TrimRightFunc
unfoldable pub trim_left : (ℕ → Bool) → Text → Text
trim_left p [] = []
trim_left p (c ∷ s) = if p c then trim_left p s else c ∷ s

-- a byte is kept if a byte that stays follows it, or it stays itself
unfoldable pub push_kept : (ℕ → Bool) → ℕ → Text → Text
push_kept p c [] = if p c then [] else c ∷ []
push_kept p c (d ∷ s) = c ∷ d ∷ s

unfoldable pub trim_right : (ℕ → Bool) → Text → Text
unfolding push_kept
trim_right p [] = []
trim_right p (c ∷ s) = push_kept p c (trim_right p s)

-- strings.Trim with a cutset
unfoldable pub trim : (ℕ → Bool) → Text → Text
unfolding trim_left trim_right
trim p s = trim_right p (trim_left p s)

-- strings.Split by one byte, strings.FieldsFunc by a test: `cur` is the part that is being read
unfoldable pub start_part : ℕ → List Text → List Text
start_part c [] = (c ∷ []) ∷ []
start_part c (p ∷ ps) = (c ∷ p) ∷ ps

unfoldable pub split : (ℕ → Bool) → Text → List Text
unfolding start_part
split p [] = [] ∷ []
split p (c ∷ s) = if p c then [] ∷ split p s else start_part c (split p s)

unfoldable pub non_empty : List Text → List Text
non_empty [] = []
non_empty ([] ∷ ps) = non_empty ps
non_empty ((c ∷ p) ∷ ps) = (c ∷ p) ∷ non_empty ps

unfoldable pub fields : (ℕ → Bool) → Text → List Text
unfolding split non_empty
fields p s = non_empty (split p s)

-- strings.ReplaceAll of one byte by another
unfoldable pub replace : ℕ → ℕ → Text → Text
replace from to [] = []
replace from to (c ∷ s) = (if c == from then to else c) ∷ replace from to s

-- strings.Join
unfoldable pub join : Text → List Text → Text
join sep [] = []
join sep (p ∷ []) = p
join sep (p ∷ q ∷ ps) = p ++ (sep ++ join sep (q ∷ ps))
