-- ===== src/Prelude/Slices.antt =====
-- Parts of a list: what take and drop leave of each other.
use Prim.Native.Nat.{ℕ, zero, suc, ◌+◌, ◌-◌, ◌≤◌}
use mathlib.Core.Path.{◌≡◌, refl, sym, ap, ◌∙◌}
use mathlib.Core.List.{[], ◌∷◌, ◌++◌}
use native.Mathlib.Omega.{arith}
use findo.Prelude.Lists.{take, drop, length}
use findo.Prelude.Tests.{Text}

pub length-take : (n : ℕ) (xs : Text) → n ≤ length xs → length (take n xs) ≡ n
length-take zero xs h = refl
length-take (suc n) [] h = ground arith
length-take (suc n) (x ∷ xs) h = omega (arith, length-take n xs (omega arith))

pub length-take_short : (n : ℕ) (xs : Text) → length xs ≤ n → length (take n xs) ≡ length xs
length-take_short zero [] h = refl
length-take_short zero (x ∷ xs) h = ground arith
length-take_short (suc n) [] h = refl
length-take_short (suc n) (x ∷ xs) h = ap suc (length-take_short n xs (omega arith))

pub length-drop : (n : ℕ) (xs : Text) → length (drop n xs) ≡ length xs - n
length-drop zero xs = omega arith
length-drop (suc n) [] = omega arith
length-drop (suc n) (x ∷ xs) = omega (arith, length-drop n xs)

pub drop-nil : (n : ℕ) → drop {A = ℕ} n [] ≡ []
drop-nil zero = refl
drop-nil (suc n) = refl

pub take-nil : (n : ℕ) → take {A = ℕ} n [] ≡ []
take-nil zero = refl
take-nil (suc n) = refl

pub drop-drop : (m n : ℕ) (xs : Text) → drop n (drop m xs) ≡ drop (m + n) xs
drop-drop zero n xs = ap (λ k. drop k xs) (omega arith)
drop-drop (suc m) n [] = drop-nil n ∙ sym (drop-nil (suc m + n))
drop-drop (suc m) n (x ∷ xs) =
    drop-drop m n xs
    ∙ ap (λ k. drop k (x ∷ xs)) (let e : suc (m + n) ≡ suc m + n = omega arith in e)

pub drop-take : (n k : ℕ) (xs : Text) → drop n (take (n + k) xs) ≡ take k (drop n xs)
drop-take zero k xs = ap (λ m. take m xs) (omega arith)
drop-take (suc n) k [] = ap (drop (suc n)) (take-nil (suc n + k)) ∙ sym (take-nil k)
drop-take (suc n) k (x ∷ xs) =
    ap (λ m. drop (suc n) (take m (x ∷ xs))) (let e : suc n + k ≡ suc (n + k) = omega arith in e)
    ∙ drop-take n k xs

pub take-take : (n m : ℕ) (xs : Text) → n ≤ m → take n (take m xs) ≡ take n xs
take-take zero m xs h = refl
take-take (suc n) zero xs h = ground arith
take-take (suc n) (suc m) [] h = refl
take-take (suc n) (suc m) (x ∷ xs) h = ap (λ t. x ∷ t) (take-take n m xs (omega arith))

-- What is wanted, as the part that a round takes and what follows it.
pub take_in_parts :
    (m want : ℕ) (xs : Text)
    → m ≤ want
    → take want xs ≡ take m xs ++ take (want - length (take m xs)) (drop (length (take m xs)) xs)
take_in_parts zero want xs h = ap (λ k. take k xs) (omega arith)
take_in_parts (suc m) zero xs h = ground arith
take_in_parts (suc m) (suc want) [] h = sym (take-nil _)
take_in_parts (suc m) (suc want) (x ∷ xs) h =
    ap (λ t. x ∷ t)
      (take_in_parts m want xs (omega arith)
        ∙ ap (λ k. take m xs ++ take k (drop (length (take m xs)) xs)) (omega arith))

pub take_whole : (n : ℕ) (xs : Text) → length xs ≤ n → take n xs ≡ xs
take_whole zero [] h = refl
take_whole zero (x ∷ xs) h = ground arith
take_whole (suc n) [] h = refl
take_whole (suc n) (x ∷ xs) h = ap (λ t. x ∷ t) (take_whole n xs (omega arith))

pub length-take_pos : (n : ℕ) (xs : Text) → 1 ≤ n → 1 ≤ length xs → 1 ≤ length (take n xs)
length-take_pos zero xs h k = h
length-take_pos (suc n) [] h k = k
length-take_pos (suc n) (x ∷ xs) h k = omega arith

pub length-take-le_whole : (n : ℕ) (xs : Text) → length (take n xs) ≤ length xs
length-take-le_whole zero xs = omega arith
length-take-le_whole (suc n) [] = omega arith
length-take-le_whole (suc n) (x ∷ xs) = omega (arith, length-take-le_whole n xs)

pub drop_past : (n : ℕ) (xs : Text) → length xs ≤ n → drop n xs ≡ []
drop_past zero [] h = refl
drop_past zero (x ∷ xs) h = ground arith
drop_past (suc n) [] h = refl
drop_past (suc n) (x ∷ xs) h = drop_past n xs (omega arith)

pub length-take_and_drop : (n : ℕ) (xs : Text) → length (take n xs) + length (drop n xs) ≡ length xs
length-take_and_drop zero xs = omega arith
length-take_and_drop (suc n) [] = refl
length-take_and_drop (suc n) (x ∷ xs) = omega (arith, length-take_and_drop n xs)

pub take_append_drop : (n : ℕ) (s : Text) → take n s ++ drop n s ≡ s
take_append_drop zero s = refl
take_append_drop (suc n) [] = refl
take_append_drop (suc n) (c ∷ s) = ap (◌∷◌ c) (take_append_drop n s)
