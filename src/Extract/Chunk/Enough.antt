-- ===== src/Extract/Chunk/Enough.antt =====
-- Cutting a long text ends.
use findo.Prelude.{
  ℕ, zero, suc, ◌≤◌, ◌<◌, ◌≡◌, refl, ap, Bool, true, false, List, [], ◌∷◌, arith, if◌then◌else◌,
  leb, Text, take, drop, length, length-drop-le,
}
use findo.Strings.Runes.{trim_space}
use findo.Extract.Chunk.{push_piece, split_loop}
use findo.Extract.Chunk.Bounds.{length-trim_space, or_whole_rune-positive, cut_of}

length-drop-lt : (n a : ℕ) (s : Text) → 1 ≤ n → length (drop n (a ∷ s)) ≤ length s
length-drop-lt zero a s h = ground arith
length-drop-lt (suc n) a s h = length-drop-le n s

shorter :
    (a : ℕ) (s : Text) (target : ℕ)
    → length (trim_space (drop (cut_of (a ∷ s) target) (a ∷ s))) ≤ length s
shorter a s target = omega (
  arith,
  length-trim_space (drop (cut_of (a ∷ s) target) (a ∷ s)),
  length-drop-lt (cut_of (a ∷ s) target) a s (or_whole_rune-positive _ a s),
)

same_if : (b : Bool) (x y z : List Text) → y ≡ z → (if b then x else y) ≡ (if b then x else z)
same_if b x y z h = ap (λ t. if b then x else t) h

unused_else :
    (b : Bool) (x y z : List Text) → b ≡ true → (if b then x else y) ≡ (if b then x else z)
unused_else true x y z h = refl
unused_else false x y z h = cc

-- The loop that cuts a long text ends within one round for each byte and one more: more fuel
-- changes nothing, whatever the target, 0 included.
split_loop_enough :
    (n m : ℕ) (s : Text) (target : ℕ)
    → length s < n
    → length s < m
    → split_loop n s target ≡ split_loop m s target
unfolding split_loop
split_loop_enough zero m s target h k = ground arith
split_loop_enough (suc n) zero s target h k = ground arith
split_loop_enough (suc n) (suc m) [] target h k = unused_else (leb 0 target) _ _ _ (ground arith)
split_loop_enough (suc n) (suc m) (a ∷ s) target h k = same_if (leb (length (a ∷ s)) target) _ _ _ (
    ap (push_piece (trim_space (take (cut_of (a ∷ s) target) (a ∷ s)))) (
      split_loop_enough n m (trim_space (drop (cut_of (a ∷ s) target) (a ∷ s))) target
        (omega (arith, shorter a s target, h)) (omega (arith, shorter a s target, k))))
