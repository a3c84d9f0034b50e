-- ===== src/Prelude/Sorts.antt =====
-- sort.SliceStable and sort.Slice of a list by a number.
use Prim.Native.Nat.{ℕ, ◌≤◌}
use mathlib.Core.Logic.{inl, inr}
use mathlib.Core.List.{List, [], ◌∷◌, Perm}
use mathlib.Core.List.Perm
use native.Mathlib.Omega.{arith}
use findo.Prelude.Tests.{leb, if◌then◌else◌, Bool-cases}
use findo.Prelude.Lists.{All}

module _ {ℓ} {A : Type ℓ} (key : A → ℕ) where
  unfoldable pub insert_by_key : A → List A → List A
  insert_by_key x [] = x ∷ []
  insert_by_key x (y ∷ ys) = if leb (key x) (key y) then x ∷ y ∷ ys else y ∷ insert_by_key x ys

  -- Those of one number keep their order.
  unfoldable pub sort_by_key : List A → List A
  unfolding insert_by_key
  sort_by_key [] = []
  sort_by_key (x ∷ xs) = insert_by_key x (sort_by_key xs)

  abbrev pub Ascending : List A → Type 0
  Ascending [] = Unit
  Ascending (x ∷ xs) = All (λ y. key x ≤ key y) xs × Ascending xs

  insert_by_key-Perm : (x : A) (l : List A) → Perm (insert_by_key x l) (x ∷ l)
  unfolding insert_by_key
  insert_by_key-Perm x [] = Perm.rfl
  insert_by_key-Perm x (y ∷ ys) = elim (Bool-cases (leb (key x) (key y))) [
    | inl le ↦ rw le Perm.rfl
    | inr gt ↦ rw gt (Perm.trans (Perm.cons y (insert_by_key-Perm x ys)) (Perm.swap x y ys))
  ]

  pub sort_by_key-Perm : (l : List A) → Perm (sort_by_key l) l
  unfolding sort_by_key
  sort_by_key-Perm [] = Perm.nil
  sort_by_key-Perm (x ∷ xs) =
      Perm.trans (insert_by_key-Perm x (sort_by_key xs)) (Perm.cons x (sort_by_key-Perm xs))

  insert_by_key-All {κ} :
      (P : A → Type κ) (x : A) (l : List A) → P x → All P l → All P (insert_by_key x l)
  unfolding insert_by_key
  insert_by_key-All P x [] h hs = (h, tt)
  insert_by_key-All P x (y ∷ ys) h (hy, hs) = elim (Bool-cases (leb (key x) (key y))) [
    | inl le ↦ rw le (h, (hy, hs))
    | inr gt ↦ rw gt (hy, insert_by_key-All P x ys h hs)
  ]

  pub sort_by_key-All {κ} : (P : A → Type κ) (l : List A) → All P l → All P (sort_by_key l)
  unfolding sort_by_key
  sort_by_key-All P [] h = tt
  sort_by_key-All P (x ∷ xs) (h, hs) =
      insert_by_key-All P x (sort_by_key xs) h (sort_by_key-All P xs hs)

  All-below :
      (x y : A) (l : List A)
      → key x ≤ key y
      → All (λ z. key y ≤ key z) l
      → All (λ z. key x ≤ key z) l
  All-below x y [] h hs = tt
  All-below x y (z ∷ l) h (hz, hs) = (omega (arith, h, hz), All-below x y l h hs)

  insert_by_key-Ascending : (x : A) (l : List A) → Ascending l → Ascending (insert_by_key x l)
  unfolding insert_by_key
  insert_by_key-Ascending x [] h = (tt, tt)
  insert_by_key-Ascending x (y ∷ ys) (below, h) = elim (Bool-cases (leb (key x) (key y))) [
    | inl le ↦
        let l : key x ≤ key y = ground arith in rw le ((l, All-below x y ys l below), (below, h))
    | inr gt ↦
        let l : key y ≤ key x = ground arith in
        rw gt (insert_by_key-All (λ z. key y ≤ key z) x ys l below, insert_by_key-Ascending x ys h)
  ]

  pub sort_by_key-Ascending : (l : List A) → Ascending (sort_by_key l)
  unfolding sort_by_key
  sort_by_key-Ascending [] = tt
  sort_by_key-Ascending (x ∷ xs) =
      insert_by_key-Ascending x (sort_by_key xs) (sort_by_key-Ascending xs)
