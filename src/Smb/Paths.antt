-- ===== src/Smb/Paths.antt =====
-- What `ValidPath` keeps from the server, and the two spellings of a path.
mod Boundaries
use findo.Prelude.{
  All, ℕ, ◌≡◌, ◌≢◌, refl, sym, ap, ◌∙◌, Bool, true, false, not, some, List, [], ◌∷◌, ◌++◌, ◌⊎◌, inl,
  inr, zero, suc, arith, ◌==◌, Text, text_eq, codes, any, all, Bool-cases,
}
use findo.Strings.{
  trim, trim_left, trim_right, push_kept, fields, split, start_part, non_empty, replace,
}
use findo.Smb.Paths.Boundaries.{
  start_part-append, split-ne-nil, EndsPart, StartsPart, no_parent_between,
}
use findo.Smb.{is_separator, slash_only, valid_path, to_smb_path, open_path, or_root}

-- Changing one separator into the other moves no boundary.
split-replace : (s : Text) → split is_separator (replace b'/' b'\\' s) ≡ split is_separator s
unfolding split replace
split-replace [] = refl
split-replace (c ∷ s) = elim (Bool-cases (c == b'/')) [
  | inl slash ↦ ground (arith, split-replace s)
  | inr other ↦ rw (other, split-replace s) (rw other)
]

fields_skip :
    (c : ℕ) (s : Text) → slash_only c ≡ true → fields is_separator (c ∷ s) ≡ fields is_separator s
unfolding fields split non_empty
fields_skip c s h = ground arith

fields-trim_left : (s : Text) → fields is_separator (trim_left slash_only s) ≡ fields is_separator s
unfolding trim_left
fields-trim_left [] = refl
fields-trim_left (c ∷ s) = elim (Bool-cases (slash_only c)) [
  | inl slash ↦ rw slash (fields-trim_left s ∙ sym (fields_skip c s slash))
  | inr other ↦ rw other
]

empties : ℕ → List Text
empties zero = []
empties (suc n) = [] ∷ empties n

non_empty-empties : (xs : List Text) (n : ℕ) → non_empty (xs ++ empties n) ≡ non_empty xs
unfolding non_empty empties
non_empty-empties [] zero = refl
non_empty-empties [] (suc n) = non_empty-empties [] n
non_empty-empties ([] ∷ xs) n = non_empty-empties xs n
non_empty-empties ((c ∷ x) ∷ xs) n = ap (◌∷◌ (c ∷ x)) (non_empty-empties xs n)

-- `ys` is `xs` but for empty parts at the end.
abbrev Padded : List Text → List Text → Type 0
Padded xs ys = (n : ℕ) × (ys ≡ xs ++ empties n)

Padded-split :
    (c : ℕ) (s t : Text)
    → Padded (split is_separator t) (split is_separator s)
    → Padded (split is_separator (c ∷ t)) (split is_separator (c ∷ s))
unfolding split
Padded-split c s t (n, e) = elim (Bool-cases (is_separator c)) [
  | inl sep ↦ (n, rw (sep, e))
  | inr other ↦
      (n, rw (other, e) (start_part-append c (split is_separator t) (empties n) (split-ne-nil t)))
]

push_kept-cases :
    (c : ℕ) (t : Text)
    → (push_kept slash_only c t ≡ c ∷ t)
      ⊎ ((t ≡ []) × (slash_only c ≡ true) × (push_kept slash_only c t ≡ []))
unfolding push_kept
push_kept-cases c [] = elim (Bool-cases (slash_only c)) [
  | inl slash ↦ inr (refl, slash, rw slash)
  | inr other ↦ inl (rw other)
]
push_kept-cases c (d ∷ t) = inl refl

after_slash :
    (c : ℕ) (s : Text) (n : ℕ)
    → slash_only c ≡ true
    → split is_separator s ≡ split is_separator [] ++ empties n
    → split is_separator (c ∷ s) ≡ split is_separator [] ++ empties (suc n)
unfolding split empties
after_slash c s n slash e = ground (arith, e)

Padded-trim_right :
    (s : Text) → Padded (split is_separator (trim_right slash_only s)) (split is_separator s)
unfolding trim_right
Padded-trim_right [] = (0, unfold split empties in refl)
Padded-trim_right (c ∷ s) = elim (push_kept-cases c (trim_right slash_only s)) [
  | inl kept ↦ rw kept (Padded-split c s (trim_right slash_only s) (Padded-trim_right s))
  | inr (nil, slash, gone) ↦
      let (n, e) = Padded-trim_right s in rw gone (suc n, after_slash c s n slash (rw nil at e))
]

fields-trim_right :
    (s : Text) → fields is_separator (trim_right slash_only s) ≡ fields is_separator s
unfolding fields
fields-trim_right s =
    let (n, e) = Padded-trim_right s in
    sym (ap non_empty e ∙ non_empty-empties (split is_separator (trim_right slash_only s)) n)

fields-trim : (s : Text) → fields is_separator (trim slash_only s) ≡ fields is_separator s
unfolding trim
fields-trim s = fields-trim_right (trim_left slash_only s) ∙ fields-trim_left s

fields-replace : (s : Text) → fields is_separator (replace b'/' b'\\' s) ≡ fields is_separator s
unfolding fields
fields-replace s = ap non_empty (split-replace s)

abbrev is_nul : ℕ → Bool
is_nul c = c == 0

-- A byte that the string does not have, what is trimmed from it does not have either.
module _ (p : ℕ → Bool) where
  any-trim_left : (s : Text) → any p s ≡ false → any p (trim_left slash_only s) ≡ false
  unfolding any trim_left
  any-trim_left [] h = refl
  any-trim_left (c ∷ s) h = ground (arith, any-trim_left s)

  any-push_kept :
      (c : ℕ) (s : Text) → p c ≡ false → any p s ≡ false → any p (push_kept slash_only c s) ≡ false
  unfolding any push_kept
  any-push_kept c [] h k = ground arith
  any-push_kept c (d ∷ s) h k = ground arith

  any-trim_right : (s : Text) → any p s ≡ false → any p (trim_right slash_only s) ≡ false
  unfolding any trim_right
  any-trim_right [] h = refl
  any-trim_right (c ∷ s) h =
      any-push_kept c (trim_right slash_only s) (ground arith) (any-trim_right s (ground arith))

  any-trim : (s : Text) → any p s ≡ false → any p (trim slash_only s) ≡ false
  unfolding trim
  any-trim s h = any-trim_right (trim_left slash_only s) (any-trim_left s h)

any-replace : (s : Text) → any is_nul s ≡ false → any is_nul (replace b'/' b'\\' s) ≡ false
unfolding any replace
any-replace [] h = refl
any-replace (c ∷ s) h = ground (arith, any-replace s)

no_slash : (s : Text) → any slash_only (replace b'/' b'\\' s) ≡ false
unfolding any replace
no_slash [] = refl
no_slash (c ∷ s) = ground (arith, no_slash s)

no_parent : List Text → Bool
unfolding all
no_parent = all (λ seg. not (text_eq seg (codes "..")))

-- A path that passes the test again and has no slash.
abbrev IsChecked : Text → Type 0
IsChecked q = (valid_path q ≡ true) × (any slash_only q ≡ false)

or_root-IsChecked :
    (t : Text)
    → any is_nul t ≡ false
    → no_parent (fields is_separator t) ≡ true
    → IsChecked (or_root t)
unfolding valid_path no_parent
or_root-IsChecked [] h k = (unfold valid_path any in refl, unfold any in refl)
or_root-IsChecked (c ∷ t) h k =
    (rw (any-replace (c ∷ t) h, fields-replace (c ∷ t)) k, no_slash (c ∷ t))

valid_path-parts :
    (p : Text)
    → valid_path p ≡ true
    → (any is_nul p ≡ false) × (no_parent (fields is_separator p) ≡ true)
unfolding valid_path no_parent
valid_path-parts p h = ground arith

to_smb_path-IsChecked : (p : Text) → valid_path p ≡ true → IsChecked (to_smb_path p)
unfolding to_smb_path
to_smb_path-IsChecked p h =
    let (nul, parent) = valid_path-parts p h in
    or_root-IsChecked (trim slash_only p) (any-trim is_nul p nul) (rw (fields-trim p) parent)

abbrev IsByte : ℕ → Type 0
IsByte c = (c ≢ 0) × (c ≢ 47)

all_bytes : (q : Text) → any is_nul q ≡ false → any slash_only q ≡ false → All IsByte q
unfolding any
all_bytes [] h k = tt
all_bytes (c ∷ q) h k = ((ground arith, ground arith), all_bytes q (ground arith) (ground arith))

-- No byte is 0 or a slash, and no `..` stands between two boundaries: the beginning, the end and the
-- backslashes.
pub record IsConfined (q : Text) : Type 0 where
  pub bytes : All (λ c. (c ≢ 0) × (c ≢ 47)) q
  pub inside :
      ¬ ((a : Text) × (b : Text) × EndsPart a × StartsPart b × (q ≡ a ++ (codes ".." ++ b)))

IsChecked-IsConfined : (q : Text) → IsChecked q → IsConfined q
unfolding no_parent
IsChecked-IsConfined q (valid, no_slashes) =
    let (nul, parent) = valid_path-parts q valid in
    record {
      bytes = all_bytes q nul no_slashes;
      inside = λ (a, b, before, after, e). no_parent_between a b before after (rw e at parent);
    }

-- A path that Open hands to the server has no NUL byte and no forward slash, and `..` is none of its
-- components, which the backslashes separate.
pub open_path-IsConfined : (p q : Text) → open_path p ≡ some q → IsConfined q
unfolding open_path
open_path-IsConfined p q h = elim (Bool-cases (valid_path p)) [
  | inl good ↦
      let same : to_smb_path p ≡ q = ground arith in
      IsChecked-IsConfined q (rw same at (to_smb_path-IsChecked p good))
  | inr bad ↦ absurd (ground arith)
]
