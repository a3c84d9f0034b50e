-- ===== src/Smb/Paths/Boundaries.antt =====
-- Where the components of a path begin and end: backend/internal/smbclient/smbclient.go, ValidPath.
use findo.Prelude.{
  ◌≡◌, ◌≢◌, refl, sym, ap, ◌∙◌, Bool, true, false, not, &&-true, List, [], ◌∷◌, ◌++◌, inl, inr,
  append_assoc, Text, text_eq, codes, all, Bool-cases, ℕ,
}
use findo.Strings.{fields, split, start_part, non_empty}
use findo.Smb.{is_separator}

pub start_part-append :
    (c : ℕ) (xs es : List Text) → xs ≢ [] → start_part c (xs ++ es) ≡ start_part c xs ++ es
unfolding start_part
start_part-append c [] es h = absurd (h refl)
start_part-append c (x ∷ xs) es h = refl

start_part-ne-nil : (c : ℕ) (xs : List Text) → start_part c xs ≢ []
unfolding start_part
start_part-ne-nil c [] e = cc
start_part-ne-nil c (x ∷ xs) e = cc

pub split-ne-nil : (s : Text) → split is_separator s ≢ []
unfolding split
split-ne-nil [] = λ e. cc
split-ne-nil (c ∷ s) = elim (Bool-cases (is_separator c)) [
  | inl sep ↦ rw sep (λ e. cc)
  | inr other ↦ rw other (start_part-ne-nil c (split is_separator s))
]

-- A component begins after this text: it is empty or ends in a backslash.
pub data EndsPart : Text → Type 0 where
  at_start : EndsPart []
  after_backslash : (a : Text) → EndsPart (a ++ b'\\' ∷ [])

-- A component ends before this text: it is empty or begins with a backslash.
pub data StartsPart : Text → Type 0 where
  at_end : StartsPart []
  before_backslash : (b : Text) → StartsPart (b'\\' ∷ b)

split-backslash :
    (a t : Text)
    → split is_separator (a ++ b'\\' ∷ t) ≡ split is_separator a ++ split is_separator t
unfolding split
split-backslash [] t = refl
split-backslash (c ∷ a) t = elim (Bool-cases (is_separator c)) [
  | inl sep ↦ rw (sep, split-backslash a t) refl
  | inr other ↦
      rw (other, split-backslash a t)
        (start_part-append c (split is_separator a) (split is_separator t) (split-ne-nil a))
]

non_empty-append : (xs ys : List Text) → non_empty (xs ++ ys) ≡ non_empty xs ++ non_empty ys
unfolding non_empty
non_empty-append [] ys = refl
non_empty-append ([] ∷ xs) ys = non_empty-append xs ys
non_empty-append ((c ∷ x) ∷ xs) ys = ap (◌∷◌ (c ∷ x)) (non_empty-append xs ys)

all-last : (p : Text → Bool) (xs ys : List Text) → all p (xs ++ ys) ≡ true → all p ys ≡ true
unfolding all
all-last p [] ys h = h
all-last p (x ∷ xs) ys h = all-last p xs ys (&&-true (p x) _ h).1

-- Every component is one that the test accepts, also those after a boundary.
all-after :
    (p : Text → Bool) (a t : Text)
    → EndsPart a
    → all p (fields is_separator (a ++ t)) ≡ true
    → all p (fields is_separator t) ≡ true
unfolding fields
all-after p _ t at_start h = h
all-after p _ t (after_backslash a) h =
    let parts : non_empty (split is_separator ((a ++ b'\\' ∷ []) ++ t))
        ≡ non_empty (split is_separator a) ++ non_empty (split is_separator t) =
      ap (λ s. non_empty (split is_separator s)) (append_assoc a (b'\\' ∷ []) t)
      ∙ (ap non_empty (split-backslash a t)
          ∙ non_empty-append (split is_separator a) (split is_separator t)) in
    all-last p (non_empty (split is_separator a)) (non_empty (split is_separator t)) (rw parts at h)

abbrev is_other : Text → Bool
is_other seg = not (text_eq seg (codes ".."))

parent_found :
    (b : Text) → StartsPart b → all is_other (fields is_separator (codes ".." ++ b)) ≡ false
unfolding fields split non_empty all text_eq
parent_found _ at_end = refl
parent_found _ (before_backslash b) = refl

pub no_parent_between :
    (a b : Text)
    → EndsPart a
    → StartsPart b
    → all is_other (fields is_separator (a ++ (codes ".." ++ b))) ≢ true
no_parent_between a b before after h =
    let accepted = all-after is_other a (codes ".." ++ b) before h in
    let found = parent_found b after in let both : false ≡ true = sym found ∙ accepted in cc
