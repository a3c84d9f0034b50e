-- ===== src/Index/Queries/Like.antt =====
-- The pattern of a name search matches the names that contain the text literally.
use findo.Prelude.{
  ℕ, ◌≡◌, refl, ap, ◌∙◌, Bool, true, false, ◌&&◌, ◌||◌, List, [], ◌∷◌, ◌++◌, arith, ◌==◌, Text, inl,
  inr, Bool-cases,
}
use findo.Strings.{has_prefix}
use findo.Index.Queries.{
  like_escape, LikePart, exactly, any_text, like_parts, some_rest, matches, like, ilike,
  name_pattern, is_special,
}

-- strings.Contains
unfoldable pub contains : Text → Text → Bool
unfolding some_rest has_prefix
contains s q = some_rest (λ t. has_prefix t q) s

unfoldable pub literally : Text → List LikePart → List LikePart
literally [] ps = ps
literally (c ∷ s) ps = exactly c ∷ literally s ps

-- What follows a character that has no backslash before it.
like_parts-plain :
    (c : ℕ) (s : Text) → is_special c ≡ false → like_parts (c ∷ s) ≡ exactly c ∷ like_parts s
unfolding like_parts
like_parts-plain c [] h = ground arith
like_parts-plain c (d ∷ s) h = ground arith

like_parts-escape : (s t : Text) → like_parts (like_escape s ++ t) ≡ literally s (like_parts t)
unfolding like_parts like_escape literally
like_parts-escape [] t = refl
like_parts-escape (c ∷ s) t = elim (Bool-cases (is_special c)) [
  | inl special ↦ rw special (ap (λ ps. exactly c ∷ ps) (like_parts-escape s t))
  | inr plain ↦ rw plain (
      like_parts-plain c (like_escape s ++ t) plain
      ∙ ap (λ ps. exactly c ∷ ps) (like_parts-escape s t))
]

like_parts-any : (s : Text) → like_parts (b'%' ∷ s) ≡ any_text ∷ like_parts s
unfolding like_parts
like_parts-any [] = refl
like_parts-any (c ∷ s) = refl

some_rest-empty : (s : Text) → some_rest (matches []) s ≡ true
unfolding some_rest matches
some_rest-empty [] = refl
some_rest-empty (c ∷ s) = some_rest-empty s

matches-prefix : (q s : Text) → matches (literally q (any_text ∷ [])) s ≡ has_prefix s q
unfolding matches literally has_prefix
matches-prefix [] s = some_rest-empty s
matches-prefix (c ∷ q) [] = refl
matches-prefix (c ∷ q) (d ∷ s) = ap (λ b. (d == c) && b) (matches-prefix q s)

some_rest-same :
    (p r : Text → Bool) → ((s : Text) → p s ≡ r s) → (s : Text) → some_rest p s ≡ some_rest r s
unfolding some_rest
some_rest-same p r e [] = e []
some_rest-same p r e (c ∷ s) =
    ap (λ b. b || some_rest p s) (e (c ∷ s)) ∙ ap (λ b. r (c ∷ s) || b) (some_rest-same p r e s)

pub like-contains : (name q : Text) → like name (name_pattern q) ≡ contains name q
unfolding like contains
like-contains name q =
    ap (λ ps. matches ps name)
      (like_parts-any (like_escape q ++ b'%' ∷ [])
        ∙ ap (λ ps. any_text ∷ ps) (like_parts-escape q (b'%' ∷ [])))
    ∙ some_rest-same (matches (literally q (any_text ∷ []))) (λ t. has_prefix t q)
        (matches-prefix q) name

-- What is used of the database's case folding: it leaves the characters of a pattern as they are
-- and makes no others into them.
pub record IsFolding (lower : Text → Text) : Type 0 where
  pub pattern_lower : (q : Text) → lower (name_pattern q) ≡ name_pattern (lower q)

pub ilike-contains :
    (lower : Text → Text)
    → IsFolding lower
    → (name q : Text) → ilike lower name (name_pattern q) ≡ contains (lower name) (lower q)
unfolding ilike
ilike-contains lower law name q =
    ap (like (lower name)) (law.pattern_lower q) ∙ like-contains (lower name) (lower q)
