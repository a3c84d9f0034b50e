-- ===== src/Extract/Office/Order.antt =====
-- The order of the numbered parts of a presentation.
use mathlib.Core.List.{Perm}
use mathlib.Core.List.Perm
use findo.Prelude.{
  ℕ, ◌≡◌, refl, sym, ap, Bool, true, false, Option, none, some, Option-cases, List, [], ◌∷◌, map,
  filter, All, Text, inl, inr,
}
use findo.Prelude.Sorts.{
  sort_by_key, Ascending, sort_by_key-Perm, sort_by_key-All, sort_by_key-Ascending,
}
use findo.Extract.Xml.{XmlPart}
use findo.Extract.Office.{Numbered, matching, part_number, numbered_parts}

abbrev is_number : Option ℕ → Bool
is_number none = false
is_number (some n) = true

abbrev pub is_numbered : Text → XmlPart → Bool
is_numbered prefix f = is_number (part_number prefix f.name)

abbrev pub HasNumber : Text → Numbered → Type 0
HasNumber prefix x = part_number prefix x.f.name ≡ some x.n

matching-filter :
    (prefix : Text) (zr : List XmlPart)
    → map (λ (x : Numbered). x.f) (matching prefix zr) ≡ filter (is_numbered prefix) zr
unfolding matching filter
matching-filter prefix [] = refl
matching-filter prefix (f ∷ zr) = elim (Option-cases (part_number prefix f.name)) [
  | inl none_here ↦ rw none_here (matching-filter prefix zr)
  | inr (n, here) ↦ rw here (ap (◌∷◌ f) (matching-filter prefix zr))
]

matching-HasNumber :
    (prefix : Text) (zr : List XmlPart) → All (HasNumber prefix) (matching prefix zr)
unfolding matching
matching-HasNumber prefix [] = tt
matching-HasNumber prefix (f ∷ zr) = elim (Option-cases (part_number prefix f.name)) [
  | inl none_here ↦ rw none_here (matching-HasNumber prefix zr)
  | inr (n, here) ↦ rw here (here, matching-HasNumber prefix zr)
]

-- The numbered parts are the entries of the package whose names match, each as often as it is there,
-- in the order of the numbers in their names.
numbered_parts-Ascending :
    (zr : List XmlPart) (prefix : Text)
    → Perm (numbered_parts zr prefix) (filter (is_numbered prefix) zr)
      × ((l : List Numbered) × (numbered_parts zr prefix ≡ map (λ (x : Numbered). x.f) l)
          × All (HasNumber prefix) l
          × Ascending (λ (x : Numbered). x.n) l)
unfolding numbered_parts
numbered_parts-Ascending zr prefix =
    let l = sort_by_key (λ (x : Numbered). x.n) (matching prefix zr) in
    let same : Perm (map (λ (x : Numbered). x.f) l) (filter (is_numbered prefix) zr) =
      rw (sym (matching-filter prefix zr)) (
        Perm.map (λ (x : Numbered). x.f)
          (sort_by_key-Perm (λ (x : Numbered). x.n) (matching prefix zr))) in
    (
      same,
      (
        l,
        refl,
        sort_by_key-All (λ (x : Numbered). x.n) (HasNumber prefix) (matching prefix zr)
            (matching-HasNumber prefix zr),
        sort_by_key-Ascending (λ (x : Numbered). x.n) (matching prefix zr),
      ),
    )
