-- ===== src/Extract/Office.antt =====
-- backend/internal/extract: the entries of an Office package by name, as docx.go and pptx.go look for
-- them (findPart of ooxml.go, optionalParts, numberedParts).
pub mod Body
pub mod Document
pub mod Order
use findo.Prelude.{
  ℕ, Bool, true, false, ◌&&◌, not, Option, none, some, List, [], ◌∷◌, ◌++◌, map, filter, find, leb,
  if◌then◌else◌, Text, text_eq, codes, drop, take, length, all, ◌-◌, ltb,
}
use findo.Prelude.Sorts.{sort_by_key}
use findo.Strings.{has_prefix}
use findo.Strings.Numbers.{max_int, digits}
use findo.Extract.Xml.{XmlPart}

unfoldable pub find_xml_part : List XmlPart → Text → Option XmlPart
unfolding find text_eq
find_xml_part zr name = find (λ (f : XmlPart). text_eq f.name name) zr

abbrev pub add_found : Option XmlPart → List XmlPart → List XmlPart
add_found none fs = fs
add_found (some f) fs = f ∷ fs

unfoldable pub optional_parts : List XmlPart → List Text → List XmlPart
unfolding find_xml_part
optional_parts zr [] = []
optional_parts zr (n ∷ ns) = add_found (find_xml_part zr n) (optional_parts zr ns)

-- strconv.Atoi on digits, its error dropped
abbrev pub capped : Option ℕ → Option ℕ
capped none = none
capped (some n) = some (if ltb max_int n then max_int else n)

-- The group of ^prefix(\d+)\.xml$ in the name as a number, none where the name does not match.
unfoldable pub part_number : Text → Text → Option ℕ
unfolding has_prefix digits
part_number prefix name =
    let rest = drop (length prefix) name in
    if has_prefix name prefix
      && (leb 4 (length rest) && text_eq (drop (length rest - 4) rest) (codes ".xml"))
    then capped (digits (take (length rest - 4) rest))
    else none

pub record Numbered : Type 0 where
  pub n : ℕ
  pub f : XmlPart

abbrev pub add_numbered : Option ℕ → XmlPart → List Numbered → List Numbered
add_numbered none f found = found
add_numbered (some n) f found = record { n = n; f = f } ∷ found

unfoldable pub matching : Text → List XmlPart → List Numbered
unfolding part_number
matching prefix [] = []
matching prefix (f ∷ zr) = add_numbered (part_number prefix f.name) f (matching prefix zr)

unfoldable pub numbered_parts : List XmlPart → Text → List XmlPart
unfolding sort_by_key matching
numbered_parts zr prefix =
    map (λ (x : Numbered). x.f) (sort_by_key (λ (x : Numbered). x.n) (matching prefix zr))
