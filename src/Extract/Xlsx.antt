-- ===== src/Extract/Xlsx.antt =====
-- backend/internal/extract/xlsx.go: readSharedStrings and readSheets.
pub mod Table
pub mod Shared
pub mod Sheet
pub mod Workbook
use findo.Prelude.{
  ℕ, ◌+◌, Bool, true, false, ◌&&◌, Option, none, some, List, [], ◌∷◌, ◌++◌, ltb, if◌then◌else◌,
  Text, text_eq, codes, length,
}
use findo.Strings.{has_prefix, trim_prefix}
use findo.Index.Paths.{clean}
use findo.Extract.Proto.{FormatError, not_opened}
use findo.Extract.Xml.{
  Attr, Token, start_tag, end_tag, chars, other_token, Xml, XmlPart, ScanEnd, at_eof, stopped,
  damaged, attr_or, scan, scan_opened,
}
use findo.Extract.Office.{find_xml_part}
use findo.Extract.Office.Body.{is_t}

abbrev pub max_shared_text : ℕ
max_shared_text = 33554432

-- The names of parts in an error's text are left out.
pub data LoadResult {ℓ} (A : Type ℓ) : Type ℓ where
  loaded : A → LoadResult A
  broken : FormatError → LoadResult A

abbrev pub never_full {ℓ} : {S : Type ℓ} → S → Bool
never_full s = false

abbrev pub skips_none : Text → Bool
skips_none name = false

abbrev pub load {ℓ κ} : {A : Type ℓ} {S : Type κ} → (S → A) → S × ScanEnd → LoadResult A
load get (s, damaged e) = broken e
load get (s, at_eof) = loaded (get s)
load get (s, stopped) = loaded (get s)

-- Phonetic runs repeat the text.
abbrev pub is_phonetic : Text → Bool
is_phonetic name = text_eq name (codes "rPh")

pub record Strings : Type 0 where
  pub out : List Text
  pub cur : Text
  pub kept : ℕ
  pub in_t : Bool

-- A string past the cap is dropped, and an empty one keeps its place.
abbrev pub item : Strings → Text
item s = if ltb max_shared_text (s.kept + length s.cur) then [] else s.cur

abbrev pub end_item : Strings → Strings
end_item s = record {
  out = s.out ++ item s ∷ [];
  cur = [];
  kept = s.kept + length (item s);
  in_t = s.in_t;
}

unfoldable pub strings_step : Strings → Token → Strings
unfolding text_eq
strings_step s (start_tag name attrs) = if is_t name then record s { in_t = true } else s
strings_step s (end_tag name) =
    if is_t name
    then record s { in_t = false }
    else if text_eq name (codes "si")
    then end_item s
    else s
strings_step s (chars t) = if s.in_t then record s { cur = s.cur ++ t } else s
strings_step s other_token = s

abbrev pub no_strings : Strings
no_strings = record { out = []; cur = []; kept = 0; in_t = false }

abbrev pub strings_in : Option XmlPart → LoadResult (List Text)
unfolding scan strings_step
strings_in none = loaded []
strings_in (some f) =
    load (λ (s : Strings). s.out)
      (scan_opened is_phonetic strings_step never_full (some not_opened) f.opened no_strings)

unfoldable pub read_shared_strings : List XmlPart → LoadResult (List Text)
unfolding find_xml_part strings_in
read_shared_strings zr = strings_in (find_xml_part zr (codes "xl/sharedStrings.xml"))

pub record Named : Type 0 where
  pub name : Text
  pub rid : Text

unfoldable pub workbook_step : List Named → Token → List Named
unfolding text_eq attr_or
workbook_step order (start_tag name attrs) =
    if text_eq name (codes "sheet")
    then order
      ++ record { name = attr_or (codes "name") attrs []; rid = attr_or (codes "id") attrs [] } ∷ []
    else order
workbook_step order (end_tag name) = order
workbook_step order (chars t) = order
workbook_step order other_token = order

-- The map from ids to targets, the last one set first.
unfoldable pub target_step : List (Text × Text) → Token → List (Text × Text)
unfolding text_eq attr_or
target_step targets (start_tag name attrs) =
    if text_eq name (codes "Relationship")
    then (attr_or (codes "Id") attrs [], attr_or (codes "Target") attrs []) ∷ targets
    else targets
target_step targets (end_tag name) = targets
target_step targets (chars t) = targets
target_step targets other_token = targets

unfoldable pub target_of : List (Text × Text) → Text → Text
unfolding text_eq
target_of [] rid = []
target_of ((id, target) ∷ targets) rid = if text_eq id rid then target else target_of targets rid

pub record SheetRef : Type 0 where
  pub name : Text
  pub path : Text

unfoldable pub part_of : Text → Text
unfolding has_prefix trim_prefix clean
part_of target =
    if has_prefix target (codes "/")
    then trim_prefix target (codes "/")
    else clean (codes "xl/" ++ target)

abbrev pub add_sheet : Text → Text → List SheetRef → List SheetRef
unfolding part_of
add_sheet name [] out = out
add_sheet name (c ∷ target) out = record { name = name; path = part_of (c ∷ target) } ∷ out

unfoldable pub resolve : List (Text × Text) → List Named → List SheetRef
unfolding target_of add_sheet
resolve targets [] = []
resolve targets (n ∷ order) = add_sheet n.name (target_of targets n.rid) (resolve targets order)

abbrev pub targets_in : Option XmlPart → LoadResult (List (Text × Text))
unfolding scan target_step
targets_in none = loaded []
targets_in (some f) =
    load (λ (s : List (Text × Text)). s)
      (scan_opened skips_none target_step never_full (some not_opened) f.opened [])

abbrev pub with_targets : List Named → LoadResult (List (Text × Text)) → LoadResult (List SheetRef)
unfolding resolve
with_targets order (broken e) = broken e
with_targets order (loaded targets) = loaded (resolve targets order)

abbrev pub with_order : List XmlPart → LoadResult (List Named) → LoadResult (List SheetRef)
unfolding find_xml_part targets_in with_targets
with_order zr (broken e) = broken e
with_order zr (loaded order) =
    with_targets order (targets_in (find_xml_part zr (codes "xl/_rels/workbook.xml.rels")))

-- on the entry xl/workbook.xml, which extractXlsx has found
unfoldable pub read_sheets : List XmlPart → XmlPart → LoadResult (List SheetRef)
unfolding scan workbook_step with_order
read_sheets zr wb = with_order zr (
    load (λ (s : List Named). s)
      (scan_opened skips_none workbook_step never_full (some not_opened) wb.opened []))
