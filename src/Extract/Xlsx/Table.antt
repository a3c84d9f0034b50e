-- ===== src/Extract/Xlsx/Table.antt =====
-- The strings of a table of shared strings, as a tree: backend/internal/extract/xlsx.go,
-- readSharedStrings without its cap.
use findo.Prelude.{
  ◌≡◌, refl, ap, ◌∙◌, Bool, true, false, not, ◌&&◌, ◌||◌, &&-true, Option, none, List, [], ◌∷◌,
  ◌++◌, append_assoc, append-nil, sym, Bool-cases, inl, inr, if◌then◌else◌, Text, text_eq, codes,
}
use findo.Extract.Proto.{FormatError}
use findo.Extract.Xml.{Attr, Token, start_tag, end_tag, chars, other_token, ScanEnd, scan}
use findo.Extract.Xml.Tree.{
  Node, element, text_node, comment, Forest, nil, cons, node_tokens, forest_tokens, scan-start,
  scan-fallback, scan-end, scan-chars, scan-other,
}
use findo.Extract.Office.Body.{is_t}
use findo.Extract.Xlsx.{never_full, is_phonetic, Strings, no_strings}

-- The text since the last string, and the strings.
abbrev pub Found : Type 0
Found = Text × List Text

abbrev pub end_string : Text → Found → Found
end_string name (cur, out) =
    if is_t name
    then (cur, out)
    else if text_eq name (codes "si")
    then ([], out ++ cur ∷ [])
    else (cur, out)

-- The text in `t` elements up to the end of each `si`, and nothing of a phonetic run.
unfoldable mutual
  pub strings_of_node : Bool → Node → Found → Found
  strings_of_node inside (element name attrs kids) found =
      let below = strings_of_forest (is_t name || inside) kids found in
      if is_phonetic name then found else end_string name below
  strings_of_node inside (text_node t) (cur, out) = if inside then (cur ++ t, out) else (cur, out)
  strings_of_node inside comment found = found

  pub strings_of_forest : Bool → Forest → Found → Found
  strings_of_forest inside nil found = found
  strings_of_forest inside (cons n f) found =
      strings_of_forest inside f (strings_of_node inside n found)

unfoldable pub all_strings : Forest → List Text
unfolding strings_of_forest
all_strings table = (strings_of_forest false table ([], [])).1

-- No `t` element stands in another one.
unfoldable mutual
  pub node_is_flat : Bool → Node → Bool
  node_is_flat inside (element name attrs kids) =
      let flat = table_is_flat (is_t name || inside) kids in
      is_phonetic name || (not (is_t name && inside) && flat)
  node_is_flat inside (text_node t) = true
  node_is_flat inside comment = true

  pub table_is_flat : Bool → Forest → Bool
  table_is_flat inside nil = true
  table_is_flat inside (cons n f) = node_is_flat inside n && table_is_flat inside f

-- The strings with no cap, token by token.
unfoldable pub uncapped_step : Strings → Token → Strings
uncapped_step s (start_tag name attrs) = if is_t name then record s { in_t = true } else s
uncapped_step s (end_tag name) =
    if is_t name
    then record s { in_t = false }
    else if text_eq name (codes "si")
    then record s { out = s.out ++ s.cur ∷ []; cur = [] }
    else s
uncapped_step s (chars t) = if s.in_t then record s { cur = s.cur ++ t } else s
uncapped_step s other_token = s

abbrev pub holding : Bool → Found → Strings
holding inside found = record { out = found.1; cur = found.0; kept = 0; in_t = inside }

abbrev loop : List Token → Option FormatError → Strings → Strings × ScanEnd
loop = scan is_phonetic uncapped_step never_full none

start_lem :
    (name : Text) (attrs : List Attr) (inside : Bool) (found : Found)
    → uncapped_step (holding inside found) (start_tag name attrs)
      ≡ holding (is_t name || inside) found
unfolding uncapped_step
start_lem name attrs inside found = elim (Bool-cases (is_t name)) [
  | inl yes_t ↦ rw yes_t refl
  | inr no_t ↦ rw no_t refl
]

end_lem :
    (name : Text) (inside : Bool) (found : Found)
    → not (is_t name && inside) ≡ true
    → uncapped_step (holding (is_t name || inside) found) (end_tag name)
      ≡ holding inside (end_string name found)
unfolding uncapped_step
end_lem name inside (cur, out) h = elim (Bool-cases (is_t name)) [
  | inl yes_t ↦ rw yes_t (outside inside (rw yes_t at h))
  | inr no_t ↦ rw no_t (elim (Bool-cases (text_eq name (codes "si"))) [
    | inl ends ↦ rw ends refl
    | inr other ↦ rw other refl
  ])
]
  where
    outside : (b : Bool) → not b ≡ true → holding false (cur, out) ≡ holding b (cur, out)
    outside true e = cc
    outside false e = refl

mutual
  unfolding node_tokens strings_of_node node_is_flat uncapped_step

  collect-node :
      (n : Node) (rest : List Token) (failure : Option FormatError) (inside : Bool) (found : Found)
      → node_is_flat inside n ≡ true
      → loop (node_tokens n ++ rest) failure (holding inside found)
        ≡ loop rest failure (holding inside (strings_of_node inside n found))
  collect-node (element name attrs kids) rest failure inside found flat =
      elim (Bool-cases (is_phonetic name)) [
        | inl skipped ↦ rw skipped (
            scan-fallback is_phonetic uncapped_step never_full name attrs kids rest failure
              (holding inside found) skipped refl)
        | inr taken ↦
            let here : (not (is_t name && inside) && table_is_flat (is_t name || inside) kids)
                ≡ true =
              rw taken at flat in
            let (nested, below) =
              &&-true (not (is_t name && inside)) (table_is_flat (is_t name || inside) kids) here in
            let deep = is_t name || inside in
            let inner = collect-forest kids (end_tag name ∷ rest) failure deep found below in
            rw taken (
              scan-start is_phonetic uncapped_step never_full name attrs
                ((forest_tokens kids ++ end_tag name ∷ []) ++ rest) failure (holding inside found)
                taken refl
              ∙ (ap (loop ((forest_tokens kids ++ end_tag name ∷ []) ++ rest) failure)
                    (start_lem name attrs inside found)
                  ∙ (ap (λ ts. loop ts failure (holding deep found))
                        (append_assoc (forest_tokens kids) (end_tag name ∷ []) rest)
                      ∙ (inner
                          ∙ (scan-end is_phonetic uncapped_step never_full name rest failure
                                (holding deep (strings_of_forest deep kids found)) refl
                              ∙ ap (loop rest failure) (
                                  end_lem name inside (strings_of_forest deep kids found)
                                    nested))))))
      ]
  collect-node (text_node t) rest failure true (cur, out) flat =
      scan-chars is_phonetic uncapped_step never_full t rest failure (holding true (cur, out)) refl
  collect-node (text_node t) rest failure false (cur, out) flat =
      scan-chars is_phonetic uncapped_step never_full t rest failure (holding false (cur, out)) refl
  collect-node comment rest failure inside found flat =
      scan-other is_phonetic uncapped_step never_full rest failure (holding inside found) refl

  collect-forest :
      (f : Forest) (rest : List Token) (failure : Option FormatError) (inside : Bool)
      (found : Found)
      → table_is_flat inside f ≡ true
      → loop (forest_tokens f ++ rest) failure (holding inside found)
        ≡ loop rest failure (holding inside (strings_of_forest inside f found))
  collect-forest nil rest failure inside found flat = refl
  collect-forest (cons n f) rest failure inside found flat =
      let (here, below) = &&-true (node_is_flat inside n) (table_is_flat inside f) flat in
      ap (λ ts. loop ts failure (holding inside found))
        (append_assoc (node_tokens n) (forest_tokens f) rest)
      ∙ (collect-node n (forest_tokens f ++ rest) failure inside found here
          ∙ collect-forest f rest failure inside (strings_of_node inside n found) below)

pub scan-all_strings :
    (table : Forest)
    → table_is_flat false table ≡ true
    → (scan is_phonetic uncapped_step never_full none (forest_tokens table) none no_strings).0.out
      ≡ all_strings table
unfolding scan all_strings
scan-all_strings table flat =
    ap (λ ts. (loop ts none no_strings).0.out) (sym (append-nil (forest_tokens table)))
    ∙ ap (λ (r : Strings × ScanEnd). r.0.out) (collect-forest table [] none false ([], []) flat)
