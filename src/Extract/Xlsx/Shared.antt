-- ===== src/Extract/Xlsx/Shared.antt =====
-- The shared strings of a spreadsheet.
use findo.Prelude.{
  ℕ, ◌+◌, ◌-◌, leb, ◌≤◌, ◌≡◌, refl, sym, ap, ◌∙◌, Bool, true, false, none, List, [], ◌∷◌, ◌++◌,
  arith, ltb, if◌then◌else◌, inl, inr, Bool-cases, Text, text_eq, codes, length, some,
}
use findo.Extract.Xml.{Token, start_tag, end_tag, chars, other_token, XmlPart}
use findo.Extract.Xml.Tree.{Forest, forest_tokens, scan-whole}
use findo.Extract.Xml.Invariant.{scan-related}
use findo.Extract.Office.{find_xml_part}
use findo.Extract.Office.Body.{is_t}
use findo.Extract.Xlsx.Table.{all_strings, table_is_flat, uncapped_step, scan-all_strings}
use findo.Extract.Xlsx.{
  loaded, max_shared_text, is_phonetic, Strings, item, end_item, strings_step, no_strings,
  read_shared_strings,
}

-- The bytes of all strings.
unfoldable pub total : List Text → ℕ
total [] = 0
total (s ∷ ss) = length s + total ss

-- A string that the room is enough for, and nothing in place of a longer one.
abbrev pub fits : ℕ → Text → Text
fits room s = if leb (length s) room then s else []

-- The strings in their places, each one kept where the room that the kept ones before it leave is
-- enough for it.
unfoldable pub fitted : ℕ → List Text → List Text
fitted room [] = []
fitted room (s ∷ ss) = fits room s ∷ fitted (room - length (fits room s)) ss

abbrev pub Aligned : List Text → List Text → Type 0
unfolding fitted
Aligned ss all = ss ≡ fitted max_shared_text all

total-append : (as' bs : List Text) → total (as' ++ bs) ≡ total as' + total bs
unfolding total
total-append [] bs = omega arith
total-append (a ∷ as') bs = omega (arith, total-append as' bs)

fitted-append :
    (room : ℕ) (ss : List Text) (t : Text)
    → fitted room (ss ++ t ∷ []) ≡ fitted room ss ++ fits (room - total (fitted room ss)) t ∷ []
unfolding fitted total
fitted-append room [] t = ap (λ n. fits n t ∷ []) (omega arith)
fitted-append room (s ∷ ss) t =
    let kept = fits room s in
    let rest = fitted (room - length kept) ss in
    let same : room - length kept - total rest ≡ room - (length kept + total rest) = omega arith in
    ap (◌∷◌ kept) (fitted-append (room - length kept) ss t ∙ ap (λ n. rest ++ fits n t ∷ []) same)

record Tracks (s u : Strings) : Type 0 where
  cur : s.cur ≡ u.cur
  in_t : s.in_t ≡ u.in_t
  kept : total s.out ≡ s.kept
  bound : s.kept ≤ max_shared_text
  aligned : s.out ≡ fitted max_shared_text u.out

no_strings-Tracks : Tracks no_strings no_strings
unfolding total fitted
no_strings-Tracks = record {
  cur = refl;
  in_t = refl;
  kept = refl;
  bound = omega arith;
  aligned = refl;
}

item-fits :
    (s : Strings) → s.kept ≤ max_shared_text → item s ≡ fits (max_shared_text - s.kept) s.cur
item-fits s h = elim (Bool-cases (ltb max_shared_text (s.kept + length s.cur))) [
  | inl over ↦
      let long : leb (length s.cur) (max_shared_text - s.kept) ≡ false = ground arith in
      rw (over, long) refl
  | inr small ↦
      let short : leb (length s.cur) (max_shared_text - s.kept) ≡ true = ground arith in
      rw (small, short) refl
]

item-le : (s : Strings) → s.kept ≤ max_shared_text → s.kept + length (item s) ≤ max_shared_text
item-le s h = elim (Bool-cases (ltb max_shared_text (s.kept + length s.cur))) [
  | inl over ↦ rw over (omega (arith, h))
  | inr fits ↦ let le : s.kept + length s.cur ≤ max_shared_text = ground arith in rw fits le
]

end_item-Tracks :
    (s u : Strings)
    → Tracks s u
    → Tracks (end_item s) (record u { out = u.out ++ u.cur ∷ []; cur = [] })
unfolding total
end_item-Tracks s u h = record {
  cur = refl;
  in_t = h.in_t;
  kept = omega (arith, total-append s.out (item s ∷ []), h.kept);
  bound = item-le s h.bound;
  aligned =
      let room : max_shared_text - s.kept ≡ max_shared_text - total (fitted max_shared_text u.out) =
        ap (λ n. max_shared_text - n) (sym h.kept ∙ ap total h.aligned) in
      ap (λ o. o ++ item s ∷ []) h.aligned
      ∙ (ap (λ t. fitted max_shared_text u.out ++ t ∷ [])
            (item-fits s h.bound ∙ (ap (λ n. fits n s.cur) room ∙ ap (fits _) h.cur))
          ∙ sym (fitted-append max_shared_text u.out u.cur));
}

flag-Tracks :
    (s u : Strings) (b : Bool) → Tracks s u → Tracks (record s { in_t = b }) (record u { in_t = b })
flag-Tracks s u b h = record {
  cur = h.cur;
  in_t = refl;
  kept = h.kept;
  bound = h.bound;
  aligned = h.aligned;
}

text-Tracks :
    (s u : Strings) (t : Text)
    → Tracks s u
    → Tracks
        (record s { cur = s.cur ++ t; in_t = true })
        (record u { cur = u.cur ++ t; in_t = true })
text-Tracks s u t h = record {
  cur = ap (λ c. c ++ t) h.cur;
  in_t = refl;
  kept = h.kept;
  bound = h.bound;
  aligned = h.aligned;
}

step-Tracks :
    (s u : Strings) (t : Token) → Tracks s u → Tracks (strings_step s t) (uncapped_step u t)
unfolding strings_step uncapped_step
step-Tracks s u (start_tag name attrs) h = elim (Bool-cases (is_t name)) [
  | inl yes_t ↦ rw yes_t (flag-Tracks s u true h)
  | inr no_t ↦ rw no_t h
]
step-Tracks s u (end_tag name) h = elim (Bool-cases (is_t name)) [
  | inl yes_t ↦ rw yes_t (flag-Tracks s u false h)
  | inr no_t ↦ rw no_t (elim (Bool-cases (text_eq name (codes "si"))) [
    | inl ends ↦ rw ends (end_item-Tracks s u h)
    | inr other ↦ rw other h
  ])
]
step-Tracks s u (chars t) h = elim (Bool-cases s.in_t) [
  | inl inside ↦
      let inside' : u.in_t ≡ true = sym h.in_t ∙ inside in
      simp (inside, inside') (text-Tracks s u t h)
  | inr outside ↦ let outside' : u.in_t ≡ false = sym h.in_t ∙ outside in simp (outside, outside') h
]
step-Tracks s u other_token h = h

-- For a table of shared strings that is a well-formed document with no `t` element in another, a list
-- is read that has a string for each `si` element, in its place: the text of its `t` elements outside of phonetic runs where what
-- the strings kept before it leave of 32 MiB is enough for it, and only otherwise the empty one. All
-- strings together are at most 32 MiB.
pub read_shared_strings-Aligned :
    (zr : List XmlPart) (f : XmlPart) (doc : Forest)
    → find_xml_part zr (codes "xl/sharedStrings.xml") ≡ some f
    → f.opened ≡ some (record { tokens = forest_tokens doc; failure = none })
    → table_is_flat false doc ≡ true
    → (ss : List Text) × (read_shared_strings zr ≡ loaded ss)
      × (total ss ≤ max_shared_text)
      × Aligned ss (all_strings doc)
unfolding read_shared_strings total Aligned
read_shared_strings-Aligned zr f doc found opened flat =
    let (s, whole) = scan-whole is_phonetic strings_step doc no_strings in
    let both =
      scan-related is_phonetic strings_step uncapped_step Tracks step-Tracks none
        (forest_tokens doc) none no_strings no_strings no_strings-Tracks in
    let h : Tracks s _ = rw whole at both in
    (
      s.out,
      rw (found, opened, whole) refl,
      omega (arith, h.kept, h.bound),
      h.aligned ∙ ap (fitted max_shared_text) (scan-all_strings doc flat),
    )
