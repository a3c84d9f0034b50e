-- ===== src/Extract/Office/Body/Collect.antt =====
-- What the loops over the tokens of a document collect.
use findo.Prelude.{
  ℕ, ◌+◌, ◌<◌, ◌≡◌, refl, ap, ◌∙◌, Bool, true, false, not, ◌&&◌, ◌||◌, Option, none, List, [], ◌∷◌,
  ◌++◌, append_assoc, append-nil, if◌then◌else◌, Text, length, length-append, arith, Bool-cases,
  inl, inr, &&-true,
}
use findo.Extract.Proto.{FormatError}
use findo.Extract.Sink.{full}
use findo.Extract.Sink.Room.{full-room, write-room}
use findo.Extract.Xml.{Attr, Token, start_tag, end_tag, chars, other_token, ScanEnd, scan}
use findo.Extract.Xml.Tree.{
  Node, element, text_node, comment, Forest, nil, cons, node_tokens, forest_tokens, scan-start,
  scan-fallback, scan-end, scan-chars, scan-other,
}
use findo.Extract.Office.Body.{
  is_fallback, is_t, Breaks, BodyState, body_full, body_step, node_text, forest_text, node_is_plain,
  forest_is_plain,
}

abbrev pub holds : Bool → Text → ℕ → BodyState
holds inside b max = record { in_text = inside; out = record { bytes = b; max = max } }

-- After an element's end the loop stands where it stood before, but in a `t` in a `t`.
flag_back : (is inside : Bool) → not (is && inside) ≡ true → (not is && (is || inside)) ≡ inside
flag_back true true h = cc
flag_back true false h = refl
flag_back false inside h = refl

module _ (breaks : Breaks) where
  abbrev loop : List Token → Option FormatError → BodyState → BodyState × ScanEnd
  loop = scan is_fallback (body_step breaks) body_full none

  room :
      (inside : Bool) (b : Text) (max : ℕ) → length b < max → body_full (holds inside b max) ≡ false
  unfolding body_full full
  room inside b max h = full-room (record { bytes = b; max = max }) h

  start_step :
      (name : Text) (attrs : List Attr) (inside : Bool) (b : Text) (max : ℕ)
      → length b < max
      → body_step breaks (holds inside b max) (start_tag name attrs)
        ≡ holds (is_t name || inside) (b ++ breaks.at_start name) max
  unfolding body_step
  start_step name attrs inside b max h =
      ap (λ o. record { in_text = is_t name || inside; out = o }) (write-room _ _ h)

  end_step :
      (name : Text) (inside : Bool) (b : Text) (max : ℕ)
      → length b < max
      → body_step breaks (holds inside b max) (end_tag name)
        ≡ holds (not (is_t name) && inside) (b ++ breaks.at_end name) max
  unfolding body_step
  end_step name inside b max h =
      ap (λ o. record { in_text = not (is_t name) && inside; out = o }) (write-room _ _ h)

  start_taken :
      (name : Text) (attrs : List Attr) (ts : List Token) (failure : Option FormatError)
      (inside : Bool) (b : Text) (max : ℕ)
      → is_fallback name ≡ false
      → length b + length (breaks.at_start name) < max
      → loop (start_tag name attrs ∷ ts) failure (holds inside b max)
        ≡ loop ts failure (holds (is_t name || inside) (b ++ breaks.at_start name) max)
  start_taken name attrs ts failure inside b max taken h =
      let e = start_step name attrs inside b max (omega (arith, h)) in
      let size = length-append b (breaks.at_start name) in
      scan-start is_fallback (body_step breaks) body_full name attrs ts failure (holds inside b max)
        taken (ap body_full e ∙ room _ (b ++ breaks.at_start name) max (omega (arith, h, size)))
      ∙ ap (loop ts failure) e

  end_taken :
      (name : Text) (ts : List Token) (failure : Option FormatError) (inside : Bool) (b : Text)
      (max : ℕ)
      → length b + length (breaks.at_end name) < max
      → loop (end_tag name ∷ ts) failure (holds inside b max)
        ≡ loop ts failure (holds (not (is_t name) && inside) (b ++ breaks.at_end name) max)
  end_taken name ts failure inside b max h =
      let e = end_step name inside b max (omega (arith, h)) in
      let size = length-append b (breaks.at_end name) in
      scan-end is_fallback (body_step breaks) body_full name ts failure (holds inside b max)
        (ap body_full e ∙ room _ (b ++ breaks.at_end name) max (omega (arith, h, size)))
      ∙ ap (loop ts failure) e

  text_taken :
      (t : Text) (ts : List Token) (failure : Option FormatError) (inside : Bool) (b : Text)
      (max : ℕ)
      → length b + length (if inside then t else []) < max
      → loop (chars t ∷ ts) failure (holds inside b max)
        ≡ loop ts failure (holds inside (b ++ (if inside then t else [])) max)
  unfolding body_step
  text_taken t ts failure false b max h = rw (append-nil b) (
      scan-chars is_fallback (body_step breaks) body_full t ts failure (holds false b max)
        (room false b max (omega (arith, h))))
  text_taken t ts failure true b max h =
      let e : body_step breaks (holds true b max) (chars t) ≡ holds true (b ++ t) max =
        ap (λ o. record { in_text = true; out = o })
          (write-room t (record { bytes = b; max = max }) (omega (arith, h))) in
      scan-chars is_fallback (body_step breaks) body_full t ts failure (holds true b max)
        (ap body_full e ∙ room true (b ++ t) max (omega (arith, h, length-append b t)))
      ∙ ap (loop ts failure) e

  other_taken :
      (ts : List Token) (failure : Option FormatError) (inside : Bool) (b : Text) (max : ℕ)
      → length b < max
      → loop (other_token ∷ ts) failure (holds inside b max) ≡ loop ts failure (holds inside b max)
  unfolding body_step
  other_taken ts failure inside b max h =
      scan-other is_fallback (body_step breaks) body_full ts failure (holds inside b max)
        (room inside b max h)

  element_taken :
      (name : Text) (attrs : List Attr) (kids : Forest) (rest : List Token)
      (failure : Option FormatError) (inside : Bool) (b : Text) (max : ℕ)
      → is_fallback name ≡ false
      → not (is_t name && inside) ≡ true
      → let text = forest_text breaks (is_t name || inside) kids in
        let before = b ++ breaks.at_start name in
        loop
            (forest_tokens kids ++ end_tag name ∷ rest)
            failure
            (holds (is_t name || inside) before max)
          ≡ loop (end_tag name ∷ rest) failure (holds (is_t name || inside) (before ++ text) max)
        → length b + length (breaks.at_start name ++ text ++ breaks.at_end name) < max
        → loop (node_tokens (element name attrs kids) ++ rest) failure (holds inside b max)
          ≡ loop rest failure
              (holds inside (b ++ (breaks.at_start name ++ text ++ breaks.at_end name)) max)
  unfolding node_tokens
  element_taken name attrs kids rest failure inside b max taken nested inner h =
      let text = forest_text breaks (is_t name || inside) kids in
      let s = breaks.at_start name in
      let e = breaks.at_end name in
      let size : length (s ++ text ++ e) ≡ length s + length text + length e =
        length-append (s ++ text) e ∙ ap (λ n. n + length e) (length-append s text) in
      let sizes : length ((b ++ s) ++ text) ≡ length b + length s + length text =
        length-append (b ++ s) text ∙ ap (λ n. n + length text) (length-append b s) in
      let first =
        start_taken name attrs ((forest_tokens kids ++ end_tag name ∷ []) ++ rest) failure inside b
          max taken (omega (arith, h, size)) in
      let last =
        end_taken name rest failure (is_t name || inside) ((b ++ s) ++ text) max
          (omega (arith, h, size, sizes)) in
      let parts : (((b ++ s) ++ text) ++ e) ≡ b ++ (s ++ text ++ e) =
        ap (λ t. t ++ e) (append_assoc b s text) ∙ append_assoc b (s ++ text) e in
      first
      ∙ (ap (λ ts. loop ts failure (holds (is_t name || inside) (b ++ s) max))
            (append_assoc (forest_tokens kids) (end_tag name ∷ []) rest)
          ∙ (inner ∙ (last ∙ rw (flag_back (is_t name) inside nested, parts) refl)))

  mutual
    unfolding node_text node_is_plain node_tokens

    collect-node :
        (n : Node) (rest : List Token) (failure : Option FormatError) (inside : Bool) (b : Text)
        (max : ℕ)
        → node_is_plain inside n ≡ true
        → length b + length (node_text breaks inside n) < max
        → loop (node_tokens n ++ rest) failure (holds inside b max)
          ≡ loop rest failure (holds inside (b ++ node_text breaks inside n) max)
    collect-node (element name attrs kids) rest failure inside b max plain h =
        elim (Bool-cases (is_fallback name)) [
          | inl skipped ↦
              rw (skipped, append-nil b)
                (scan-fallback is_fallback (body_step breaks) body_full name attrs kids rest failure
                  (holds inside b max) skipped (room inside b max (omega (arith, h))))
          | inr taken ↦
              let here : (not (is_t name && inside) && forest_is_plain (is_t name || inside) kids)
                  ≡ true =
                rw taken at plain in
              let (nested, below) =
                &&-true (not (is_t name && inside)) (forest_is_plain (is_t name || inside) kids)
                  here in
              let size : length b
                    + length (
                        breaks.at_start name
                        ++ forest_text breaks (is_t name || inside) kids
                        ++ breaks.at_end name)
                  < max =
                rw taken at h in
              let s = breaks.at_start name in
              let text = forest_text breaks (is_t name || inside) kids in
              let sizes = length-append (s ++ text) (breaks.at_end name) in
              let inner =
                collect-forest kids (end_tag name ∷ rest) failure (is_t name || inside) (b ++ s) max
                  below (omega (arith, size, sizes, length-append s text, length-append b s)) in
              rw taken
                (element_taken name attrs kids rest failure inside b max taken nested inner size)
        ]
    collect-node (text_node t) rest failure inside b max plain h =
        text_taken t rest failure inside b max h
    collect-node comment rest failure inside b max plain h =
        rw (append-nil b) (other_taken rest failure inside b max (omega (arith, h)))

    pub collect-forest :
        (f : Forest) (rest : List Token) (failure : Option FormatError) (inside : Bool) (b : Text)
        (max : ℕ)
        → forest_is_plain inside f ≡ true
        → length b + length (forest_text breaks inside f) < max
        → loop (forest_tokens f ++ rest) failure (holds inside b max)
          ≡ loop rest failure (holds inside (b ++ forest_text breaks inside f) max)
    collect-forest nil rest failure inside b max plain h = rw (append-nil b) refl
    collect-forest (cons n f) rest failure inside b max plain h =
        let (here, below) = &&-true (node_is_plain inside n) (forest_is_plain inside f) plain in
        let this = node_text breaks inside n in
        let others = forest_text breaks inside f in
        let size = length-append this others in
        ap (λ ts. loop ts failure (holds inside b max))
          (append_assoc (node_tokens n) (forest_tokens f) rest)
        ∙ (collect-node n (forest_tokens f ++ rest) failure inside b max here
              (omega (arith, h, size))
            ∙ (collect-forest f rest failure inside (b ++ this) max below
                  (omega (arith, h, size, length-append b this))
                ∙ ap (λ t. loop rest failure (holds inside t max)) (append_assoc b this others)))
