-- ===== src/Extract/Office/Body.antt =====
-- backend/internal/extract: the loops of parseWordXML (docx.go) and parseSlideXML (pptx.go), and the
-- text that they collect for a document as a tree.
pub mod Collect
use findo.Prelude.{
  ℕ, ◌+◌, ◌<◌, ◌≤◌, ◌≡◌, refl, sym, ap, ◌∙◌, Bool, true, false, not, ◌&&◌, ◌||◌, Option, none, some,
  List, [], ◌∷◌, ◌++◌, append_assoc, append-nil, if◌then◌else◌, Text, text_eq, codes, length,
  length-append, arith, Bool-cases, inl, inr,
}
use findo.Extract.Proto.{FormatError, not_opened}
use findo.Extract.Sink.{Sink, full, write}
use findo.Extract.Sink.Room.{full-room, write-room}
use findo.Extract.Xml.{
  Attr, Token, start_tag, end_tag, chars, other_token, XmlPart, ScanEnd, scan, scan_opened,
}
use findo.Extract.Xml.Tree.{
  Node, element, text_node, comment, Forest, nil, cons, node_tokens, forest_tokens, skip-forest,
}

-- mc:AlternateContent repeats its Choice in its Fallback.
abbrev pub is_fallback : Text → Bool
unfolding text_eq
is_fallback name = text_eq name (codes "Fallback")

abbrev pub is_t : Text → Bool
unfolding text_eq
is_t name = text_eq name (codes "t")

-- What a start tag and an end tag write, nothing where the switch has no case that writes.
pub record Breaks : Type 0 where
  pub at_start : Text → Text
  pub at_end : Text → Text

unfoldable pub word_breaks : Breaks
unfolding text_eq
word_breaks = record {
  at_start = λ name.
      if text_eq name (codes "tab")
      then 9 ∷ []
      else if text_eq name (codes "br") || text_eq name (codes "cr")
      then 10 ∷ []
      else [];
  at_end = λ name. if text_eq name (codes "p") then 10 ∷ 10 ∷ [] else [];
}

unfoldable pub slide_breaks : Breaks
unfolding text_eq
slide_breaks = record {
  at_start = λ name. if text_eq name (codes "br") then 10 ∷ [] else [];
  at_end = λ name. if text_eq name (codes "p") then 10 ∷ [] else [];
}

pub record BodyState : Type 0 where
  pub in_text : Bool
  pub out : Sink

abbrev pub body_full : BodyState → Bool
unfolding full
body_full s = full s.out

module _ (breaks : Breaks) where
  unfoldable pub body_step : BodyState → Token → BodyState
  unfolding text_eq write
  body_step s (start_tag name attrs) = record {
    in_text = is_t name || s.in_text;
    out = write (breaks.at_start name) s.out;
  }
  body_step s (end_tag name) = record {
    in_text = not (is_t name) && s.in_text;
    out = write (breaks.at_end name) s.out;
  }
  body_step s (chars t) = if s.in_text then record s { out = write t s.out } else s
  body_step s other_token = s

  -- parseWordXML and parseSlideXML: what the sink holds then, and how the loop ended.
  unfoldable pub parse_body : XmlPart → Sink → BodyState × ScanEnd
  unfolding scan body_step
  parse_body f out =
      scan_opened is_fallback body_step body_full (some not_opened) f.opened
        (record { in_text = false; out = out })

  -- The text of a tree: what stands inside its `t` elements and the breaks, Fallback elements left out.
  unfoldable mutual
    unfolding text_eq

    pub node_text : Bool → Node → Text
    node_text inside (element name attrs kids) =
        let text = forest_text (is_t name || inside) kids in
        if is_fallback name then [] else breaks.at_start name ++ text ++ breaks.at_end name
    node_text inside (text_node t) = if inside then t else []
    node_text inside comment = []

    pub forest_text : Bool → Forest → Text
    forest_text inside nil = []
    forest_text inside (cons n f) = node_text inside n ++ forest_text inside f

-- No `t` element stands in another one.
unfoldable mutual
  unfolding text_eq

  pub node_is_plain : Bool → Node → Bool
  node_is_plain inside (element name attrs kids) =
      let plain = forest_is_plain (is_t name || inside) kids in
      is_fallback name || (not (is_t name && inside) && plain)
  node_is_plain inside (text_node t) = true
  node_is_plain inside comment = true

  pub forest_is_plain : Bool → Forest → Bool
  forest_is_plain inside nil = true
  forest_is_plain inside (cons n f) = node_is_plain inside n && forest_is_plain inside f
