-- ===== src/Extract/Xml.antt =====
-- The loops over XML tokens in backend/internal/extract. What encoding/xml's decoder returns for a part
-- is the list of its tokens, and then the end or an error; names are the local ones.
pub mod Tree
pub mod Invariant
use findo.Prelude.{
  ℕ, zero, suc, Bool, true, false, ◌&&◌, Option, none, some, List, [], ◌∷◌, if◌then◌else◌, Text,
  text_eq,
}
use findo.Extract.Proto.{FormatError, bad_xml}

pub record Attr : Type 0 where
  pub name : Text
  pub value : Text

pub data Token : Type 0 where
  start_tag : Text → List Attr → Token
  end_tag : Text → Token
  chars : Text → Token
  other_token : Token

pub record Xml : Type 0 where
  pub tokens : List Token
  pub failure : Option FormatError

-- An entry of a package, none if it cannot be opened.
pub record XmlPart : Type 0 where
  pub name : Text
  pub opened : Option Xml

pub data ScanEnd : Type 0 where
  at_eof stopped : ScanEnd
  damaged : FormatError → ScanEnd

abbrev pub scan_end : Option FormatError → ScanEnd
scan_end none = at_eof
scan_end (some e) = damaged e

-- The decoder does not end inside an element without an error.
abbrev pub cut_off : Option FormatError → ScanEnd
cut_off none = damaged bad_xml
cut_off (some e) = damaged e

-- The last value wins.
unfoldable pub attr_or : Text → List Attr → Text → Text
unfolding text_eq
attr_or name [] value = value
attr_or name (a ∷ as') value = attr_or name as' (if text_eq a.name name then a.value else value)

-- Inside Decoder.Skip, at the depth below the element that is skipped; none outside.
abbrev pub Mode : Type 0
Mode = Option ℕ

module _ {ℓ} {S : Type ℓ} (skips : Text → Bool) (step : S → Token → S) (is_full : S → Bool) where
  -- What a token leaves, and whether the loop then looks if it is done.
  pub record Advance : Type ℓ where
    pub mode : Mode
    pub state : S
    pub checks : Bool

  abbrev pub skipping : ℕ → S → Advance
  skipping d s = record { mode = some d; state = s; checks = false }

  abbrev pub take_token : S → Token → Advance
  take_token s t = record { mode = none; state = step s t; checks = true }

  abbrev pub advance : Mode → Token → S → Advance
  advance none (start_tag name attrs) s =
      if skips name then skipping 0 s else take_token s (start_tag name attrs)
  advance none (end_tag name) s = take_token s (end_tag name)
  advance none (chars t) s = take_token s (chars t)
  advance none other_token s = take_token s other_token
  advance (some d) (start_tag name attrs) s = skipping (suc d) s
  advance (some zero) (end_tag name) s = record { mode = none; state = s; checks = true }
  advance (some (suc d)) (end_tag name) s = skipping d s
  advance (some d) (chars t) s = skipping d s
  advance (some d) other_token s = skipping d s

  abbrev pub at_last : Mode → Option FormatError → ScanEnd
  at_last none failure = scan_end failure
  at_last (some d) failure = cut_off failure

  -- The loop over the tokens, from a state to the one that it leaves.
  unfoldable pub scan : Mode → List Token → Option FormatError → S → S × ScanEnd
  scan mode [] failure s = (s, at_last mode failure)
  scan mode (t ∷ ts) failure s =
      let a = advance mode t s in
      let rest = scan a.mode ts failure a.state in
      if a.checks && is_full a.state then (a.state, stopped) else rest

  abbrev pub scan_opened : Option FormatError → Option Xml → S → S × ScanEnd
  scan_opened e none s = (s, scan_end e)
  scan_opened e (some x) s = scan none x.tokens x.failure s
