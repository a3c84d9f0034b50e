-- ===== src/Extract/Iwork/Parts/Damaged.antt =====
-- A damaged part does not cost the text of the others.
use findo.Prelude.{
  ℕ, ◌+◌, ◌≤◌, ◌<◌, ◌≡◌, refl, sym, ap, ◌∙◌, false, Option, none, some, List, [], ◌∷◌, ◌++◌,
  append_assoc, append-nil, arith, leb, ◌==◌, if◌then◌else◌, codes, Text, length, length-append,
  inl, inr, Bool-cases,
}
use findo.Extract.Sink.{Sink, full, valid, strip_controls}
use findo.Extract.Sink.Room.{write-room, text-room}
use findo.Extract.Proto.{FormatError}
use findo.Extract.Iwork.{MessageFunc, Emitted}
use findo.Extract.Iwork.Parts.{
  Part, Extracted, extracted, failed, Reading, emit_line, emit_lines, first_of, finish,
  read_messages, read_parts, extract_iwork, table_parts, find_part,
}

-- A line that is not empty and is valid UTF-8 is written.
unfoldable pub kept_line : Text → Text
unfolding valid
kept_line [] = []
kept_line (c ∷ s) = if valid (c ∷ s) then (c ∷ s) ++ 10 ∷ [] else []

unfoldable pub kept : List Text → Text
unfolding kept_line
kept [] = []
kept (s ∷ ss) = kept_line s ++ kept ss

emit_line-room :
    (s : Text) (out : Sink)
    → length out.bytes + length (kept_line s) ≤ out.max
    → emit_line s out ≡ record out { bytes = out.bytes ++ kept_line s }
unfolding emit_line kept_line
emit_line-room [] out h = rw (append-nil out.bytes) refl
emit_line-room (c ∷ s) out h = elim (Bool-cases (valid (c ∷ s))) [
  | inr bad ↦ rw (bad, append-nil out.bytes) refl
  | inl good ↦
      let long : length out.bytes + length ((c ∷ s) ++ 10 ∷ []) ≤ out.max = rw good at h in
      let size = length-append (c ∷ s) (10 ∷ []) in
      let line = write-room (c ∷ s) out (omega (arith, long, size)) in
      let end =
        write-room (10 ∷ []) (record out { bytes = out.bytes ++ c ∷ s })
          (omega (arith, long, size, length-append out.bytes (c ∷ s))) in
      rw (good, line, end, append_assoc out.bytes (c ∷ s) (10 ∷ [])) refl
]

emit_lines-room :
    (ss : List Text) (out : Sink)
    → length out.bytes + length (kept ss) ≤ out.max
    → emit_lines ss out ≡ record out { bytes = out.bytes ++ kept ss }
unfolding emit_lines kept
emit_lines-room [] out h = rw (append-nil out.bytes) refl
emit_lines-room (s ∷ ss) out h =
    let size = length-append (kept_line s) (kept ss) in
    let line = emit_line-room s out (omega (arith, h, size)) in
    let rest =
      emit_lines-room ss (record out { bytes = out.bytes ++ kept_line s })
        (omega (arith, h, size, length-append out.bytes (kept_line s))) in
    rw (line, rest, append_assoc out.bytes (kept_line s) (kept ss)) refl

kept-append : (ss ts : List Text) → kept (ss ++ ts) ≡ kept ss ++ kept ts
unfolding kept
kept-append [] ts = refl
kept-append (s ∷ ss) ts =
    ap (λ t. kept_line s ++ t) (kept-append ss ts)
    ∙ sym (append_assoc (kept_line s) (kept ss) (kept ts))

module _ (decoded_len : Text → Option ℕ) (decode : Text → Option Text)
    (walk : MessageFunc → Text → Emitted) (handle : MessageFunc) where
  -- What the parts emit, the damaged ones up to where they are damaged.
  unfoldable pub lines_of : List Part → List Text
  unfolding read_messages
  lines_of [] = []
  lines_of (f ∷ fs) = (read_messages decoded_len decode walk handle f).0 ++ lines_of fs

  unfoldable pub first_error : Option (Text × FormatError) → List Part → Option (Text × FormatError)
  unfolding read_messages
  first_error e [] = e
  first_error e (f ∷ fs) =
      first_error (first_of e f.name (read_messages decoded_len decode walk handle f).1) fs

  read_parts-room :
      (fs : List Part) (r : Reading)
      → length r.out.bytes + length (kept (lines_of fs)) < r.out.max
      → read_parts decoded_len decode walk handle fs r ≡ record {
        out = record { bytes = r.out.bytes ++ kept (lines_of fs); max = r.out.max };
        first_err = first_error r.first_err fs;
      }
  unfolding read_parts lines_of first_error full kept
  read_parts-room [] r h = rw (append-nil r.out.bytes) refl
  read_parts-room (f ∷ fs) r h =
      let room : leb r.out.max (length r.out.bytes) ≡ false = ground arith in
      let this = (read_messages decoded_len decode walk handle f).0 in
      let parts = kept-append this (lines_of fs) in
      let size : length (kept (this ++ lines_of fs))
          ≡ length (kept this) + length (kept (lines_of fs)) =
        ap length parts ∙ length-append (kept this) (kept (lines_of fs)) in
      let part = emit_lines-room this r.out (omega (arith, h, size)) in
      let after : Reading = record {
        out = record { bytes = r.out.bytes ++ kept this; max = r.out.max };
        first_err = first_of r.first_err f.name (read_messages decoded_len decode walk handle f).1;
      } in
      let rest =
        read_parts-room fs after (omega (arith, h, size, length-append r.out.bytes (kept this))) in
      rw (room, part, parts, sym (append_assoc r.out.bytes (kept this) (kept (lines_of fs)))) rest

  -- The text of the lines, or the first error where there is none.
  abbrev pub outcome : Text → Option (Text × FormatError) → Extracted
  outcome [] (some (name, e)) = failed name e
  outcome [] none = extracted (strip_controls [])
  outcome (c ∷ t) e = extracted (strip_controls (c ∷ t))

  finish-outcome :
      (t : Text) (max : ℕ) (e : Option (Text × FormatError))
      → length t < max
      → finish (record { out = record { bytes = t; max = max }; first_err = e }) ≡ outcome t e
  finish-outcome [] max none h = ap extracted (text-room [] max h)
  finish-outcome [] max (some (name, e)) h = refl
  finish-outcome (c ∷ t) max none h = ap extracted (text-room (c ∷ t) max h)
  finish-outcome (c ∷ t) max (some (name, e)) h =
      let some_text : (length (c ∷ t) == 0) ≡ false = ground arith in
      rw some_text (ap extracted (text-room (c ∷ t) max h))

  -- With a cap above the length of everything that the parts emit, the text of a package that has
  -- a document is, without control characters, the non-empty valid lines that the document, then the
  -- calculation engine's parts, then the lists of strings emit, each part up to where it is damaged;
  -- the first part's error is returned only if no line is left.
  pub extract_iwork_keeps :
      (zr : List Part) (max : ℕ) (doc : Part)
      → find_part zr (codes "Index/Document.iwa") ≡ some doc
      → length (kept (lines_of (doc ∷ table_parts zr))) < max
      → extract_iwork decoded_len decode walk handle zr max
        ≡ outcome (kept (lines_of (doc ∷ table_parts zr))) (first_error none (doc ∷ table_parts zr))
  unfolding extract_iwork
  extract_iwork_keeps zr max doc found h =
      rw
        (
          found,
          read_parts-room (doc ∷ table_parts zr)
              (record { out = record { bytes = []; max = max }; first_err = none })
              (omega (arith, h)),
        )
        (finish-outcome (kept (lines_of (doc ∷ table_parts zr))) max
          (first_error none (doc ∷ table_parts zr)) h)
