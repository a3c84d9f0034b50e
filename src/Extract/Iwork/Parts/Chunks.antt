-- ===== src/Extract/Iwork/Parts/Chunks.antt =====
-- The chunks of a part: what is read of the chunks that were written, and how much at most.
use findo.Prelude.{
  ℕ, zero, suc, ◌+◌, ◌*◌, ◌/◌, ◌%◌, ◌≤◌, ◌<◌, ◌≡◌, refl, sym, ap, ◌∙◌, true, false, Option, none,
  some, List, [], ◌∷◌, ◌++◌, append_assoc, append-nil, arith, ltb, leb, Text, take, drop, length,
  length-append, All, inl, inr, Bool-cases,
}
use findo.Extract.Proto.{FormatError}
use findo.Extract.Iwork.Parts.{
  max_iwa_chunk, max_iwa_bytes, Stream, Decoded, decoded, undecoded, FullRead, got, at_end,
  cut_short, read_full, chunk_length, starts_with_zero, append_decoded, check_size, after_chunk,
  after_header, chunk_loop, read_iwa,
}

pub record Chunk : Type 0 where
  pub comp : Text
  pub content : Text

-- A chunk as Apple writes it: a zero byte, three bytes of length, then the Snappy block.
abbrev pub frame : Text → Text
frame comp = 0 ∷ length comp % 256 ∷ length comp / 256 % 256 ∷ length comp / 65536 ∷ comp

abbrev pub framed : List Chunk → Text
framed [] = []
framed (c ∷ cs) = frame c.comp ++ framed cs

abbrev pub contents : List Chunk → Text
contents [] = []
contents (c ∷ cs) = c.content ++ contents cs

take-length : (s t : Text) → take (length s) (s ++ t) ≡ s
take-length [] t = refl
take-length (c ∷ s) t = ap (λ r. c ∷ r) (take-length s t)

drop-length : (s t : Text) → drop (length s) (s ++ t) ≡ t
drop-length [] t = refl
drop-length (c ∷ s) t = drop-length s t

read_full-whole : (s t : Text) (e : Option FormatError) → read_full (length s) e (s ++ t) ≡ got s t
unfolding read_full
read_full-whole s t e =
    let fits : leb (length s) (length (s ++ t)) ≡ true = ground (arith, length-append s t) in
    rw (fits, take-length s t, drop-length s t) refl

length_of_chunk : (n : ℕ) → n % 256 + 256 * (n / 256 % 256) + 65536 * (n / 65536) ≡ n
length_of_chunk n = omega arith

module _ (decoded_len : Text → Option ℕ) (decode : Text → Option Text) where
  -- What a chunk has to be for its content to come back.
  pub record IsWritten (c : Chunk) : Type 0 where
    pub short : length c.comp ≤ max_iwa_chunk
    pub small : length c.content ≤ max_iwa_chunk
    pub declared : decoded_len c.comp ≡ some (length c.content)
    pub decodes : decode c.comp ≡ some c.content

  -- A round of the loop on a chunk.
  round_lem :
      (next : Text → Text → Decoded) (c : Chunk) (b out : Text)
      → IsWritten c
      → length out + length c.content ≤ max_iwa_bytes
      → after_header decoded_len decode next none out (read_full 4 none (frame c.comp ++ b))
        ≡ next b (out ++ c.content)
  round_lem next c b out w total =
      let n = length c.comp in
      let hdr : Text = 0 ∷ n % 256 ∷ n / 256 % 256 ∷ n / 65536 ∷ [] in
      let header : read_full 4 none (frame c.comp ++ b) ≡ got hdr (c.comp ++ b) =
        read_full-whole hdr (c.comp ++ b) none in
      let same : chunk_length hdr ≡ n = length_of_chunk n in
      let allowed : ltb max_iwa_chunk (chunk_length hdr) ≡ false = ground (arith, same, w.short) in
      let block : read_full (chunk_length hdr) none (c.comp ++ b) ≡ got c.comp b =
        ap (λ k. read_full k none (c.comp ++ b)) same ∙ read_full-whole c.comp b none in
      let one : ltb max_iwa_chunk (length c.content) ≡ false = ground (arith, w.small) in
      let all : ltb max_iwa_bytes (length out + length c.content) ≡ false = ground arith in
      rw (header, allowed, block, w.declared, one, all, w.decodes) refl

  chunk_loop-framed :
      (fuel : ℕ) (cs : List Chunk) (out : Text)
      → All IsWritten cs
      → length out + length (contents cs) ≤ max_iwa_bytes
      → length (framed cs) < fuel
      → chunk_loop decoded_len decode fuel none (framed cs) out ≡ decoded (out ++ contents cs)
  unfolding chunk_loop
  chunk_loop-framed zero cs out w total h = ground arith
  chunk_loop-framed (suc fuel) [] out w total h = ap decoded (sym (append-nil out))
  chunk_loop-framed (suc fuel) (c ∷ cs) out (w, ws) total h =
      round_lem (chunk_loop decoded_len decode fuel none) c (framed cs) out w
        (omega (arith, length-append c.content (contents cs)))
      ∙ (chunk_loop-framed fuel cs (out ++ c.content) ws
            (omega (arith, length-append c.content (contents cs), length-append out c.content))
            (omega (arith, length-append (frame c.comp) (framed cs)))
          ∙ ap decoded (append_assoc out c.content (contents cs)))

  -- readIWA returns the contents of the chunks that a part was written with, one after the other,
  -- where each block and its content are at most 1 MiB, all contents together at most 64 MiB, and
  -- Snappy gives each block's size and content back.
  pub read_iwa_round_trip :
      (cs : List Chunk)
      → All IsWritten cs
      → length (contents cs) ≤ max_iwa_bytes
      → read_iwa decoded_len decode (some (record { bytes = framed cs; failure = none }))
        ≡ decoded (contents cs)
  unfolding read_iwa
  read_iwa_round_trip cs w total =
      chunk_loop-framed (suc (length (framed cs))) cs [] w (omega (arith, total)) (omega arith)

  -- A result of no more than so many bytes, or an error.
  abbrev pub Fits : Decoded → Type 0
  Fits (decoded all) = length all ≤ max_iwa_bytes
  Fits (undecoded e) = Unit

  module _ (law : (comp d : Text) → decode comp ≡ some d → decoded_len comp ≡ some (length d)) where
    module _ (next : Text → Decoded)
        (later : (out : Text) → length out ≤ max_iwa_bytes → Fits (next out)) where
      append_decoded-Fits :
          (out comp : Text) (d : Option Text)
          → decode comp ≡ d
          → (dn : ℕ) → decoded_len comp ≡ some dn
          → length out + dn ≤ max_iwa_bytes
          → Fits (append_decoded decoded_len decode next out d)
      append_decoded-Fits out comp none e dn k h = tt
      append_decoded-Fits out comp (some d) e dn k h =
          let same : some dn ≡ some (length d) = sym k ∙ law comp d e in
          let n : dn ≡ length d = cc in later (out ++ d) (omega (arith, length-append out d))

      check_size-Fits :
          (comp out : Text) (dn : Option ℕ)
          → decoded_len comp ≡ dn
          → Fits (check_size decoded_len decode next comp out dn)
      check_size-Fits comp out none e = tt
      check_size-Fits comp out (some dn) e = elim (Bool-cases (ltb max_iwa_chunk dn)) [
        | inl large ↦ rw large tt
        | inr small ↦ rw small (elim (Bool-cases (ltb max_iwa_bytes (length out + dn))) [
          | inl over ↦ rw over tt
          | inr within ↦
              rw within (append_decoded-Fits out comp (decode comp) refl dn e (ground arith))
        ])
      ]

    module _ (next : Text → Text → Decoded)
        (later : (b out : Text) → length out ≤ max_iwa_bytes → Fits (next b out)) where
      after_chunk-Fits :
          (out : Text) (r : FullRead) → Fits (after_chunk decoded_len decode next out r)
      after_chunk-Fits out (got comp b) =
          check_size-Fits (next b) (later b) comp out (decoded_len comp) refl
      after_chunk-Fits out at_end = tt
      after_chunk-Fits out cut_short = tt

      after_header-Fits :
          (failure : Option FormatError) (out : Text) (r : FullRead)
          → length out ≤ max_iwa_bytes
          → Fits (after_header decoded_len decode next failure out r)
      after_header-Fits failure out at_end h = h
      after_header-Fits failure out cut_short h = tt
      after_header-Fits failure out (got hdr b) h = elim (Bool-cases (starts_with_zero hdr)) [
        | inr other ↦ rw other tt
        | inl zero_byte ↦ rw zero_byte (elim (Bool-cases (ltb max_iwa_chunk (chunk_length hdr))) [
          | inl large ↦ rw large tt
          | inr small ↦ rw small (after_chunk-Fits out (read_full (chunk_length hdr) failure b))
        ])
      ]

    chunk_loop-Fits :
        (fuel : ℕ) (failure : Option FormatError) (b out : Text)
        → length out ≤ max_iwa_bytes
        → Fits (chunk_loop decoded_len decode fuel failure b out)
    unfolding chunk_loop
    chunk_loop-Fits zero failure b out h = tt
    chunk_loop-Fits (suc fuel) failure b out h =
        after_header-Fits (chunk_loop decoded_len decode fuel failure)
          (chunk_loop-Fits fuel failure) failure out (read_full 4 failure b) h

    -- Whatever the bytes of a part are, readIWA returns an error or at most 64 MiB, provided that
    -- Snappy decodes a block to the size that it declared for it.
    read_iwa-Fits : (part : Option Stream) → Fits (read_iwa decoded_len decode part)
    unfolding read_iwa
    read_iwa-Fits none = tt
    read_iwa-Fits (some s) =
        chunk_loop-Fits (suc (length s.bytes)) s.failure s.bytes [] (omega arith)
