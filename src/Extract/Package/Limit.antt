-- ===== src/Extract/Package/Limit.antt =====
-- How much of an entry is read.
use findo.Prelude.{
  ℕ, ◌+◌, ◌≤◌, ◌≡◌, refl, ap, ◌∙◌, Bool, true, false, ◌||◌, List, [], ◌∷◌, ◌++◌, ltb, ◌==◌,
  if◌then◌else◌, ◌⊎◌, arith, Text, length, inl, inr, Bool-cases, append_assoc, length-append,
  length-take-le,
}
use findo.Prelude.Slices.{take_append_drop}
use findo.Extract.Package.{
  ZipEntry, ReadResult, read_bytes, too_large, CappedReader, next_chunk, read, open_part,
  read_results, max_part_bytes,
}

abbrev pub gained_of : ReadResult → Text
gained_of (read_bytes b) = b
gained_of too_large = []

unfoldable pub gained : List ReadResult → Text
gained [] = []
gained (r ∷ rs) = gained_of r ++ gained rs

abbrev is_too_large : ReadResult → Bool
is_too_large (read_bytes b) = false
is_too_large too_large = true

unfoldable pub refuses : List ReadResult → Bool
refuses [] = false
refuses (r ∷ rs) = is_too_large r || refuses rs

smaller_of-le : (a b : ℕ) → (if ltb a b then a else b) ≤ a
smaller_of-le a b = ground arith

next_chunk-le : (chunks : List ℕ) (n : ℕ) → (next_chunk chunks n).0 ≤ n
next_chunk-le [] n = omega arith
next_chunk-le (c ∷ cs) n = ground arith

-- One read takes a piece off the front, within what is left.
read-piece :
    (n : ℕ) (c : CappedReader)
    → (gained_of (read n c).0 ++ (read n c).1.rc.bytes ≡ c.rc.bytes)
      × (length (gained_of (read n c).0) + (read n c).1.left ≡ c.left)
unfolding read
read-piece n c = elim (Bool-cases (c.left == 0)) [
  | inl spent ↦ rw spent (refl, omega arith)
  | inr more ↦
      let m = if ltb c.left n then c.left else n in
      let k = (next_chunk c.rc.chunks m).0 in
      rw more (
        take_append_drop k c.rc.bytes,
        omega (
          arith,
          length-take-le k c.rc.bytes,
          next_chunk-le c.rc.chunks m,
          smaller_of-le c.left n,
        ),
      )
]

-- A read says that the part is too large only when nothing may be read any more.
read-refuses : (n : ℕ) (c : CappedReader) → is_too_large (read n c).0 ≡ true → c.left ≡ 0
unfolding read
read-refuses n c h = elim (Bool-cases (c.left == 0)) [
  | inl spent ↦ ground arith
  | inr more ↦ let no_error : false ≡ true = rw more at h in cc
]

read_results-lem :
    (ns : List ℕ) (c : CappedReader)
    → (rest : Text) × (gained (read_results ns c) ++ rest ≡ c.rc.bytes)
      × (length (gained (read_results ns c)) ≤ c.left)
      × (refuses (read_results ns c) ≡ true → length (gained (read_results ns c)) ≡ c.left)
unfolding read_results gained refuses
read_results-lem [] c = (c.rc.bytes, refl, omega arith, λ h. cc)
read_results-lem (n ∷ ns) c =
    let first = read n c in
    let (front, size) = read-piece n c in
    let (rest, back, bound, limit) = read_results-lem ns first.1 in
    let piece = gained_of first.0 in
    let others = gained (read_results ns first.1) in
    let sizes = length-append piece others in
    (
      rest,
      append_assoc piece others rest ∙ (ap (λ t. piece ++ t) back ∙ front),
      omega (arith, sizes, size, bound),
      λ h. elim (Bool-cases (is_too_large first.0)) [
        | inl large ↦ omega (arith, sizes, size, bound, read-refuses n c large)
        | inr small ↦ omega (arith, sizes, size, limit (rw small at h))
      ],
    )

-- Whatever an entry's header claims, and whatever pieces its reader returns, what is read of a part is
-- a front part of the entry and at most 128 MiB, and it is 128 MiB unless no read is refused.
pub reads_within_limit :
    (ns : List ℕ) (r : ZipEntry)
    → let rs = read_results ns (open_part r) in
      (rest : Text) × (gained rs ++ rest ≡ r.bytes)
      × (length (gained rs) ≤ max_part_bytes)
      × ((refuses rs ≡ false) ⊎ (length (gained rs) ≡ max_part_bytes))
reads_within_limit ns r =
    let (rest, front, bound, limit) = read_results-lem ns (open_part r) in
    (
      rest,
      front,
      bound,
      elim (Bool-cases (refuses (read_results ns (open_part r)))) [
        | inl refused ↦ inr (limit refused)
        | inr none_refused ↦ inl none_refused
      ],
    )
