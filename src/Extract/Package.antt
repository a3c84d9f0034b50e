-- ===== src/Extract/Package.antt =====
-- backend/internal/extract/ooxml.go: openPackage, and the reader that stops at the size limit.
pub mod Limit
use findo.Prelude.{
  ℕ, zero, suc, ◌-◌, Bool, true, false, ◌&&◌, Option, none, some, List, [], ◌∷◌, ◌++◌, ltb, leb,
  ◌==◌, if◌then◌else◌, Text, text_eq, take, drop, length,
}

abbrev pub max_part_bytes : ℕ
max_part_bytes = 134217728

abbrev pub max_archive_entries : ℕ
max_archive_entries = 20000

abbrev pub ole_magic : Text
ole_magic = 208 ∷ 207 ∷ 17 ∷ 224 ∷ 161 ∷ 177 ∷ 26 ∷ 225 ∷ []

pub data Opened {ℓ} (A : Type ℓ) : Type ℓ where
  package_of : List A → Opened A
  encrypted not_an_office_file too_many_entries : Opened A

abbrev pub of_zip {ℓ} : {A : Type ℓ} → Option (List A) → Opened A
of_zip none = not_an_office_file
of_zip (some entries) =
    if ltb max_archive_entries (length entries) then too_many_entries else package_of entries

-- `magic` is what ReadAt gives of the first eight bytes, and `entries` what zip.NewReader finds.
unfoldable pub open_package {ℓ} : {A : Type ℓ} → Text → Option (List A) → Opened A
unfolding text_eq
open_package magic entries =
    if length magic == 8 && text_eq magic ole_magic then encrypted else of_zip entries

-- The entry's own reader: what is still to come, and how many bytes each call returns at most.
pub record ZipEntry : Type 0 where
  pub bytes : Text
  pub chunks : List ℕ

pub data ReadResult : Type 0 where
  read_bytes : Text → ReadResult
  too_large : ReadResult

pub record CappedReader : Type 0 where
  pub rc : ZipEntry
  pub left : ℕ

abbrev pub next_chunk : List ℕ → ℕ → ℕ × List ℕ
next_chunk [] n = (n, [])
next_chunk (c ∷ cs) n = (if ltb c n then c else n, cs)

-- What the entry's reader returns for a buffer of n bytes.
abbrev pub read_entry : ℕ → ZipEntry → Text × ZipEntry
read_entry n r = (
  take (next_chunk r.chunks n).0 r.bytes,
  record { bytes = drop (next_chunk r.chunks n).0 r.bytes; chunks = (next_chunk r.chunks n).1 },
)

-- Read, for a buffer of n bytes
unfoldable pub read : ℕ → CappedReader → ReadResult × CappedReader
read n c =
    let r = read_entry (if ltb c.left n then c.left else n) c.rc in
    if c.left == 0
    then (too_large, c)
    else (read_bytes r.0, record { rc = r.1; left = c.left - length r.0 })

abbrev pub open_part : ZipEntry → CappedReader
open_part r = record { rc = r; left = max_part_bytes }

abbrev pub then_read :
    (CappedReader → List ReadResult) → ReadResult × CappedReader → List ReadResult
then_read next (r, c) = r ∷ next c

-- The results of read_results into buffers of these sizes.
unfoldable pub read_results : List ℕ → CappedReader → List ReadResult
unfolding read
read_results [] c = []
read_results (n ∷ ns) c = then_read (read_results ns) (read n c)
