-- ===== src/Extract/Blocks.antt =====
-- backend/internal/extract/ooxml.go: blockReaderAt, which reads a file in blocks and keeps a few.
-- `read` is the underlying ReadAt: the bytes at an offset, at most so many, or none for an error
-- that is not the end of the file. Offsets are not negative: zip reads none that are.
pub mod Ordered
pub mod Cached
pub mod Refines
use findo.Prelude.{
  ℕ, zero, suc, ◌+◌, ◌-◌, ◌*◌, ◌/◌, ◌%◌, Bool, true, false, Option, none, some, List, [], ◌∷◌, ◌++◌,
  ltb, leb, ◌==◌, if◌then◌else◌, Text, take, drop, length,
}

abbrev pub block_size : ℕ
block_size = 262144

abbrev pub cache_blocks : ℕ
cache_blocks = 8

abbrev pub Blocks : Type 0
Blocks = List (ℕ × Text)

pub record BlockReaderAt : Type 0 where
  pub size : ℕ
  pub blocks : Blocks
  -- load order, oldest first
  pub order : List ℕ

unfoldable pub new_block_reader_at : ℕ → BlockReaderAt
new_block_reader_at size = record { size = size; blocks = []; order = [] }

unfoldable pub cached : ℕ → Blocks → Option Text
cached i [] = none
cached i ((j, b) ∷ blocks) = if j == i then some b else cached i blocks

unfoldable pub forget : ℕ → Blocks → Blocks
forget i [] = []
forget i ((j, b) ∷ blocks) = if j == i then forget i blocks else (j, b) ∷ forget i blocks

abbrev pub forget_oldest : List ℕ → Blocks → Blocks
forget_oldest [] blocks = blocks
forget_oldest (i ∷ order) blocks = forget i blocks

abbrev pub rest_of : List ℕ → List ℕ
rest_of [] = []
rest_of (i ∷ order) = order

abbrev pub evict : BlockReaderAt → BlockReaderAt
evict c = record c { blocks = forget_oldest c.order c.blocks; order = rest_of c.order }

unfoldable pub store : ℕ → Text → BlockReaderAt → BlockReaderAt
unfolding forget
store i buf c =
    let room = if leb cache_blocks (length c.order) then evict c else c in
    record room { blocks = (i, buf) ∷ room.blocks; order = room.order ++ i ∷ [] }

pub data ReadError : Type 0 where
  eof unexpected_eof failed : ReadError

module _ (bs : ℕ) (read : ℕ → ℕ → Option Text) where
  abbrev pub loaded : ℕ → Option Text → BlockReaderAt → Option Text × BlockReaderAt
  loaded i none c = (none, c)
  loaded i (some buf) c = (some buf, store i buf c)

  abbrev pub block_length : ℕ → ℕ → ℕ
  block_length start size = if ltb size (start + bs) then size - start else bs

  abbrev pub hit_or_load : ℕ → Option Text → BlockReaderAt → Option Text × BlockReaderAt
  hit_or_load i (some b) c = (some b, c)
  hit_or_load i none c = loaded i (read (i * bs) (block_length (i * bs) c.size)) c

  unfoldable pub block : ℕ → BlockReaderAt → Option Text × BlockReaderAt
  unfolding cached store
  block i c = hit_or_load i (cached i c.blocks) c

  abbrev ended : ℕ → Option ReadError
  ended zero = none
  ended (suc want) = some eof

  -- A round after its block was read: `next` is the rest of the loop.
  abbrev pub after_block :
      (ℕ → ℕ → Text → BlockReaderAt → (Text × Option ReadError) × BlockReaderAt)
      → ℕ
      → ℕ
      → Text
      → Option Text × BlockReaderAt
      → (Text × Option ReadError) × BlockReaderAt
  after_block next want off got (none, c) = ((got, some failed), c)
  after_block next want off got (some blk, c) =
      let part = take want (drop (off % bs) blk) in
      if leb (length blk) (off % bs)
      then ((got, some unexpected_eof), c)
      else next (want - length part) (off + length part) (got ++ part) c

  -- The loop of ReadAt: `want` bytes are still to be read at `off`, and `got` have been. Each round
  -- reads a byte at least, so that the bytes wanted are enough fuel.
  unfoldable pub read_loop :
      ℕ → ℕ → ℕ → Text → BlockReaderAt → (Text × Option ReadError) × BlockReaderAt
  unfolding block
  read_loop zero want off got c = ((got, ended want), c)
  read_loop (suc fuel) zero off got c = ((got, none), c)
  read_loop (suc fuel) (suc want) off got c =
      if ltb off c.size
      then after_block (read_loop fuel) (suc want) off got (block (off / bs) c)
      else ((got, some eof), c)

  unfoldable pub read_at : ℕ → ℕ → BlockReaderAt → (Text × Option ReadError) × BlockReaderAt
  unfolding read_loop
  read_at want off c = if leb c.size off then (([], some eof), c) else read_loop want want off [] c
