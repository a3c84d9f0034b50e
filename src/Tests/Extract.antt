-- ===== src/Tests/Extract.antt =====
-- Reading files and their formats at concrete inputs.
use findo.Prelude.{ℕ, ◌+◌, ◌≤◌, ◌≡◌, refl, Option, some, arith, Text, codes, take, drop, length}
use findo.Extract.Blocks.{BlockReaderAt, new_block_reader_at, read_at}
use findo.Extract.Blocks.Cached.{IsSound, new-IsSound, end_of}
use findo.Extract.Blocks.Refines.{read_at_exact}

abbrev file : Text
file = codes "spreadsheet"

abbrev read_file : ℕ → ℕ → Option Text
read_file start n = some (take n (drop start file))

abbrev reads :
    (start n : ℕ) → start + n ≤ length file → read_file start n ≡ some (take n (drop start file))
reads start n h = refl

abbrev reader : BlockReaderAt
reader = new_block_reader_at (length file)

read_at_exact_example :
    ((read_at 4 read_file 5 2 reader).0.0 ≡ take 5 (drop 2 file))
    × ((read_at 4 read_file 5 2 reader).0.1 ≡ end_of 4 file 5 2)
    × IsSound 4 file (read_at 4 read_file 5 2 reader).1
    × (length (read_at 4 read_file 5 2 reader).1.blocks ≤ 8)
read_at_exact_example =
    read_at_exact 4 file read_file (omega arith) reads 5 2 reader (new-IsSound 4 file)
      (ground arith)
