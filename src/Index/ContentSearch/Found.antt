-- ===== src/Index/ContentSearch/Found.antt =====
-- What it means that a search in the text finds a file and a chunk.
use mathlib.Core.List.{Memᴰ}
use findo.Prelude.{ℕ, ◌≡◌, refl, Bool, true, false, ◌||◌, Option, some, List, [], ◌∷◌, Text, All}
use findo.Prelude.Int.{ℤ}
use findo.Index.{File, ChunkRow, Db}
use findo.Index.Content.{is_visible}
use findo.Index.Queries.{TimeRange, in_volume, in_range}
use findo.Index.Queries.Like.{contains}
use findo.Index.Queries.Found.{Among}
use findo.Index.ContentSearch.{ContentMatch}

-- Whether a file's name contains the query, in whatever case.
abbrev pub named : (Text → Text) → Text → File → Bool
named lower q f = contains (lower f.name) (lower q)

in_longer {ℓ} :
    {A : Type ℓ} (x : A) (xs ys : List A) → All (λ y. Memᴰ y xs) ys → All (λ y. Memᴰ y (x ∷ xs)) ys
in_longer x xs [] h = tt
in_longer x xs (y ∷ ys) (h, hs) = (Memᴰ.tail h, in_longer x xs ys hs)

-- Each element of a list is in it.
pub members {ℓ} : {A : Type ℓ} (xs : List A) → All (λ x. Memᴰ x xs) xs
members [] = tt
members (x ∷ xs) = (Memᴰ.head refl, in_longer x xs xs (members xs))

-- What a file that is found by its text meets: its name does not contain what is searched for, it is in
-- the volume, or any is asked for, it was modified in the range, and it is not hidden unless that is
-- asked for.
pub record IsSought (lower : Text → Text) (v : ℤ) (q : Text) (hidden : Bool) (range : TimeRange)
    (f : File) : Type 0 where
  pub unnamed : named lower q f ≡ false
  pub in_volume : in_volume v f.volume ≡ true
  pub in_time : in_range range f.mod_time ≡ true
  pub shown : (hidden || is_visible f.path) ≡ true

-- A match is of a file of the table and of a chunk of that file, which the database ranks for the
-- query: its text matches. The excerpt and the number are the chunk's.
pub record IsMatch (rank : Text → Text → Option ℕ) (headline : Text → Text → Text) (tq : Text)
    (db : Db) (m : ContentMatch) : Type 0 where
  pub file : Among db.files m.file
  pub found : ChunkRow
  pub stored : Memᴰ found db.chunks
  pub of_file : (found.volume ≡ m.file.volume) × (found.path ≡ m.file.path)
  pub score : ℕ
  pub ranked : rank tq found.body ≡ some score
  pub excerpt : m.snippet ≡ headline tq found.body
  pub number : m.chunk ≡ found.seq
