-- ===== src/Index/Queries/Found.antt =====
-- What a search by name returns.
use findo.Prelude.{
  ℕ, zero, suc, ◌≤◌, ◌≡◌, refl, sym, ap, ◌∙◌, Bool, true, false, ◌&&◌, ◌||◌, List, [], ◌∷◌, ◌⊎◌,
  inl, inr, arith, filter, count, length-filter, take, leb, if◌then◌else◌, Text, length, All,
  Bool-cases,
}
use findo.Prelude.Int.{ℤ, pos, negsuc}
use findo.Index.{File, FileRow, Db, ok, err, fault}
use findo.Index.Content.{is_visible}
use findo.Index.Queries.{
  TimeRange, in_volume, in_range, clamp_limit, insert_sorted, sort_by, files_of, searched, search,
  is_unbounded, name_before, newer_before,
}
use findo.Index.Queries.Like.{contains, IsFolding, ilike-contains}

module _ {ℓ κ} {A : Type ℓ} (P : A → Type κ) where
  pub filter-All :
      (p : A → Bool) (xs : List A) → All P xs → All (λ x. P x × (p x ≡ true)) (filter p xs)
  unfolding filter
  filter-All p [] h = tt
  filter-All p (x ∷ xs) (h, hs) = elim (Bool-cases (p x)) [
    | inl good ↦ rw good ((h, good), filter-All p xs hs)
    | inr bad ↦ rw bad (filter-All p xs hs)
  ]

  insert_sorted-All :
      (before : A → A → Bool) (x : A) (xs : List A)
      → P x
      → All P xs
      → All P (insert_sorted before x xs)
  unfolding insert_sorted
  insert_sorted-All before x [] h hs = (h, tt)
  insert_sorted-All before x (y ∷ ys) h (k, ks) = elim (Bool-cases (before y x)) [
    | inl later ↦ rw later (k, insert_sorted-All before x ys h ks)
    | inr here ↦ rw here (h, (k, ks))
  ]

  pub sort_by-All : (before : A → A → Bool) (xs : List A) → All P xs → All P (sort_by before xs)
  unfolding sort_by
  sort_by-All before [] h = tt
  sort_by-All before (x ∷ xs) (h, hs) =
      insert_sorted-All before x (sort_by before xs) h (sort_by-All before xs hs)

  pub take-All : (n : ℕ) (xs : List A) → All P xs → All P (take n xs)
  take-All zero xs h = tt
  take-All (suc n) [] h = tt
  take-All (suc n) (x ∷ xs) (h, hs) = (h, take-All n xs hs)

  All-imp : (Q : A → Type κ) → ((x : A) → P x → Q x) → (xs : List A) → All P xs → All Q xs
  All-imp Q f [] h = tt
  All-imp Q f (x ∷ xs) (h, hs) = (f x h, All-imp Q f xs hs)

module _ {ℓ} {A : Type ℓ} where
  length-insert_sorted :
      (before : A → A → Bool) (x : A) (xs : List A)
      → length (insert_sorted before x xs) ≡ suc (length xs)
  unfolding insert_sorted
  length-insert_sorted before x [] = refl
  length-insert_sorted before x (y ∷ ys) = ground (arith, length-insert_sorted before x ys)

  pub length-sort_by :
      (before : A → A → Bool) (xs : List A) → length (sort_by before xs) ≡ length xs
  unfolding sort_by
  length-sort_by before [] = refl
  length-sort_by before (x ∷ xs) =
      length-insert_sorted before x (sort_by before xs) ∙ ap suc (length-sort_by before xs)

  -- The smaller of two numbers.
  pub length-take_smaller :
      (n : ℕ) (xs : List A) → length (take n xs) ≡ (if leb n (length xs) then n else length xs)
  length-take_smaller zero xs = ground arith
  length-take_smaller (suc n) [] = ground arith
  length-take_smaller (suc n) (x ∷ xs) = ground (arith, length-take_smaller n xs)

length-files_of : (rs : List FileRow) → length (files_of rs) ≡ length rs
length-files_of [] = refl
length-files_of (r ∷ rs) = ap suc (length-files_of rs)

files_of-All {κ} :
    (P : File → Type κ) (rs : List FileRow) → All (λ r. P r.file) rs → All P (files_of rs)
files_of-All P [] h = tt
files_of-All P (r ∷ rs) (h, hs) = (h, files_of-All P rs hs)

-- A file of one of the rows.
abbrev pub Among : List FileRow → File → Type 0
Among [] f = ⊥
Among (r ∷ rs) f = (r.file ≡ f) ⊎ Among rs f

pub rows-Among : (rs : List FileRow) → All (λ r. Among rs r.file) rs
rows-Among [] = tt
rows-Among (r ∷ rs) = (
  inl refl,
  All-imp (λ q. Among rs q.file) (λ q. Among (r ∷ rs) q.file) (λ q h. inr h) rs (rows-Among rs),
)

-- What a search is for: a file of the volume, or of any for 0, that contains the text in its name,
-- in whatever case, was modified in the range, and is not hidden unless that is asked for.
abbrev pub wanted : (Text → Text) → ℤ → Text → Bool → TimeRange → File → Bool
wanted lower v q hidden range f =
    in_volume v f.volume
    && (contains (lower f.name) (lower q)
        && (in_range range f.mod_time && (hidden || is_visible f.path)))

pub search-fault :
    (lower : Text → Text) (v : ℤ) (q : Text) (limit : ℤ) (hidden : Bool) (range : TimeRange)
    (db : Db)
    → search lower v q limit hidden range true db ≡ err fault
unfolding search
search-fault lower v q limit hidden range db = refl

module _ (lower : Text → Text) (law : IsFolding lower) (v : ℤ) (q : Text) (hidden : Bool)
    (range : TimeRange) where
  searched-wanted :
      (r : FileRow) → searched lower v q hidden range r ≡ wanted lower v q hidden range r.file
  searched-wanted r =
      ap
        (λ b.
          in_volume v r.volume
          && (b && (in_range range r.mod_time && (hidden || is_visible r.path))))
        (ilike-contains lower law r.name q)

  count-wanted :
      (rs : List FileRow)
      → count (searched lower v q hidden range) rs
        ≡ count (λ r. wanted lower v q hidden range r.file) rs
  unfolding count
  count-wanted [] = refl
  count-wanted (r ∷ rs) = rw (searched-wanted r, count-wanted rs) refl

  clamp_limit-le : (limit : ℤ) → clamp_limit 500 100 limit ≤ 500
  clamp_limit-le (pos n) = ground arith
  clamp_limit-le (negsuc n) = omega arith

  -- A search that the database answers returns files of the table that it is for, and as many as
  -- there are rows that it is for, or as the limit allows if that is fewer: the limit if it is
  -- between 1 and 500, and 100 otherwise. The characters that patterns give a meaning have none in
  -- what is searched for. It is assumed that the database's case folding leaves those characters
  -- as they are and makes no others into them.
  pub search_exact :
      (limit : ℤ) (db : Db)
      → (fs : List File) × (search lower v q limit hidden range false db ≡ ok fs)
        × All (λ f. Among db.files f × (wanted lower v q hidden range f ≡ true)) fs
        × (let n = clamp_limit 500 100 limit in
            let all = count (λ r. wanted lower v q hidden range r.file) db.files in
            length fs ≡ (if leb n all then n else all))
        × (length fs ≤ 500)
  unfolding search
  search_exact limit db =
      let p = searched lower v q hidden range in
      let order = if is_unbounded range then name_before else newer_before in
      let rows = sort_by order (filter p db.files) in
      let n = clamp_limit 500 100 limit in
      let good =
        All-imp (λ r. Among db.files r.file × (p r ≡ true))
          (λ r. Among db.files r.file × (wanted lower v q hidden range r.file ≡ true))
          (λ r h. (h.0, sym (searched-wanted r) ∙ h.1)) (filter p db.files)
          (filter-All (λ r. Among db.files r.file) p db.files (rows-Among db.files)) in
      let many : length (files_of rows)
          ≡ count (λ r. wanted lower v q hidden range r.file) db.files =
        length-files_of rows
        ∙ (length-sort_by order (filter p db.files)
            ∙ (length-filter p db.files ∙ count-wanted db.files)) in
      let size = length-take_smaller n (files_of rows) in
      (
        take n (files_of rows),
        refl,
        take-All (λ f. Among db.files f × (wanted lower v q hidden range f ≡ true)) n
            (files_of rows)
            (files_of-All (λ f. Among db.files f × (wanted lower v q hidden range f ≡ true)) rows
              (sort_by-All _ order (filter p db.files) good)),
        rw (sym many) size,
        ground (arith, size, clamp_limit-le limit),
      )
