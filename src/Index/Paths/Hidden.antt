-- ===== src/Index/Paths/Hidden.antt =====
-- What `SplitPath` records as the directory of a file never begins with a dot.
use findo.Prelude.{
  ap, ◌∙◌, List, All, filter, ℕ, ◌≡◌, refl, Bool, true, false, [], ◌∷◌, arith, Text, text_eq, codes,
}
use findo.Strings.{has_prefix, trim, trim_left, trim_right, push_kept}
use findo.Prelude.Int.{ℤ}
use findo.Index.{FileRow, Db, ok}
use findo.Index.Queries.{listed, list_files, sort_by}
use findo.Index.Paths.{is_dot_or_slash, split_path, normalize_dir, path_dir}

abbrev starts : (ℕ → Bool) → Text → Bool
starts p [] = false
starts p (c ∷ s) = p c

starts-trim_left : (p : ℕ → Bool) (s : Text) → starts p (trim_left p s) ≡ false
unfolding trim_left
starts-trim_left p [] = refl
starts-trim_left p (c ∷ s) = ground (arith, starts-trim_left p s)

starts-push_kept :
    (p : ℕ → Bool) (c : ℕ) (s : Text) → p c ≡ false → starts p (push_kept p c s) ≡ false
unfolding push_kept
starts-push_kept p c [] h = ground arith
starts-push_kept p c (d ∷ s) h = h

starts-trim_right :
    (p : ℕ → Bool) (s : Text) → starts p s ≡ false → starts p (trim_right p s) ≡ false
unfolding trim_right
starts-trim_right p [] h = refl
starts-trim_right p (c ∷ s) h = starts-push_kept p c (trim_right p s) h

starts-trim : (p : ℕ → Bool) (s : Text) → starts p (trim p s) ≡ false
unfolding trim
starts-trim p s = starts-trim_right p (trim_left p s) (starts-trim_left p s)

starts-split_path : (p : Text) → starts is_dot_or_slash (split_path p).0 ≡ false
unfolding split_path
starts-split_path p = ground (arith, starts-trim is_dot_or_slash (path_dir p))

apart :
    (s t : Text)
    → starts is_dot_or_slash s ≡ false
    → has_prefix t (codes ".") ≡ true
    → text_eq s t ≡ false
unfolding has_prefix text_eq
apart [] [] h k = cc
apart [] (d ∷ t) h k = refl
apart (c ∷ s) [] h k = refl
apart (c ∷ s) (d ∷ t) h k = ground arith

dir_apart :
    (p dir : Text)
    → has_prefix (normalize_dir dir) (codes ".") ≡ true
    → text_eq (split_path p).0 (normalize_dir dir) ≡ false
dir_apart p dir h = apart (split_path p).0 (normalize_dir dir) (starts-split_path p) h

-- A row as the crawls and the change events write it: its directory is the one of its path.
abbrev pub IsSplit : FileRow → Type 0
IsSplit r = r.dir ≡ (split_path r.path).0

none_listed :
    (v : ℤ) (dir : Text) (hidden : Bool) (rows : List FileRow)
    → All IsSplit rows
    → has_prefix (normalize_dir dir) (codes ".") ≡ true
    → filter (listed v (normalize_dir dir) hidden) rows ≡ []
unfolding filter
none_listed v dir hidden [] h k = refl
none_listed v dir hidden (r ∷ rows) (h, hs) k =
    let elsewhere : text_eq r.dir (normalize_dir dir) ≡ false =
      ap (λ d. text_eq d (normalize_dir dir)) h ∙ dir_apart r.path dir k in
    let skipped : listed v (normalize_dir dir) hidden r ≡ false = ground arith in
    rw skipped (none_listed v dir hidden rows hs k)

-- Where every row has the directory that SplitPath gives for its path, List of a directory whose
-- normalized name begins with a dot returns no file, with hidden entries shown or not.
pub split_path_hidden :
    (v : ℤ) (dir : Text) (hidden : Bool) (db : Db)
    → All IsSplit db.files
    → has_prefix (normalize_dir dir) (codes ".") ≡ true
    → list_files v dir hidden false db ≡ ok []
unfolding list_files sort_by
split_path_hidden v dir hidden db h k = rw (none_listed v dir hidden db.files h k) refl
