-- ===== src/Index/Paths.antt =====
-- The path functions of backend/internal/index/index.go, with path.Dir and path.Ext of Go.
pub mod Hidden
use findo.Prelude.{
  ℕ, ◌≡◌, refl, Bool, true, false, not, ◌&&◌, ◌||◌, Option, none, some, List, [], ◌∷◌, ◌++◌, arith,
  ◌==◌, if◌then◌else◌, Text, text_eq, codes, any, Bool-cases,
}
use findo.Strings.{has_prefix, trim_prefix, trim, trim_left, trim_right, push_kept, split, join}
use findo.Index.Files.{is_slash}

-- p[:i+1] for the last slash i, or nothing
unfoldable pub up_to_slash : Text → Text
unfolding any
up_to_slash [] = []
up_to_slash (c ∷ s) = if any is_slash (c ∷ s) then c ∷ up_to_slash s else []

-- `..` drops the last element that stays, which is the first of `kept`.
unfoldable pub clean_up : Bool → List Text → List Text
clean_up rooted [] = if rooted then [] else codes ".." ∷ []
clean_up rooted (k ∷ ks) = if text_eq k (codes "..") then codes ".." ∷ k ∷ ks else ks

-- One element of a path that path.Clean reads; the elements that stay are kept in reverse.
unfoldable pub clean_step : Bool → List Text → Text → List Text
unfolding clean_up
clean_step rooted kept part =
    if text_eq part [] || text_eq part (codes ".")
    then kept
    else if text_eq part (codes "..")
    then clean_up rooted kept
    else part ∷ kept

unfoldable pub clean_parts : Bool → List Text → List Text → List Text
clean_parts rooted kept [] = kept
clean_parts rooted kept (p ∷ ps) = clean_parts rooted (clean_step rooted kept p) ps

unfoldable pub rev : List Text → List Text → List Text
rev [] done = done
rev (p ∷ ps) done = rev ps (p ∷ done)

abbrev or_dot : Text → Text
or_dot [] = codes "."
or_dot (c ∷ s) = c ∷ s

-- path.Clean
unfoldable pub clean : Text → Text
unfolding clean_step clean_parts rev split join has_prefix text_eq
clean s =
    let rooted = has_prefix s (codes "/") in
    or_dot (
      (if rooted then codes "/" else [])
      ++ join (codes "/") (rev (clean_parts rooted [] (split is_slash s)) []))

-- path.Dir
unfoldable pub path_dir : Text → Text
unfolding clean up_to_slash
path_dir p = clean (up_to_slash p)

-- path.Ext: from the last dot of the last element
unfoldable pub path_ext : Text → Text
unfolding any
path_ext [] = []
path_ext (c ∷ s) =
    if c == b'.' && not (any (λ b. b == b'.' || is_slash b) s) then c ∷ s else path_ext s

abbrev pub is_dot_or_slash : ℕ → Bool
is_dot_or_slash c = c == b'.' || c == b'/'

-- (dir, ext)
unfoldable pub split_path : Text → Text × Text
unfolding path_dir path_ext trim trim_prefix text_eq
split_path p =
    let dir = trim is_dot_or_slash (path_dir p) in
    (if text_eq dir (codes ".") then [] else dir, trim_prefix (path_ext p) (codes "."))

unfoldable pub normalize_dir : Text → Text
unfolding trim
normalize_dir dir = trim is_slash dir

split_path_reads :
    (split_path (codes "docs/budget.v2.xlsx") ≡ (codes "docs", codes "xlsx"))
    × (split_path (codes "a/./b/../c.d/README") ≡ (codes "a/c.d", []))
    × (split_path (codes "top.txt") ≡ ([], codes "txt"))
    × (split_path (codes ".git/config") ≡ (codes "git", []))
unfolding split_path
split_path_reads = (refl, refl, refl, refl)
