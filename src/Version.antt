-- ===== src/Version.antt =====
-- backend/internal/httpapi/version.go: versions, the choice of a release, the update checker.
pub mod Order
pub mod Pick
pub mod Cache
use findo.Prelude.{
  ℕ, ◌-◌, ◌*◌, Bool, true, false, not, ◌&&◌, ◌||◌, Option, none, some, List, [], ◌∷◌, ltb, ◌==◌,
  if◌then◌else◌, Text, codes,
}
use findo.Prelude.Int.{ℤ, pos, negsuc}
use findo.Strings.{has_prefix, trim_prefix, before, split}
use findo.Strings.Numbers.{atoi}

-- [3]int
pub record Semver : Type 0 where
  pub major : ℕ
  pub minor : ℕ
  pub patch : ℕ

pub record Release : Type 0 where
  pub tag : Text
  pub url : Text
  pub prerelease : Bool
  pub draft : Bool

-- release{}
abbrev pub no_release : Release
no_release = record { tag = []; url = []; prerelease = false; draft = false }

-- The first index at which the two differ decides.
unfoldable pub semver_less : Semver → Semver → Bool
semver_less a b =
    if not (a.major == b.major)
    then ltb a.major b.major
    else if not (a.minor == b.minor)
    then ltb a.minor b.minor
    else if not (a.patch == b.patch)
    then ltb a.patch b.patch
    else false

abbrev not_negative : Option ℤ → Option ℕ
not_negative none = none
not_negative (some (pos n)) = some n
not_negative (some (negsuc n)) = none

infixl 5 ◌>>=◌
abbrev ◌>>=◌ {ℓ κ} : {A : Type ℓ} {B : Type κ} → Option A → (A → Option B) → Option B
none >>= f = none
some a >>= f = f a

-- The loop over the parts, when there are three.
read_parts : List Text → Option Semver
read_parts (a ∷ b ∷ c ∷ []) = do
  x ← not_negative (atoi a)
  y ← not_negative (atoi b)
  z ← not_negative (atoi c)
  some (record { major = x; minor = y; patch = z })
read_parts _ = none

-- (v, ok) is an `Option`: no caller reads `v` when `ok` is false.
unfoldable pub parse_semver : Text → Option Semver
unfolding read_parts trim_prefix before split atoi
parse_semver s =
    read_parts
      (split (λ c. c == b'.') (before (λ c. c == b'-' || c == b'+') (trim_prefix s (codes "v"))))

abbrev pub newer : Option Semver → Option Semver → Bool
newer (some l) (some c) = semver_less c l
newer _ _ = false

unfoldable pub is_newer : Text → Text → Bool
is_newer latest current = newer (parse_semver latest) (parse_semver current)

-- `best`, `bestV` and `ok` are one optional pair.
abbrev pub Best : Type 0
Best = Option (Release × Semver)

abbrev keep_newer : Best → Release → Option Semver → Best
keep_newer best r none = best
keep_newer none r (some v) = some (r, v)
keep_newer (some (b, best_v)) r (some v) =
    if semver_less best_v v then some (r, v) else some (b, best_v)

-- One round of the loop of `pickLatest`.
consider : Bool → Best → Release → Best
consider include_pre best r =
    if r.draft || (r.prerelease && not include_pre)
    then best
    else keep_newer best r (parse_semver r.tag)

pick_from : Bool → Best → List Release → Best
pick_from include_pre best [] = best
pick_from include_pre best (r ∷ rs) = pick_from include_pre (consider include_pre best r) rs

abbrev pub chosen : Best → Option Release
chosen none = none
chosen (some (r, v)) = some r

unfoldable pub pick_latest : List Release → Bool → Option Release
unfolding consider pick_from
pick_latest releases include_pre = chosen (pick_from include_pre none releases)

abbrev pub github : Text
github = codes "https://github.com/"

abbrev github_only : Release → Release
github_only r = if has_prefix r.url github then r else record r { url = [] }

-- The argument is the decoded list, `none` if the request, its status or the decoding failed.
unfoldable pub fetch_latest_release : Option (List Release) → Bool → Option Release
unfolding has_prefix
fetch_latest_release none include_pre = none
fetch_latest_release (some releases) include_pre = elim (pick_latest releases include_pre) [
  | none ↦ none
  | some rel ↦ some (github_only rel)
]

-- Times are nanoseconds; a zero `checked` is `none`.
pub record Checker : Type 0 where
  pub checked : Option ℕ
  pub rel : Release
  pub is_ok : Bool

abbrev pub release_ttl : ℕ
release_ttl = 6 * 3_600_000_000_000

abbrev pub release_retry_ttl : ℕ
release_retry_ttl = 3_600_000_000_000

-- What the clock and GitHub answer during one call: `later` is read after the fetch.
pub record Answers : Type 0 where
  pub now : ℕ
  pub later : ℕ
  pub fetched : Option Release

abbrev fresh : Checker → ℕ → Bool
fresh u now = elim u.checked [
  | none ↦ false
  | some c ↦ ltb (now - c) (if u.is_ok then release_ttl else release_retry_ttl)
]

abbrev store : ℕ → Option Release → Checker
store later none = record { checked = some later; rel = no_release; is_ok = false }
store later (some r) = record { checked = some later; rel = r; is_ok = true }

-- The last part says whether GitHub was asked.
unfoldable pub latest : Checker → Answers → Checker × Bool
latest u a = if fresh u a.now then (u, false) else (store a.later a.fetched, true)

pub record VersionInfo : Type 0 where
  pub current : Text
  pub latest_tag : Text
  pub update_available : Bool
  pub url : Text

abbrev found : Text → Checker → VersionInfo
found current u =
    if u.is_ok
    then record {
      current = current;
      latest_tag = u.rel.tag;
      update_available = is_newer u.rel.tag current;
      url = u.rel.url;
    }
    else record { current = current; latest_tag = []; update_available = false; url = [] }

-- A dev build has nothing to compare, so the lookup is skipped.
respond : Text → Checker → Answers → Option Semver → Checker × VersionInfo × Bool
respond version u a none =
    (u, record { current = version; latest_tag = []; update_available = false; url = [] }, false)
respond version u a (some v) = let (u', asked) = latest u a in (u', found version u', asked)

-- The new state of the checker, the response, and whether GitHub was asked.
unfoldable pub handle_version : Text → Checker → Answers → Checker × VersionInfo × Bool
unfolding respond
handle_version version u a = respond version u a (parse_semver version)
