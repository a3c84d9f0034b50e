-- ===== src/Version/Cache.antt =====
-- The update checker asks GitHub seldom, and shows only links to GitHub.
use findo.Prelude.{
  ℕ, ◌+◌, ◌*◌, ◌≤◌, ◌≡◌, refl, sym, ◌∙◌, ◌⊎◌, inl, inr, Bool, true, false, Option, none, some, List,
  [], ◌∷◌, arith, Bool-cases, if◌then◌else◌, Text,
}
use findo.Version.{
  Release, Checker, Answers, release_retry_ttl, latest, parse_semver, Semver, VersionInfo,
  fetch_latest_release, respond, handle_version, fresh, store, found, is_newer,
}
use findo.Version.Pick.{IsGithub, fetch_latest_release_safe}

-- How often GitHub is asked during a sequence of calls of `latest`.
unfoldable pub fetches : Checker → List Answers → ℕ
fetches u [] = 0
fetches u (a ∷ rest) = let (u', asked) = latest u a in (if asked then 1 else 0) + fetches u' rest

-- The clock does not run backwards: not before `start`, during a call, and from call to call.
abbrev pub Forward : ℕ → List Answers → Type 0
Forward start [] = Unit
Forward start (a ∷ rest) = (start ≤ a.now) × (a.now ≤ a.later) × Forward a.later rest

abbrev pub end : ℕ → List Answers → ℕ
end start [] = start
end start (a ∷ rest) = end a.later rest

start-le-end : (start : ℕ) (calls : List Answers) → Forward start calls → start ≤ end start calls
start-le-end start [] h = omega arith
start-le-end start (a ∷ rest) h = omega (arith, start-le-end a.later rest h.2)

-- A call either asks, long after the last answer, or leaves the checker alone.
abbrev Asks : Checker → Answers → ℕ → Type 0
Asks u a c =
    ((latest u a).1 ≡ true)
      × ((latest u a).0.checked ≡ some a.later)
      × (c + release_retry_ttl ≤ a.now)
    ⊎ ((latest u a).1 ≡ false) × ((latest u a).0 ≡ u)

latest-Asks : (u : Checker) (a : Answers) (c : ℕ) → u.checked ≡ some c → c ≤ a.now → Asks u a c
unfolding latest
latest-Asks u a c e h = ground arith

fetches_from :
    (calls : List Answers) (u : Checker) (c start : ℕ)
    → u.checked ≡ some c
    → c ≤ start
    → Forward start calls
    → fetches u calls * release_retry_ttl + c ≤ end start calls
unfolding fetches
fetches_from [] u c start e h f = omega arith
fetches_from (a ∷ rest) u c start e h (f, g, k) = elim (latest-Asks u a c e (omega arith)) [
  | inl (asked, e', late) ↦
      rw asked (omega (arith, fetches_from rest (latest u a).0 a.later a.later e' (omega arith) k))
  | inr (asked, same) ↦
      rw (asked, same) (omega (arith, fetches_from rest u c a.later e (omega arith) k))
]

-- newUpdateChecker
abbrev pub new_checker : Checker
new_checker = record {
  checked = none;
  rel = record { tag = []; url = []; prerelease = false; draft = false };
  is_ok = false;
}

latest-new_checker :
    (a : Answers)
    → ((latest new_checker a).1 ≡ true) × ((latest new_checker a).0.checked ≡ some a.later)
unfolding latest
latest-new_checker a = ground arith

-- While the clock does not run backwards, whatever GitHub answers: from a new checker, any number
-- of calls between two instants ask GitHub at most once, and once more for each full hour between
-- them.
pub fetches_rate :
    (calls : List Answers) (start : ℕ)
    → Forward start calls
    → fetches new_checker calls * release_retry_ttl + start ≤ end start calls + release_retry_ttl
unfolding fetches
fetches_rate [] start f = omega arith
fetches_rate (a ∷ rest) start (f, g, k) =
    let (asked, e) = latest-new_checker a in
    rw asked
      (omega (arith, fetches_from rest (latest new_checker a).0 a.later a.later e (omega arith) k))

-- What the checker holds came from a lookup, or it holds no link.
abbrev pub IsSafe : Checker → Type 0
IsSafe u = IsGithub u.rel.url

answer_safe :
    (answer : Option (List Release)) (pre : Bool) (fetched : Option Release) (r : Release)
    → fetched ≡ fetch_latest_release answer pre
    → fetched ≡ some r
    → IsGithub r.url
answer_safe answer pre fetched r e h =
    let (_, _, _, _, _, safe) = fetch_latest_release_safe answer pre r (sym e ∙ h) in safe

store-IsSafe :
    (later : ℕ) (fetched : Option Release)
    → ((r : Release) → fetched ≡ some r → IsGithub r.url)
    → IsSafe (store later fetched)
store-IsSafe later none k = inl refl
store-IsSafe later (some r) k = k r refl

latest-IsSafe :
    (u : Checker) (a : Answers)
    → IsSafe u
    → IsSafe (store a.later a.fetched)
    → IsSafe (latest u a).0
unfolding latest
latest-IsSafe u a h k = elim (Bool-cases (fresh u a.now)) [ inl e ↦ rw e h | inr e ↦ rw e k ]

found-IsGithub : (current : Text) (u : Checker) → IsSafe u → IsGithub (found current u).url
found-IsGithub current u h = elim (Bool-cases u.is_ok) [ inl e ↦ rw e h | inr e ↦ rw e (inl refl) ]

found-newer :
    (current : Text) (u : Checker)
    → ((found current u).update_available ≡ false)
      ⊎ (is_newer (found current u).latest_tag current ≡ true)
found-newer current u = ground arith

-- What is claimed of a response to a version that is `parsed`.
abbrev pub IsHonest : Text → Option Semver → Checker × VersionInfo × Bool → Type 0
IsHonest version parsed (u', info, asked) =
    IsSafe u'
    × IsGithub info.url
    × ((info.update_available ≡ false) ⊎ (is_newer info.latest_tag version ≡ true))
    × (((v : Semver) × (parsed ≡ some v)) ⊎ ((asked ≡ false) × (info.update_available ≡ false)))

respond-IsHonest :
    (version : Text) (u : Checker) (a : Answers) (parsed : Option Semver)
    → IsSafe u
    → IsSafe (store a.later a.fetched)
    → IsHonest version parsed (respond version u a parsed)
unfolding respond
respond-IsHonest version u a none h k = (h, inl refl, inl refl, inr (refl, refl))
respond-IsHonest version u a (some v) h k =
    let safe = latest-IsSafe u a h k in
    (
      safe,
      found-IsGithub version (latest u a).0 safe,
      found-newer version (latest u a).0,
      inl (v, refl),
    )

-- With a checker that is safe and answers of GitHub that came through the lookup: the checker stays
-- safe, the link in the response is empty or begins with GitHub's address, an update is announced
-- only for a tag newer than the running version, and a build whose version does not parse neither
-- asks GitHub nor announces anything.
pub handle_version_safe :
    (version : Text) (u : Checker) (a : Answers) (answer : Option (List Release))
    (include_pre : Bool)
    → IsSafe u
    → a.fetched ≡ fetch_latest_release answer include_pre
    → IsHonest version (parse_semver version) (handle_version version u a)
unfolding handle_version
handle_version_safe version u a answer pre h e =
    respond-IsHonest version u a (parse_semver version) h
      (store-IsSafe a.later a.fetched (λ r. answer_safe answer pre a.fetched r e))
