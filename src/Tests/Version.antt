-- ===== src/Tests/Version.antt =====
-- Versions, the choice of a release and the update checker at concrete inputs.
use findo.Prelude.{
  ℕ, ◌+◌, ◌*◌, ◌≤◌, ◌≡◌, refl, inl, true, false, none, some, List, [], ◌∷◌, arith, codes, Text,
}
use findo.Version.{
  Semver, Release, Answers, semver_less, parse_semver, pick_latest, fetch_latest_release,
  release_retry_ttl, latest, handle_version,
}
use findo.Version.Cache.{fetches, end, new_checker, fetches_rate, IsHonest, handle_version_safe}

abbrev version : ℕ → ℕ → ℕ → Semver
version x y z = record { major = x; minor = y; patch = z }

abbrev release : Text → Text → Release
release tag url = record { tag = tag; url = url; prerelease = false; draft = false }

abbrev releases : List Release
releases =
    release (codes "v0.9.12") (codes "https://github.com/a")
    ∷ release (codes "v0.10.1-rc.1") (codes "https://github.com/b")
    ∷ record { tag = codes "v9.0.0"; url = []; prerelease = false; draft = true }
    ∷ release (codes "nightly") []
    ∷ []

abbrev newest : Release
newest = release (codes "v0.10.1-rc.1") (codes "https://github.com/b")

newest_is_picked : pick_latest releases false ≡ some newest
unfolding pick_latest parse_semver semver_less
newest_is_picked = refl

newest_is_fetched : fetch_latest_release (some releases) false ≡ some newest
unfolding fetch_latest_release pick_latest parse_semver semver_less
newest_is_fetched = refl

abbrev answers : ℕ → ℕ → Answers
answers now later = record { now = now; later = later; fetched = none }

abbrev polls : List Answers
polls = answers 10 12 ∷ answers 20 20 ∷ answers 4_000_000_000_000 4_000_000_000_001 ∷ []

polls_ask_twice : fetches new_checker polls ≡ 2
unfolding fetches latest
polls_ask_twice = refl

fetches_rate_example :
    fetches new_checker polls * release_retry_ttl + 5 ≤ end 5 polls + release_retry_ttl
fetches_rate_example = fetches_rate polls 5 (omega arith)

abbrev answered : Answers
answered = record { now = 1; later = 2; fetched = fetch_latest_release (some releases) false }

handle_version_safe_example :
    IsHonest
      (codes "v0.9.0")
      (parse_semver (codes "v0.9.0"))
      (handle_version (codes "v0.9.0") new_checker answered)
handle_version_safe_example =
    handle_version_safe (codes "v0.9.0") new_checker answered (some releases) false (inl refl) refl
