-- ===== src/Version/Pick.antt =====
-- What `pickLatest` and `fetchLatestRelease` return.
use mathlib.Core.List.{Memᴰ}
use findo.Prelude.{
  ◌≡◌, refl, sym, ◌∙◌, ◌⊎◌, inl, inr, Bool, true, false, not, ◌&&◌, Option, none, some, List, [],
  ◌∷◌, arith, Option-cases, if◌then◌else◌, Text, All,
}
use findo.Strings.{has_prefix}
use findo.Version.{
  Semver, Release, Best, semver_less, parse_semver, keep_newer, consider, pick_from, chosen,
  pick_latest, github, fetch_latest_release, github_only,
}
use findo.Version.Order.{semver_less_irrefl, semver_less_cotrans, semver_less_asym}

-- The version of a release that may be chosen: published, not a pre-release unless those are
-- wanted, with a semantic version as its tag.
abbrev pub candidate : Bool → Release → Option Semver
candidate include_pre r =
    if r.draft then none else if r.prerelease && not include_pre then none else parse_semver r.tag

-- Whether a candidate's version is above the best so far.
abbrev beats : Option Semver → Best → Bool
beats none best = false
beats (some w) none = true
beats (some w) (some (b, v)) = semver_less v w

consider-candidate :
    (pre : Bool) (best : Best) (r : Release)
    → consider pre best r ≡ keep_newer best r (candidate pre r)
unfolding consider
consider-candidate pre best r = ground arith

beats-keep_newer_self :
    (best : Best) (r : Release) (c : Option Semver) → beats c (keep_newer best r c) ≡ false
beats-keep_newer_self best r none = refl
beats-keep_newer_self none r (some v) = semver_less_irrefl v
beats-keep_newer_self (some (b, bv)) r (some v) = ground (arith, semver_less_irrefl v)

-- What the best so far withstands, a newer best withstands too.
beats-keep_newer :
    (best : Best) (r : Release) (c d : Option Semver)
    → beats d best ≡ false
    → beats d (keep_newer best r c) ≡ false
beats-keep_newer best r none d h = h
beats-keep_newer none r (some v) none h = refl
beats-keep_newer none r (some v) (some w) h = cc
beats-keep_newer (some (b, bv)) r (some v) none h = ground arith
beats-keep_newer (some (b, bv)) r (some v) (some w) h =
    ground (arith, semver_less_asym bv v, semver_less_cotrans v bv w)

beats-pick_from :
    (pre : Bool) (best : Best) (rs : List Release) (d : Option Semver)
    → beats d best ≡ false
    → beats d (pick_from pre best rs) ≡ false
unfolding pick_from
beats-pick_from pre best [] d h = h
beats-pick_from pre best (r ∷ rs) d h = rw consider-candidate (
    beats-pick_from pre (keep_newer best r (candidate pre r)) rs d
      (beats-keep_newer best r (candidate pre r) d h))

unbeaten :
    (pre : Bool) (best : Best) (rs : List Release)
    → All (λ r. beats (candidate pre r) (pick_from pre best rs) ≡ false) rs
unfolding pick_from
unbeaten pre best [] = tt
unbeaten pre best (r ∷ rs) = (
  rw consider-candidate (
      beats-pick_from pre (keep_newer best r (candidate pre r)) rs (candidate pre r)
        (beats-keep_newer_self best r (candidate pre r))),
  unbeaten pre (consider pre best r) rs,
)

keep_newer-cases :
    (best : Best) (r : Release) (c : Option Semver) (b : Release) (v : Semver)
    → keep_newer best r c ≡ some (b, v)
    → (best ≡ some (b, v)) ⊎ ((r ≡ b) × (c ≡ some v))
keep_newer-cases best r none b v h = inl h
keep_newer-cases none r (some w) b v h = ground arith
keep_newer-cases (some (b', bv)) r (some w) b v h = ground arith

picked_from :
    (pre : Bool) (best : Best) (rs : List Release) (b : Release) (v : Semver)
    → pick_from pre best rs ≡ some (b, v)
    → (best ≡ some (b, v)) ⊎ (Memᴰ b rs × (candidate pre b ≡ some v))
unfolding pick_from
picked_from pre best [] b v h = inl h
picked_from pre best (r ∷ rs) b v h = elim (picked_from pre (consider pre best r) rs b v h) [
  | inr (m, e) ↦ inr (Memᴰ.tail m, e)
  | inl e ↦
      elim (keep_newer-cases best r (candidate pre r) b v
        (sym (consider-candidate pre best r) ∙ e)) [
          | inl old ↦ inl old
          | inr (same, c) ↦ inr (Memᴰ.head (sym same), rw (← same) c)
        ]
]

-- What a choice from a list should be: the release is in the list and may be chosen, and no
-- release that may be chosen has a higher version; or none may be chosen.
abbrev pub IsGreatest : Bool → List Release → Option Release → Type 0
IsGreatest pre rs none = All (λ r. candidate pre r ≡ none) rs
IsGreatest pre rs (some b) =
    (v : Semver) × Memᴰ b rs
    × (candidate pre b ≡ some v)
    × All (λ r. beats (candidate pre r) (some (b, v)) ≡ false) rs

none-beats : (c : Option Semver) → beats c none ≡ false → c ≡ none
none-beats none h = refl
none-beats (some w) h = cc

none_beat :
    (pre : Bool) (rs : List Release)
    → All (λ r. beats (candidate pre r) none ≡ false) rs
    → All (λ r. candidate pre r ≡ none) rs
none_beat pre [] h = tt
none_beat pre (r ∷ rs) h = (none-beats (candidate pre r) h.0, none_beat pre rs h.1)

-- `pickLatest` returns a release of the list that is published, has a semantic version and is no
-- unwanted pre-release, such that no other such release has a higher version, whatever the order
-- of the list; it returns none only if the list holds no such release.
pick_latest-IsGreatest :
    (releases : List Release) (include_pre : Bool)
    → IsGreatest include_pre releases (pick_latest releases include_pre)
unfolding pick_latest
pick_latest-IsGreatest rs pre =
    go (pick_from pre none rs) (unbeaten pre none rs) (λ b v. picked_from pre none rs b v)
  where
    go :
        (best : Best)
        → All (λ r. beats (candidate pre r) best ≡ false) rs
        → ((b : Release) (v : Semver)
            → best ≡ some (b, v)
            → (◌≡◌ {A = Best} none (some (b, v))) ⊎ (Memᴰ b rs × (candidate pre b ≡ some v)))
        → IsGreatest pre rs (chosen best)
    go none h k = none_beat pre rs h
    go (some (b, v)) h k = elim (k b v refl) [ inl e ↦ cc | inr (m, c) ↦ (v, m, c, h) ]

abbrev pub IsGithub : Text → Type 0
IsGithub url = (url ≡ []) ⊎ (has_prefix url github ≡ true)

github_only-IsGithub : (r : Release) → IsGithub (github_only r).url
github_only-IsGithub r = ground arith

-- The release that a lookup returns is a greatest one of the decoded list but for its link, which
-- is kept only if it begins with GitHub's address and is emptied otherwise; a failed lookup
-- returns none.
pub fetch_latest_release_safe :
    (answer : Option (List Release)) (include_pre : Bool) (rel : Release)
    → fetch_latest_release answer include_pre ≡ some rel
    → (releases : List Release) × (r : Release) × (answer ≡ some releases)
      × IsGreatest include_pre releases (some r)
      × (rel.tag ≡ r.tag)
      × IsGithub rel.url
unfolding fetch_latest_release
fetch_latest_release_safe none pre rel h = cc
fetch_latest_release_safe (some releases) pre rel h =
    elim (Option-cases (pick_latest releases pre)) [
      | inl e ↦ absurd (ground arith)
      | inr (r, e) ↦ (
        releases,
        r,
        refl,
        rw e at (pick_latest-IsGreatest releases pre),
        ground arith,
        let same : rel ≡ github_only r = ground arith in rw same (github_only-IsGithub r),
      )
    ]
