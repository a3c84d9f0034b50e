-- ===== src/Version/Order.antt =====
-- `semverLess` and `isNewer` are strict orders.
use findo.Prelude.{◌≡◌, refl, ◌⊎◌, true, false, Option, none, some, arith, Text}
use findo.Version.{Semver, semver_less, parse_semver, newer, is_newer}

-- No version is less than itself.
pub semver_less_irrefl : (a : Semver) → semver_less a a ≡ false
unfolding semver_less
semver_less_irrefl a = ground arith

pub semver_less_trans :
    (a b c : Semver) → semver_less a b ≡ true → semver_less b c ≡ true → semver_less a c ≡ true
unfolding semver_less
semver_less_trans a b c p q = ground arith

-- What is not less is at least: `a < c` gives `a < b` or `b < c`.
pub semver_less_cotrans :
    (a b c : Semver) → semver_less a b ≡ false → semver_less b c ≡ false → semver_less a c ≡ false
unfolding semver_less
semver_less_cotrans a b c p q = ground arith

pub semver_less_total :
    (a b : Semver) → (semver_less a b ≡ true) ⊎ (a ≡ b) ⊎ (semver_less b a ≡ true)
unfolding semver_less
semver_less_total a b = ground arith

pub semver_less_asym : (a b : Semver) → semver_less a b ≡ true → semver_less b a ≡ false
unfolding semver_less
semver_less_asym a b p = ground arith

-- Whenever one version is less than a second and the second less than a third, the first is less
-- than the third and the third is not less than the first.
pub semver_less_chain :
    (a b c : Semver)
    → semver_less a b ≡ true
    → semver_less b c ≡ true
    → (semver_less a c ≡ true) × (semver_less c a ≡ false)
semver_less_chain a b c p q = let r = semver_less_trans a b c p q in (r, semver_less_asym a c r)

newer-cases :
    (l c : Option Semver)
    → newer l c ≡ true
    → (lv : Semver) × (cv : Semver) × (l ≡ some lv) × (c ≡ some cv) × (semver_less cv lv ≡ true)
newer-cases none c h = cc
newer-cases (some lv) none h = cc
newer-cases (some lv) (some cv) h = (lv, cv, refl, refl, h)

newer_asym : (l c : Option Semver) → newer l c ≡ true → newer c l ≡ false
newer_asym none c h = cc
newer_asym (some lv) none h = cc
newer_asym (some lv) (some cv) h = semver_less_asym cv lv h

-- If one version string is newer than another, both parse, the second one's version is less than
-- the first one's, and the second is not newer than the first. So a "dev" build is never outdated.
is_newer_sound :
    (l c : Text)
    → is_newer l c ≡ true
    → (lv : Semver) × (cv : Semver) × (parse_semver l ≡ some lv)
      × (parse_semver c ≡ some cv)
      × (semver_less cv lv ≡ true)
      × (is_newer c l ≡ false)
unfolding is_newer
is_newer_sound l c h =
    let (lv, cv, p, q, r) = newer-cases (parse_semver l) (parse_semver c) h in
    (lv, cv, p, q, r, newer_asym (parse_semver l) (parse_semver c) h)
