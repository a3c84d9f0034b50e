-- ===== src/Index/Migrate/Once.antt =====
-- Migrations are applied once.
use findo.Prelude.{
  ◌≡◌, refl, sym, ap, ◌∙◌, Bool, true, false, Option, none, some, List, [], ◌∷◌, ◌++◌, append_assoc,
  append-nil, Text, any, All, inl, inr, Bool-cases, Option-cases,
}
use findo.Prelude.Int.{ℤ, int_eq, int_eq_refl}
use findo.Index.Queries.{sort_by}
use findo.Index.Migrate.{
  Migration, MigrateError, bad_name, refused_body, version_twice, has_version, version_of,
  apply_migration, migrate_files, migrate, file_before,
}

has_version-append :
    (v : ℤ) (xs ys : List ℤ) → has_version v xs ≡ true → has_version v (xs ++ ys) ≡ true
unfolding has_version any
has_version-append v [] ys h = cc
has_version-append v (x ∷ xs) ys h = elim (Bool-cases (int_eq v x)) [
  | inl here ↦ rw here refl
  | inr other ↦ rw other (has_version-append v xs ys (rw other at h))
]

has_version-last : (v : ℤ) (xs : List ℤ) → has_version v (xs ++ v ∷ []) ≡ true
unfolding has_version any
has_version-last v [] = rw (int_eq_refl v) refl
has_version-last v (x ∷ xs) = elim (Bool-cases (int_eq v x)) [
  | inl here ↦ rw here refl
  | inr other ↦ rw other (has_version-last v xs)
]

-- A migration whose version is among those that were applied.
abbrev pub IsApplied : List ℤ → Migration → Type 0
IsApplied done m = (v : ℤ) × (version_of m.name ≡ some v) × (has_version v done ≡ true)

-- What a run without an error leaves: more versions, and those of all the files.
abbrev Applied : List ℤ → List Migration → List ℤ → Type 0
Applied done ms after = ((new : List ℤ) × (after ≡ done ++ new)) × All (IsApplied after) ms

-- The two ends of a run.
abbrev Ended : Type 0
Ended = Option MigrateError × List ℤ

failed_not_done :
    {P : Type 0} (x : MigrateError) (done after : List ℤ)
    → ◌≡◌ {A = Ended} (some x, done) (none, after)
    → P
failed_not_done x done after e = let o : some x ≡ none = ap (λ (r : Ended). r.0) e in cc

module _ (refuses : Text → Bool) (applied : List ℤ) where
  migrate_files-Applied :
      (ms : List Migration) (done after : List ℤ)
      → ((v : ℤ) → has_version v applied ≡ true → has_version v done ≡ true)
      → migrate_files refuses applied ms done ≡ (none, after)
      → Applied done ms after
  unfolding migrate_files apply_migration
  migrate_files-Applied [] done after sub e =
      (([], let same : done ≡ after = cc in sym same ∙ sym (append-nil done)), tt)
  migrate_files-Applied (m ∷ ms) done after sub e = elim (Option-cases (version_of m.name)) [
    | inl unnamed ↦ failed_not_done bad_name done after (rw unnamed at e)
    | inr (v, named) ↦ elim (Bool-cases (has_version v applied)) [
      | inl before ↦
          let rest = migrate_files-Applied ms done after sub (rw (named, before) at e) in
          let (new, grown) = rest.0 in
          (
            rest.0,
            (
              (v, named, ap (has_version v) grown ∙ has_version-append v done new (sub v before)),
              rest.1,
            ),
          )
      | inr unapplied ↦ elim (Bool-cases (refuses m.body)) [
        | inl bad ↦ failed_not_done refused_body done after (rw (named, unapplied, bad) at e)
        | inr good ↦ elim (Bool-cases (has_version v done)) [
          | inl twice ↦
              failed_not_done version_twice done after (rw (named, unapplied, good, twice) at e)
          | inr once ↦
              let rest =
                migrate_files-Applied ms (done ++ v ∷ []) after
                  (λ w h. has_version-append w done (v ∷ []) (sub w h))
                  (rw (named, unapplied, good, once) at e) in
              let (new, grown) = rest.0 in
              (
                (v ∷ new, grown ∙ append_assoc done (v ∷ []) new),
                (
                  (
                    v,
                    named,
                    ap (has_version v) grown
                        ∙ has_version-append v (done ++ v ∷ []) new (has_version-last v done),
                  ),
                  rest.1,
                ),
              )
        ]
      ]
    ]
  ]

skips :
    (refuses : Text → Bool) (done : List ℤ) (ms : List Migration)
    → All (IsApplied done) ms
    → migrate_files refuses done ms done ≡ (none, done)
unfolding migrate_files
skips refuses done [] h = refl
skips refuses done (m ∷ ms) ((v, named, has), hs) = rw (named, has) (skips refuses done ms hs)

-- A start that applies the migrations without an error keeps the versions that were there, in their
-- place, and leaves a version for every file; a later start with the same files
-- applies none, whatever the database would refuse.
pub migrate_once :
    (refuses refuses' : Text → Bool) (files : List Migration) (done after : List ℤ)
    → migrate refuses false files done ≡ (none, after)
    → ((new : List ℤ) × (after ≡ done ++ new))
      × All (IsApplied after) (sort_by file_before files)
      × (migrate refuses' false files after ≡ (none, after))
unfolding migrate
migrate_once refuses refuses' files done after e =
    let (grown, all) =
      migrate_files-Applied refuses done (sort_by file_before files) done after (λ v h. h) e in
    (grown, all, skips refuses' after (sort_by file_before files) all)
