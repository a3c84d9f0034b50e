-- ===== src/Tests/Migrate.antt =====
-- Migrations at concrete inputs.
use findo.Prelude.{◌≡◌, refl, Bool, true, false, none, List, [], ◌∷◌, ◌++◌, Text, codes, All}
use findo.Prelude.Int.{ℤ, pos}
use findo.Index.Queries.{sort_by}
use findo.Index.Migrate.{Migration, migrate, file_before}
use findo.Index.Migrate.Once.{IsApplied, migrate_once}

abbrev migration : Text → Migration
migration name = record { name = name; body = [] }

-- Not in the order of their names.
abbrev files : List Migration
files =
    migration (codes "0002_volumes.sql")
    ∷ migration (codes "0001_init.sql")
    ∷ migration (codes "0003_content.sql")
    ∷ []

abbrev before : List ℤ
before = pos 1 ∷ []

abbrev after : List ℤ
after = pos 1 ∷ pos 2 ∷ pos 3 ∷ []

abbrev accepts : Text → Bool
accepts body = false

abbrev refuses_all : Text → Bool
refuses_all body = true

applies_the_rest : migrate accepts false files before ≡ (none, after)
unfolding migrate
applies_the_rest = refl

migrate_once_example :
    ((new : List ℤ) × (after ≡ before ++ new))
    × All (IsApplied after) (sort_by file_before files)
    × (migrate refuses_all false files after ≡ (none, after))
migrate_once_example = migrate_once accepts refuses_all files before after applies_the_rest
