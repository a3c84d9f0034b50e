-- ===== src/Index/Migrate.antt =====
-- backend/internal/index/migrate.go. The embedded files are an argument, and `refuses` says which
-- bodies the database refuses; the table schema_migrations is the list of its versions, in the order
-- in which they were applied.
pub mod Once
use findo.Prelude.{
  ℕ, Bool, true, false, ◌||◌, Option, none, some, List, [], ◌∷◌, ◌++◌, ◌==◌, if◌then◌else◌, Text,
  any,
}
use findo.Prelude.Int.{ℤ, int_eq}
use findo.Strings.{before}
use findo.Strings.Numbers.{atoi}
use findo.Index.Queries.{sort_by, text_before}
use findo.Index.Content.{text_le}

pub record Migration : Type 0 where
  pub name : Text
  pub body : Text

pub data MigrateError : Type 0 where
  no_table bad_name refused_body version_twice : MigrateError

unfoldable pub has_version : ℤ → List ℤ → Bool
unfolding any int_eq
has_version v versions = any (int_eq v) versions

-- strconv.Atoi(strings.SplitN(name, "_", 2)[0])
unfoldable pub version_of : Text → Option ℤ
unfolding atoi before
version_of name = atoi (before (λ c. c == b'_') name)

-- The version is the table's primary key.
unfoldable pub apply_migration : (Text → Bool) → ℤ → Text → List ℤ → Option MigrateError × List ℤ
unfolding has_version
apply_migration refuses v body done =
    if refuses body
    then (some refused_body, done)
    else if has_version v done
    then (some version_twice, done)
    else (none, done ++ v ∷ [])

abbrev pub next_migration :
    (List ℤ → Option MigrateError × List ℤ)
    → Option MigrateError × List ℤ
    → Option MigrateError × List ℤ
next_migration next (some e, done) = (some e, done)
next_migration next (none, done) = next done

abbrev pub migrate_named :
    (List ℤ → Option MigrateError × List ℤ)
    → (Text → Bool)
    → List ℤ
    → Migration
    → List ℤ
    → Option ℤ
    → Option MigrateError × List ℤ
migrate_named next refuses applied m done none = (some bad_name, done)
migrate_named next refuses applied m done (some v) =
    if has_version v applied
    then next done
    else next_migration next (apply_migration refuses v m.body done)

-- The loop over the names; `applied` is what was read before it.
unfoldable pub migrate_files :
    (Text → Bool) → List ℤ → List Migration → List ℤ → Option MigrateError × List ℤ
unfolding apply_migration version_of has_version
migrate_files refuses applied [] done = (none, done)
migrate_files refuses applied (m ∷ ms) done =
    migrate_named (migrate_files refuses applied ms) refuses applied m done (version_of m.name)

abbrev pub file_before : Migration → Migration → Bool
file_before m n = text_before m.name n.name

-- `is_fault` says whether the database refuses the table or the query on it.
unfoldable pub migrate :
    (Text → Bool) → Bool → List Migration → List ℤ → Option MigrateError × List ℤ
unfolding migrate_files sort_by text_le
migrate refuses is_fault files done =
    if is_fault
    then (some no_table, done)
    else migrate_files refuses done (sort_by file_before files) done
