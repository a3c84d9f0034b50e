-- ===== src/Volumes.antt =====
-- backend/internal/index/volumes.go: the table of configured volumes. Timestamps are left out.
pub mod Server
pub mod Secrets
pub mod Bound
pub mod Tested
pub mod Cleared
use findo.Prelude.{
  ℕ, suc, Bool, true, false, not, ◌&&◌, ◌||◌, Option, none, some, List, [], ◌∷◌, ◌==◌,
  if◌then◌else◌, Text, text_eq, any, find, filter,
}
use findo.Index.{Db, Error, fault, not_found, name_taken, Result, ok, err, delete_files}

-- A row of `volumes`, which is a Volume with its encrypted password.
pub record Volume : Type 0 where
  pub id : ℕ
  pub name : Text
  pub host : Text
  pub share : Text
  pub username : Text
  pub password_enc : Text
  pub enabled : Bool
  pub content_index : Bool
  pub last_test_ok : Option Bool
  pub last_test_error : Text

pub record VolumeSecret : Type 0 where
  pub host : Text
  pub share : Text
  pub username : Text
  pub password_enc : Text

pub record VolumeUpdate : Type 0 where
  pub name : Text
  pub host : Text
  pub share : Text
  pub username : Text
  pub password_enc : Option Text
  pub enabled : Bool

pub record Tables : Type 0 where
  pub volumes : List Volume
  pub next_volume : ℕ
  pub db : Db
  -- the database's lower(), under which names are unique
  pub lower : Text → Text

abbrev pub has_id : ℕ → Volume → Bool
has_id id v = v.id == id

abbrev pub has_name : (Text → Text) → Text → Volume → Bool
has_name lower name v = text_eq (lower v.name) (lower name)

-- The name is unique, the identity column gives the id, and content indexing is off by default.
unfoldable pub create_volume :
    Text → Text → Text → Text → Text → Bool → Tables → Result Volume × Tables
unfolding any
create_volume name host share username password_enc is_fault t =
    if is_fault
    then (err fault, t)
    else if any (has_name t.lower name) t.volumes
    then (err name_taken, t)
    else (ok row, record t { volumes = row ∷ t.volumes; next_volume = suc t.next_volume })
  where
    row : Volume
    row = record {
      id = t.next_volume;
      name = name;
      host = host;
      share = share;
      username = username;
      password_enc = password_enc;
      enabled = true;
      content_index = false;
      last_test_ok = none;
      last_test_error = [];
    }

abbrev pub or_stored : Option Text → Text → Text
or_stored none old = old
or_stored (some new) old = new

unfoldable pub updated : VolumeUpdate → Volume → Volume
updated u v = record v {
  name = u.name;
  host = u.host;
  share = u.share;
  username = u.username;
  password_enc = or_stored u.password_enc v.password_enc;
  enabled = u.enabled;
}

-- UPDATE volumes … WHERE id = $n, which is the primary key: one row at most has the id.
unfoldable pub change : ℕ → (Volume → Volume) → List Volume → List Volume
change id f [] = []
change id f (v ∷ vs) = if has_id id v then f v ∷ vs else v ∷ change id f vs

abbrev pub another : (Text → Text) → ℕ → Text → Volume → Bool
another lower id name v = has_name lower name v && not (has_id id v)

unfoldable pub update_volume : ℕ → VolumeUpdate → Bool → Tables → Result Volume × Tables
unfolding find any change updated
update_volume id u is_fault t =
    if is_fault then (err fault, t) else elim (find (has_id id) t.volumes) [
      | none ↦ (err not_found, t)
      | some v ↦
          if any (another t.lower id u.name) t.volumes
          then (err name_taken, t)
          else (ok (updated u v), record t { volumes = change id (updated u) t.volumes })
    ]

abbrev pub set_content : Bool → Volume → Volume
set_content on v = record v { content_index = on }

-- DELETE FROM chunks and FROM content_state WHERE volume_id = $1
unfoldable pub clear_content : ℕ → Db → Db
unfolding filter
clear_content id db = record db {
  chunks = filter (λ c. not (c.volume == id)) db.chunks;
  states = filter (λ s. not (s.volume == id)) db.states;
}

-- One transaction; `is_fault` says whether the database refuses any statement of it.
unfoldable pub set_volume_content_index : ℕ → Bool → Bool → Tables → Result Volume × Tables
unfolding find change clear_content
set_volume_content_index id on is_fault t =
    if is_fault then (err fault, t) else elim (find (has_id id) t.volumes) [
      | none ↦ (err not_found, t)
      | some v ↦ (
        ok (set_content on v),
        record t {
          volumes = change id (set_content on) t.volumes;
          db = if on then t.db else clear_content id t.db;
        },
      )
    ]

-- One transaction, as above. The rows of `files` go with those that refer to them.
unfoldable pub delete_volume : ℕ → Bool → Tables → Option Error × Tables
unfolding filter delete_files
delete_volume id is_fault t = if is_fault then (some fault, t) else (
  none,
  record t {
    volumes = filter (λ v. not (has_id id v)) t.volumes;
    db = without_runs (delete_files (λ r. r.volume == id) t.db);
  },
)
  where
    without_runs : Db → Db
    without_runs db = record db { runs = filter (λ r. not (r.volume == id)) db.runs }

unfoldable pub get_volume : ℕ → Bool → Tables → Result (Option Volume)
unfolding find
get_volume id is_fault t = if is_fault then err fault else ok (find (has_id id) t.volumes)

abbrev pub secret_of : Volume → VolumeSecret
secret_of v = record {
  host = v.host;
  share = v.share;
  username = v.username;
  password_enc = v.password_enc;
}

unfoldable pub get_volume_secret : ℕ → Bool → Tables → Result VolumeSecret
unfolding find
get_volume_secret id is_fault t =
    if is_fault
    then err fault
    else elim (find (has_id id) t.volumes) [ none ↦ err not_found | some v ↦ ok (secret_of v) ]

abbrev pub tested : Bool → Text → Volume → Volume
tested is_ok msg v = record v { last_test_ok = some is_ok; last_test_error = msg }

unfoldable pub set_volume_test_result : ℕ → Bool → Text → Bool → Tables → Option Error × Tables
unfolding change
set_volume_test_result id is_ok msg is_fault t =
    if is_fault
    then (some fault, t)
    else (none, record t { volumes = change id (tested is_ok msg) t.volumes })
