-- ===== src/Volumes/Server.antt =====
-- backend/internal/httpapi/volumes.go and server.go: the requests that configure volumes, and the
-- connections that they start. A body that does not decode is left out: it is refused before all else.
use findo.Prelude.{
  ℕ, Bool, true, false, not, ◌&&◌, ◌||◌, Option, none, some, List, [], ◌∷◌, ◌==◌, if◌then◌else◌,
  Text, text_eq, filter,
}
use findo.Index.{Error, name_taken, Result, ok, err}
use findo.Strings.Runes.{trim_space}
use findo.Volumes.{
  Volume, VolumeSecret, VolumeUpdate, Tables, create_volume, update_volume,
  set_volume_content_index, delete_volume, get_volume, get_volume_secret, set_volume_test_result,
}

pub record VolumeInput : Type 0 where
  pub name : Text
  pub host : Text
  pub share : Text
  pub username : Text
  pub password : Text
  pub enabled : Option Bool
  pub content_index : Option Bool

-- A registered volume: the session was opened with this secret.
pub record Runtime : Type 0 where
  pub volume : ℕ
  pub secret : VolumeSecret

-- The tables, the registered runtimes, and the volumes whose start was put in the background.
pub record Server : Type 0 where
  pub tables : Tables
  pub runtimes : List Runtime
  pub starting : List ℕ

-- What the outside answers during one request: crypto.Encrypt (none: an error), and whether the
-- database refuses the read, the write and the change of content indexing.
pub record Calls : Type 0 where
  pub encrypted : Option Text
  pub get_fault : Bool
  pub write_fault : Bool
  pub content_fault : Bool

-- The status code of a response, and the state after the request.
abbrev pub Response : Type 0
Response = ℕ × Server

abbrev pub is_nil : Text → Bool
is_nil [] = true
is_nil (c ∷ s) = false

abbrev write_error : Error → ℕ
write_error name_taken = 409
write_error _ = 500

abbrev pub wanted : Option Bool → Bool → Bool
wanted none default = default
wanted (some b) default = b

abbrev pub start_volume_async : Volume → Server → Server
start_volume_async v s = record s { starting = v.id ∷ s.starting }

unfoldable pub stop_volume : ℕ → Server → Server
unfolding filter
stop_volume id s = record s { runtimes = filter (λ r. not (r.volume == id)) s.runtimes }

abbrev pub created : Option Bool → Result Volume × Tables → Server → Response
created enabled (err e, t) s = (500, record s { tables = t })
created enabled (ok v, t) s = (
  201,
  (if wanted enabled true
      then start_volume_async v (record s { tables = t })
      else record s { tables = t }),
)

abbrev pub then_content : VolumeInput → Calls → Result Volume × Tables → Server → Response
then_content i c (err e, t) s = (write_error e, record s { tables = t })
then_content i c (ok v, t) s =
    if wanted i.content_index false
    then created i.enabled (set_volume_content_index v.id true c.content_fault t) s
    else created i.enabled (ok v, t) s

unfoldable pub handle_create_volume : VolumeInput → Calls → Server → Response
unfolding trim_space create_volume set_volume_content_index
handle_create_volume i c s =
    if is_nil (trim_space i.name)
      || (is_nil i.host || (is_nil i.share || (is_nil i.username || is_nil i.password)))
    then (400, s)
    else elim c.encrypted [
      | none ↦ (500, s)
      | some enc ↦
          then_content i c
            (create_volume (trim_space i.name) i.host i.share i.username enc c.write_fault s.tables)
            s
    ]

abbrev pub same_server : VolumeInput → Volume → Bool
same_server i v =
    text_eq i.host v.host && (text_eq i.share v.share && text_eq i.username v.username)

-- The new password of an update: none keeps the old one; a failed encryption is an error.
abbrev pub new_password : VolumeInput → Calls → Option (Option Text)
new_password i c =
    if is_nil i.password
    then some none
    else elim c.encrypted [ none ↦ none | some enc ↦ some (some enc) ]

abbrev pub restart : ℕ → Result Volume × Tables → Server → Response
restart id (err e, t) s = (500, record s { tables = t })
restart id (ok v, t) s =
    let stopped = stop_volume id (record s { tables = t }) in
    (200, if v.enabled then start_volume_async v stopped else stopped)

abbrev pub written : ℕ → VolumeInput → Calls → Result Volume × Tables → Server → Response
written id i c (err e, t) s = (write_error e, record s { tables = t })
written id i c (ok v, t) s = elim i.content_index [
  | none ↦ restart id (ok v, t) s
  | some on ↦ restart id (set_volume_content_index id on c.content_fault t) s
]

abbrev pub update_of : VolumeInput → Volume → Option Text → VolumeUpdate
update_of i v enc = record {
  name = trim_space i.name;
  host = i.host;
  share = i.share;
  username = i.username;
  password_enc = enc;
  enabled = wanted i.enabled v.enabled;
}

unfoldable pub update_existing : ℕ → VolumeInput → Calls → Volume → Server → Response
unfolding trim_space update_volume set_volume_content_index stop_volume
update_existing id i c v s =
    if is_nil (trim_space i.name) || (is_nil i.host || (is_nil i.share || is_nil i.username))
    then (400, s)
    else if is_nil i.password && not (same_server i v)
    then (400, s)
    else elim (new_password i c) [
      | none ↦ (500, s)
      | some enc ↦ written id i c (update_volume id (update_of i v enc) c.write_fault s.tables) s
    ]

abbrev pub update_found : ℕ → VolumeInput → Calls → Result (Option Volume) → Server → Response
update_found id i c (err e) s = (500, s)
update_found id i c (ok none) s = (404, s)
update_found id i c (ok (some v)) s = update_existing id i c v s

unfoldable pub handle_update_volume : ℕ → VolumeInput → Calls → Server → Response
unfolding get_volume update_existing
handle_update_volume id i c s = update_found id i c (get_volume id c.get_fault s.tables) s

abbrev pub deleted : Option Error × Tables → Server → Response
deleted (some e, t) s = (500, record s { tables = t })
deleted (none, t) s = (204, record s { tables = t })

unfoldable pub handle_delete_volume : ℕ → Calls → Server → Response
unfolding stop_volume delete_volume
handle_delete_volume id c s = deleted (delete_volume id c.write_fault s.tables) (stop_volume id s)

-- registerVolumeRuntime: a runtime that the volume already has is replaced.
unfoldable pub register_volume_runtime : ℕ → VolumeSecret → Server → Server
unfolding filter
register_volume_runtime id secret s = record s {
  runtimes =
      record { volume = id; secret = secret } ∷ filter (λ r. not (r.volume == id)) s.runtimes;
}

-- What the outside answers while a volume starts: the read of its secret, the decryption, the
-- connection, and the record of a failure.
pub record Start : Type 0 where
  pub secret_fault : Bool
  pub decrypts : Bool
  pub connects : Bool
  pub record_fault : Bool

abbrev pub start_with : ℕ → Start → Result VolumeSecret → Server → Bool × Server
start_with id o (err e) s = (false, s)
start_with id o (ok secret) s =
    if not o.decrypts
    then (false, s)
    else if not o.connects
    then (false, s)
    else (true, register_volume_runtime id secret s)

-- StartVolume, which says whether the volume started.
unfoldable pub start_volume : ℕ → Start → Server → Bool × Server
unfolding get_volume_secret register_volume_runtime
start_volume id o s = start_with id o (get_volume_secret id o.secret_fault s.tables) s

abbrev pub recorded : ℕ → Text → Start → Bool × Server → Server
recorded id msg o (true, s) = s
recorded id msg o (false, s) = record s {
  tables = (set_volume_test_result id false msg o.record_fault s.tables).1;
}

-- The goroutine of startVolumeAsync; `msg` is the text of StartVolume's error.
unfoldable pub run_start : ℕ → Text → Start → Server → Server
unfolding start_volume set_volume_test_result
run_start id msg o s = recorded id msg o (start_volume id o s)
