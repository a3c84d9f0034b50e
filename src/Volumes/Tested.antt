-- ===== src/Volumes/Tested.antt =====
-- backend/internal/httpapi/volumes.go: the requests that test a connection. A request's answer stands
-- beside the secret that a session was opened with, none where no session was.
use findo.Prelude.{
  ℕ, Bool, not, ◌&&◌, ◌||◌, Option, none, some, [], if◌then◌else◌, Text, inl, inr, Bool-cases,
}
use findo.Index.{Result, ok, err}
use findo.Volumes.{VolumeSecret, get_volume_secret, set_volume_test_result}
use findo.Volumes.Server.{VolumeInput, Server, is_nil}
use findo.Volumes.Secrets.{Bound, find-Stored, tested-Kept}
use findo.Volumes.Bound.{secret-cases}

-- What the outside answers: the read of the secret, the decryption, the connection, the ping and the
-- record of the result, and the text of an error.
pub record TestCalls : Type 0 where
  pub secret_fault : Bool
  pub decrypts : Bool
  pub connects : Bool
  pub pings : Bool
  pub record_fault : Bool
  pub message : Text

pub data TestReply : Type 0 where
  test_ok test_failed bad_test_request no_such_volume cannot_decrypt : TestReply

-- testConnection returns no error.
abbrev pub test_connection : TestCalls → Bool
test_connection o = o.connects && o.pings

abbrev pub err_msg : Bool → Text → Text
err_msg is_ok message = if is_ok then [] else message

abbrev pub test_result : Bool → TestReply
test_result is_ok = if is_ok then test_ok else test_failed

abbrev pub Tested : Type 0
Tested = TestReply × Option VolumeSecret × Server

abbrev pub test_with : ℕ → TestCalls → Result VolumeSecret → Server → Tested
unfolding set_volume_test_result
test_with id o (err e) s = (no_such_volume, none, s)
test_with id o (ok secret) s = if not o.decrypts then (cannot_decrypt, none, s) else (
  test_result (test_connection o),
  some secret,
  record s {
    tables =
        (set_volume_test_result id (test_connection o) (err_msg (test_connection o) o.message)
          o.record_fault s.tables).1;
  },
)

-- The id is none where the path has no number.
unfoldable pub handle_test_volume : Option ℕ → TestCalls → Server → Tested
unfolding get_volume_secret test_with
handle_test_volume none o s = (bad_test_request, none, s)
handle_test_volume (some id) o s = test_with id o (get_volume_secret id o.secret_fault s.tables) s

-- The body is none where it does not decode.
unfoldable pub handle_test_input : Option VolumeInput → TestCalls → TestReply
handle_test_input none o = bad_test_request
handle_test_input (some i) o =
    if is_nil i.host || (is_nil i.share || (is_nil i.username || is_nil i.password))
    then bad_test_request
    else test_result (test_connection o)

module _ (P : VolumeSecret → Type 0) where
  abbrev Dialled : Option VolumeSecret → Type 0
  Dialled none = Unit
  Dialled (some secret) = P secret

  -- Where every row and every session has a property of a host, a share, a user and an encrypted password
  -- together, a test of a volume opens a session only with such a secret, and leaves them so.
  handle_test_volume-Bound :
      (id : Option ℕ) (o : TestCalls) (s : Server)
      → Bound P s
      → Dialled (handle_test_volume id o s).1 × Bound P (handle_test_volume id o s).2
  unfolding handle_test_volume test_with
  handle_test_volume-Bound none o s b = (tt, b)
  handle_test_volume-Bound (some id) o s (h, k) = elim (secret-cases id o.secret_fault s.tables) [
    | inl (e, x) ↦ rw x (tt, (h, k))
    | inr (v, e, x) ↦ rw x elim (Bool-cases o.decrypts) [
      | inr no_key ↦ rw no_key (tt, (h, k))
      | inl key ↦ rw key (
        find-Stored P id s.tables.volumes v h e,
        (
          tested-Kept P id (test_connection o) (err_msg (test_connection o) o.message)
              o.record_fault s.tables h,
          k,
        ),
      )
    ]
  ]
