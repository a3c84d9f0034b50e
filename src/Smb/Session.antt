-- ===== src/Smb/Session.antt =====
-- backend/internal/smbclient/smbclient.go: the session of a client, and its replacement.
-- Sessions are numbered in the order in which they were dialled.
pub mod Once
use findo.Prelude.{
  ℕ, suc, Bool, true, false, not, Option, none, some, List, [], ◌∷◌, ◌==◌, if◌then◌else◌,
}

pub record Client : Type 0 where
  -- the number of the mounted session
  pub fs : Option ℕ
  pub dials : ℕ

abbrev dialled : Bool → Client → Client
dialled true c = record { fs = some (suc c.dials); dials = suc c.dials }
dialled false c = record c { dials = suc c.dials }

-- `answers` says whether the dial succeeds; the result, whether Connect does.
unfoldable pub connect : Bool → Client → Bool × Client
connect answers c = (answers, dialled answers c)

unfoldable pub close : Client → Client
close c = record c { fs = none }

abbrev replaced : Bool → Client → Option ℕ × Client
replaced true c = (some (suc c.dials), dialled true c)
replaced false c = (none, dialled false c)

-- The session to use instead of a dead one: one that a caller has dialled since, or a new one.
unfoldable pub reconnect : ℕ → Bool → Client → Option ℕ × Client
reconnect dead answers c = elim c.fs [
  | none ↦ (none, c)
  | some fs ↦ if not (fs == dead) then (some fs, c) else replaced answers c
]

pub data Outcome : Type 0 where
  succeeded transport_error other_error : Outcome
  not_connected reconnect_failed : Outcome

abbrev retried : (ℕ → Outcome) → Option ℕ × Client → Outcome × Client
retried op (none, c) = (reconnect_failed, c)
retried op (some fs, c) = (op fs, c)

abbrev unless_dead : (ℕ → Outcome) → ℕ → Bool → Client → Outcome → Outcome × Client
unless_dead op fs answers c transport_error = retried op (reconnect fs answers c)
unless_dead op fs answers c outcome = (outcome, c)

-- `op` is what the operation answers in each session.
unfoldable pub do_op : (ℕ → Outcome) → Bool → Client → Outcome × Client
unfolding reconnect
do_op op answers c = elim c.fs [
  | none ↦ (not_connected, c)
  | some fs ↦ unless_dead op fs answers c (op fs)
]
