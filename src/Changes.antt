-- ===== src/Changes.antt =====
-- backend/internal/smbclient/watch.go: change notifications as events, and the watch loop's waits.
pub mod Complete
pub mod Backoff
use findo.Prelude.{
  ℕ, zero, suc, ◌*◌, ◌<◌, Bool, true, false, List, [], ◌∷◌, ◌++◌, ltb, if◌then◌else◌, Text,
}
use findo.Smb.{to_slash_path}

-- The actions of an SMB2 CHANGE_NOTIFY entry; `other` is any that the program does not name.
pub data Action : Type 0 where
  added modified removed renamed_old_name renamed_new_name other : Action

pub record Info : Type 0 where
  pub action : Action
  pub file_name : Text

pub data ChangeEvent : Type 0 where
  upserted : Text → ChangeEvent
  removed : Text → ChangeEvent
  -- the old path, then the new one
  renamed : Text → Text → ChangeEvent

-- An entry that is not the first half of a rename pair.
unfoldable pub alone : Action → Text → List ChangeEvent
alone added name = upserted (to_slash_path name) ∷ []
alone modified name = upserted (to_slash_path name) ∷ []
alone Action.removed name = ChangeEvent.removed (to_slash_path name) ∷ []
alone renamed_old_name name = ChangeEvent.removed (to_slash_path name) ∷ []
alone renamed_new_name name = upserted (to_slash_path name) ∷ []
alone other name = []

unfoldable pub pairs : Action → Action → Bool
pairs renamed_old_name renamed_new_name = true
pairs _ _ = false

-- `i++` skips the new name of a pair.
unfoldable pub translate_changes : List Info → List ChangeEvent
unfolding alone pairs
translate_changes [] = []
translate_changes (i ∷ []) = alone i.action i.file_name
translate_changes (i ∷ j ∷ rest) = elim (pairs i.action j.action) [
  | true ↦ renamed (to_slash_path i.file_name) (to_slash_path j.file_name) ∷ translate_changes rest
  | false ↦ alone i.action i.file_name ++ translate_changes (j ∷ rest)
]

-- In milliseconds.
abbrev pub base_backoff : ℕ
base_backoff = 1000

abbrev pub max_backoff : ℕ
max_backoff = 60 * 1000

unfoldable pub next_backoff : ℕ → ℕ
next_backoff backoff =
    let doubled = backoff * 2 in if ltb max_backoff doubled then max_backoff else doubled

-- What ends a round of `watchLoop`: the session failed, or the watch was cancelled at one of the
-- three places that look.
pub data Round : Type 0 where
  session_lost : Round
  cancelled_in_session cancelled_on_signal cancelled_in_wait : Round

-- What a round does that others see: it asks for a resync, or waits.
pub data Act : Type 0 where
  needs_resync : Act
  wait : ℕ → Act

unfoldable pub watch_loop : ℕ → List Round → List Act
unfolding next_backoff
watch_loop backoff [] = []
watch_loop backoff (session_lost ∷ rounds) =
    needs_resync ∷ wait backoff ∷ watch_loop (next_backoff backoff) rounds
watch_loop backoff (cancelled_in_session ∷ rounds) = []
watch_loop backoff (cancelled_on_signal ∷ rounds) = []
watch_loop backoff (cancelled_in_wait ∷ rounds) = needs_resync ∷ []
