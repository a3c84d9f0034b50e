-- ===== src/Smb.antt =====
-- backend/internal/smbclient/smbclient.go: entries, and the paths that reach the SMB server.
pub mod Paths
pub mod Walk
pub mod Session
use findo.Prelude.{
  ℕ, Bool, true, false, not, ◌&&◌, ◌||◌, Option, none, some, List, [], ◌∷◌, ◌==◌, if◌then◌else◌,
  Text, text_eq, codes, any, all,
}
use findo.Prelude.Int.{ℤ}
use findo.Strings.{trim, fields, replace}

-- Entry
pub record Entry : Type 0 where
  pub path : Text
  pub name : Text
  pub is_dir : Bool
  pub size : ℕ
  pub mod_time : ℤ

abbrev pub is_separator : ℕ → Bool
is_separator c = c == b'/' || c == b'\\'

abbrev pub slash_only : ℕ → Bool
slash_only c = c == b'/'

unfoldable pub valid_path : Text → Bool
unfolding any all fields text_eq
valid_path p =
    not (any (λ c. c == 0) p) && all (λ seg. not (text_eq seg (codes ".."))) (fields is_separator p)

abbrev or_root : Text → Text
or_root [] = codes "."
or_root (c ∷ s) = replace b'/' b'\\' (c ∷ s)

unfoldable pub to_smb_path : Text → Text
unfolding trim replace
to_smb_path p = or_root (trim slash_only p)

unfoldable pub to_slash_path : Text → Text
unfolding replace
to_slash_path p = replace b'\\' b'/' p

-- The path that `Open` hands to the server, or none if it refuses.
unfoldable pub open_path : Text → Option Text
open_path p = if valid_path p then some (to_smb_path p) else none
