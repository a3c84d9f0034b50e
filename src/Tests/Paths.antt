-- ===== src/Tests/Paths.antt =====
-- Paths at concrete inputs.
use findo.Prelude.{true, [], ◌∷◌, ◌≡◌, refl, false, codes}
use findo.Prelude.Int.{pos}
use findo.Index.{FileRow, Db, ok}
use findo.Index.Queries.{list_files}
use findo.Index.Paths.{split_path, normalize_dir}
use findo.Index.Paths.Hidden.{split_path_hidden}
use findo.Strings.{has_prefix}
use findo.Smb.{open_path, valid_path, to_smb_path}
use findo.Smb.Paths.{IsConfined, open_path-IsConfined}

-- The row of .git/config, as it is written.
abbrev config_row : FileRow
config_row = record {
  file = record {
    volume = 1;
    path = codes ".git/config";
    name = codes "config";
    dir = codes "git";
    ext = [];
    is_dir = false;
    size = 9;
    mod_time = pos 0;
  };
  last_seen_run = 1;
}

abbrev db : Db
db = record { files = config_row ∷ []; states = []; chunks = []; runs = []; next_run = 2 }

split_path_hidden_example : list_files (pos 1) (codes "/.git/") true false db ≡ ok []
unfolding normalize_dir has_prefix split_path
split_path_hidden_example = split_path_hidden (pos 1) (codes "/.git/") true db (refl, tt) refl

open_path-IsConfined_example : IsConfined (codes "docs\\a..b")
unfolding open_path valid_path to_smb_path
open_path-IsConfined_example = open_path-IsConfined (codes "/docs/a..b/") (codes "docs\\a..b") refl
