-- ===== src/Tests/Volumes.antt =====
-- Requests that configure volumes at a concrete input.
use findo.Prelude.{arith, ◌⊎◌, ◌≡◌, refl, true, false, none, some, List, [], ◌∷◌, codes}
use findo.Prelude.Int.{pos}
use findo.Index.{Error, err}
use findo.Index.Content.{save_content, no_faults}
use findo.Volumes.{VolumeSecret, Tables, set_volume_content_index}
use findo.Volumes.Cleared.{IsCleared, IsSameText, content_off_clears}
use findo.Volumes.Server.{VolumeInput, Server, Calls}
use findo.Volumes.Secrets.{Request, create, update, start, serve_all, Bound}
use findo.Volumes.Bound.{serve_all-Bound}
use findo.Tests.Files.{db}

abbrev empty_server : Server
empty_server = record {
  tables = record { volumes = []; next_volume = 1; db = db; lower = λ s. s };
  runtimes = [];
  starting = [];
}

abbrev input : VolumeInput
input = record {
  name = codes "Home";
  host = codes "nas";
  share = codes "data";
  username = codes "me";
  password = codes "secret";
  enabled = none;
  content_index = none;
}

abbrev calls : Calls
calls = record {
  encrypted = some (codes "sealed");
  get_fault = false;
  write_fault = false;
  content_fault = false;
}

-- the second request names another host and leaves the password out
abbrev requests : List Request
requests =
    create input calls
    ∷ update 1 (record input { host = codes "evil"; password = [] }) calls
    ∷ start 1 (codes "x")
        (record { secret_fault = false; decrypts = true; connects = true; record_fault = false })
    ∷ []

abbrev ForNas : VolumeSecret → Type 0
ForNas s = s.host ≡ codes "nas"

serve_all-Bound_example : Bound ForNas (serve_all requests empty_server)
serve_all-Bound_example =
    serve_all-Bound ForNas requests empty_server ((refl, tt), (tt, (tt, tt))) (tt, tt)

-- a volume whose file `old` has a text
abbrev tables : Tables
tables = record {
  volumes =
      record {
        id = 1;
        name = codes "Home";
        host = codes "nas";
        share = codes "data";
        username = codes "me";
        password_enc = codes "sealed";
        enabled = true;
        content_index = true;
        last_test_ok = none;
        last_test_error = [];
      }
      ∷ [];
  next_volume = 2;
  db = (save_content 1 (codes "old") 5 (pos 0) (codes "words" ∷ []) no_faults db).1;
  lower = λ s. s;
}

content_off_clears_example :
    let (result, after) = set_volume_content_index 1 false false tables in
    ((e : Error) × (result ≡ err e) × (after ≡ tables))
    ⊎ (IsCleared 1 (codes "old") after.db × IsSameText 2 (codes "b") tables.db after.db)
content_off_clears_example =
    content_off_clears 1 2 (codes "old") (codes "b") false tables (ground arith)
