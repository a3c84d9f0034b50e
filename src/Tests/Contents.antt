-- ===== src/Tests/Contents.antt =====
-- File types and served contents at concrete inputs.
use findo.Prelude.{◌≡◌, refl, Bool, true, false, Option, none, some, [], ◌∷◌, Text, codes}
use findo.Strings.{fields}
use findo.Filetype.{Types}
use findo.Filetype.Lookup.{init, exts_with_extractor}
use findo.Filetype.{ext_docx}
use findo.Contents.{Shares, handle_content, set_content_headers, inline, attachment}
use findo.Strings.{trim}
use findo.Prelude.Int.{pos}
use findo.Index.{Db, done}
use findo.Index.Files.{is_slash}
use findo.Search.{parse_volume_id_param}
use findo.FileText.{handle_file_text, as_json}
use findo.FileText.Answered.{IsExplained, info_of, handle_file_text-IsExplained}
use findo.Contents.Safe.{IsServed, handle_content-IsServed}

abbrev same : Text → Text
same s = s

abbrev is_some : Option Types → Bool
is_some none = false
is_some (some ts) = true

-- init does not panic
init_starts : is_some init ≡ true
unfolding init fields
init_starts = refl

word_files : exts_with_extractor (ext_docx ∷ []) ≡ codes "docm" ∷ codes "docx" ∷ codes "dotx" ∷ []
unfolding exts_with_extractor fields
word_files = refl

shown_and_not :
    ((set_content_headers same (codes "a/b.pdf") false).disposition ≡ inline)
    × ((set_content_headers same (codes "page.html") false).disposition ≡ attachment)
unfolding set_content_headers fields
shown_and_not = (refl, refl)

abbrev shares : Shares
shares = record { is_connected = λ v. true; open_file = λ v p. some p }

handle_content-IsServed_example :
    IsServed (handle_content same (codes "1") (codes "a/logo.svg") [] shares)
handle_content-IsServed_example =
    handle_content-IsServed same (codes "1") (codes "a/logo.svg") [] shares

-- One file with two chunks.
abbrev texts : Db
texts = record {
  files = [];
  states =
      record {
        volume = 1;
        path = codes "a/b.txt";
        size = 3;
        mod_time = pos 1;
        status = done;
        reason = [];
        chunk_count = 2;
      }
      ∷ [];
  chunks =
      record { volume = 1; path = codes "a/b.txt"; seq = 1; body = codes "two" }
      ∷ record { volume = 1; path = codes "a/b.txt"; seq = 0; body = codes "one" }
      ∷ [];
  runs = [];
  next_run = 1;
}

text_of_two :
    handle_file_text (codes "1") (codes "/a/b.txt") (codes "json") false texts
    ≡ as_json (codes "one" ∷ codes "two" ∷ [])
unfolding handle_file_text
text_of_two = refl

handle_file_text-IsExplained_example :
    IsExplained
      (info_of (parse_volume_id_param (codes "1")) (trim is_slash (codes "/a/b.txt")) texts)
      (handle_file_text (codes "1") (codes "/a/b.txt") (codes "json") false texts)
handle_file_text-IsExplained_example =
    handle_file_text-IsExplained (codes "1") (codes "/a/b.txt") (codes "json") false texts
