-- ===== src/FileText/Answered.antt =====
-- When the text of a file is answered, and when it is said why there is none.
use findo.Prelude.{
  ◌≤◌, ◌≡◌, ◌≢◌, refl, ap, Bool, true, false, Option, none, some, List, [], ◌∷◌, ◌++◌, ◌⊎◌, inl,
  inr, arith, codes, Text, text_eq, length, Bool-cases,
}
use findo.Prelude.Int.{ℤ}
use findo.Strings.{trim, join}
use findo.Smb.{valid_path}
use findo.Index.{Db, Status, done, failed, skipped}
use findo.Index.Content.{ContentInfo}
use findo.Index.Files.{is_slash}
use findo.Search.{parse_volume_id_param}
use findo.FileText.{
  TextResponse, refused, no_text, as_json, as_plain, served, text_of_info, content_of, text_at,
  handle_file_text,
}

abbrev is_done : Status → Bool
is_done done = true
is_done failed = false
is_done skipped = false

failed_not_done : failed ≢ done
failed_not_done e = let no : false ≡ true = ap is_done e in cc

skipped_not_done : skipped ≢ done
skipped_not_done e = let no : false ≡ true = ap is_done e in cc

-- What extraction left of a file, as the answer has to show it.
abbrev HasText : Option ContentInfo → List Text → Type 0
HasText o chunks =
    (info : ContentInfo) × (o ≡ some info)
    × (info.status ≡ done)
    × (info.chunks ≡ chunks)
    × (1 ≤ length chunks)

abbrev pub IsExplained : Option ContentInfo → TextResponse → Type 0
IsExplained o (refused status) = (status ≡ 400) ⊎ (status ≡ 500)
IsExplained o (as_json chunks) = HasText o chunks
IsExplained o (as_plain t) =
    (chunks : List Text) × (t ≡ join (10 ∷ 10 ∷ []) chunks ++ 10 ∷ []) × HasText o chunks
IsExplained o (no_text why) =
    (o ≡ none)
    ⊎ ((info : ContentInfo) × (o ≡ some info) × ((info.status ≢ done) ⊎ (info.chunks ≡ [])))

served-IsExplained :
    (format : Text) (o : Option ContentInfo) (chunks : List Text)
    → HasText o chunks
    → IsExplained o (served format chunks)
served-IsExplained format o chunks h = elim (Bool-cases (text_eq format (codes "json"))) [
  | inl json ↦ rw json h
  | inr plain ↦ rw plain (chunks, refl, h)
]

info-IsExplained :
    (format : Text) (status : Status) (reason : Text) (chunks : List Text)
    → let o : Option ContentInfo =
        some (record { status = status; reason = reason; chunks = chunks }) in
      IsExplained o (text_of_info format o)
info-IsExplained format done reason [] = inr (_, refl, inr refl)
info-IsExplained format done reason (c ∷ cs) =
    served-IsExplained format _ (c ∷ cs) (_, refl, refl, refl, omega arith)
info-IsExplained format failed reason chunks = inr (_, refl, inl failed_not_done)
info-IsExplained format skipped reason chunks = inr (_, refl, inl skipped_not_done)

text_of_info-IsExplained :
    (format : Text) (o : Option ContentInfo) → IsExplained o (text_of_info format o)
text_of_info-IsExplained format none = inl refl
text_of_info-IsExplained format (some info) =
    info-IsExplained format info.status info.reason info.chunks

-- What the index has for a request's volume and path.
abbrev pub info_of : Option ℤ → Text → Db → Option ContentInfo
info_of none p db = none
info_of (some v) p db = content_of v p db

text_at-IsExplained :
    (p format : Text) (is_fault : Bool) (db : Db) (v : Option ℤ)
    → IsExplained (info_of v p db) (text_at p format is_fault db v)
text_at-IsExplained p format is_fault db none = inl refl
text_at-IsExplained [] format is_fault db (some v) = inl refl
text_at-IsExplained (c ∷ p) format is_fault db (some v) = elim (Bool-cases (valid_path (c ∷ p))) [
  | inr bad ↦ rw bad (inl refl)
  | inl good ↦ rw good (elim (Bool-cases is_fault) [
    | inl broken ↦ rw broken (inr refl)
    | inr fine ↦ rw fine (text_of_info-IsExplained format (content_of v (c ∷ p) db))
  ])
]

-- A request for a file's text is refused with 400 or 500; or answered with the chunks that are stored
-- for its path, one by one or joined by blank lines, of which there is one at least and whose status
-- is done; or it is said why there is no text, which is so only if no outcome is recorded for the
-- path, or its status is not done, or it has no chunks.
pub handle_file_text-IsExplained :
    (volume path format : Text) (is_fault : Bool) (db : Db)
    → IsExplained
        (info_of (parse_volume_id_param volume) (trim is_slash path) db)
        (handle_file_text volume path format is_fault db)
unfolding handle_file_text
handle_file_text-IsExplained volume path format is_fault db =
    text_at-IsExplained (trim is_slash path) format is_fault db (parse_volume_id_param volume)
