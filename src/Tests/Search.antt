-- ===== src/Tests/Search.antt =====
-- Searches at concrete inputs.
use findo.Prelude.{
  ℕ, ◌+◌, ◌≤◌, ◌≡◌, refl, ap, Bool, true, false, ◌&&◌, Option, none, some, List, [], ◌∷◌, ◌++◌,
  arith, leb, ◌==◌, if◌then◌else◌, Text, codes, map, count, length, All, inl, inr, Bool-cases,
}
use findo.Prelude.Int.{pos}
use findo.Index.{File, Db, ok}
use findo.Index.Queries.{TimeRange, like_escape, is_special, clamp_limit, search}
use findo.Index.Queries.Like.{IsFolding}
use findo.Index.Queries.Found.{Among, wanted, search_exact}
use findo.Search.{SearchRequest, Words, SearchFaults, handle_search, or_zero}
use findo.Search.Answered.{IsAnswer, handle_search_answers}
use findo.Strings.Numbers.{atoi}
use findo.Tests.Files.{db}

-- Case folding of ASCII letters.
abbrev fold : ℕ → ℕ
fold c = if leb 65 c && leb c 90 then c + 32 else c

abbrev lower : Text → Text
lower = map fold

fold-escape : (q : Text) → lower (like_escape q ++ b'%' ∷ []) ≡ like_escape (lower q) ++ b'%' ∷ []
unfolding like_escape
fold-escape [] = refl
fold-escape (c ∷ q) = elim (Bool-cases (is_special c)) [
  | inl special ↦
      let same : fold c ≡ c = ground arith in
      rw (special, same, special) (ap (λ t. b'\\' ∷ c ∷ t) (fold-escape q))
  | inr plain ↦
      let also : is_special (fold c) ≡ false = ground arith in
      rw (plain, also) (ap (λ t. fold c ∷ t) (fold-escape q))
]

lower-IsFolding : IsFolding lower
lower-IsFolding = record { pattern_lower = λ q. ap (λ t. b'%' ∷ t) (fold-escape q) }

abbrev always : TimeRange
always = record { from = pos 0; to = pos 0 }

search_exact_example :
    (fs : List File) × (search lower (pos 0) (codes "O") (pos 5) true always false db ≡ ok fs)
    × All (λ f. Among db.files f × (wanted lower (pos 0) (codes "O") true always f ≡ true)) fs
    × (let n = clamp_limit 500 100 (pos 5) in
        let all = count (λ r. wanted lower (pos 0) (codes "O") true always r.file) db.files in
        length fs ≡ (if leb n all then n else all))
    × (length fs ≤ 500)
search_exact_example = search_exact lower lower-IsFolding (pos 0) (codes "O") true always (pos 5) db

abbrev words : Words
words = record {
  known_zone = λ z. false;
  parse_date = λ s. none;
  parse = λ q. record { name_query = q; range = always };
}

abbrev request : SearchRequest
request = record {
  q = codes "O";
  tz = [];
  modified_after = [];
  modified_before = [];
  volume = [];
  limit = codes "3";
  hidden = codes "1";
}

abbrev faults : SearchFaults
faults = record { names_fault = false; contents_fault = false }

-- A text matches where it begins with the second byte of the quoted query.
abbrev rank : Text → Text → Option ℕ
rank (a ∷ b ∷ tq) (c ∷ body) = if b == c then some 1 else none
rank _ _ = none

-- The file b of volume 2 has two chunks, and the second one matches.
abbrev texts : Db
texts = record db {
  chunks =
      record { volume = 2; path = codes "b"; seq = 0; body = codes "x" }
      ∷ record { volume = 2; path = codes "b"; seq = 1; body = codes "one" }
      ∷ [];
}

abbrev headline : Text → Text → Text
headline tq body = body

abbrev is_word : Text → Bool
is_word r = true

handle_search_answers_example :
    let limit = clamp_limit 500 100 (or_zero (atoi request.limit)) in
    (1 ≤ limit)
    × (limit ≤ 500)
    × IsAnswer is_word lower lower rank headline lower-IsFolding request texts
        (codes "O")
        limit
        (handle_search is_word lower lower rank headline words request faults texts)
handle_search_answers_example =
    handle_search_answers is_word lower lower rank headline lower-IsFolding words request faults
      texts
