-- ===== src/Index.antt =====
-- backend/internal/index: the tables of the migrations, and what a statement may answer.
-- A statement is a function on the tables. What the database itself may refuse for reasons outside
-- the tables (a lost connection, a full disk) is an argument of each operation, `fault`.
pub mod Files
pub mod Paths
pub mod Content
pub mod Settings
pub mod Progress
pub mod Queries
pub mod Migrate
pub mod ContentSearch
use findo.Prelude.{
  ℕ, ◌+◌, ◌≡◌, Bool, true, false, not, ◌&&◌, Option, none, some, List, [], ◌∷◌, ◌==◌, if◌then◌else◌,
  Text, text_eq, filter, any,
}
use findo.Prelude.Int.{ℤ}

-- index.File
pub record File : Type 0 where
  pub volume : ℕ
  pub path : Text
  pub name : Text
  pub dir : Text
  pub ext : Text
  pub is_dir : Bool
  pub size : ℕ
  pub mod_time : ℤ

-- a row of `files`
pub record FileRow : Type 0 where
  pub file : File
  pub open file use *
  pub last_seen_run : ℕ

pub data Status : Type 0 where
  done skipped failed : Status

-- a row of `content_state`
pub record StateRow : Type 0 where
  pub volume : ℕ
  pub path : Text
  pub size : ℕ
  pub mod_time : ℤ
  pub status : Status
  pub reason : Text
  pub chunk_count : ℕ

-- a row of `chunks`
pub record ChunkRow : Type 0 where
  pub volume : ℕ
  pub path : Text
  pub seq : ℕ
  pub body : Text

pub data Trigger : Type 0 where
  manual startup periodic resync : Trigger

pub data Error : Type 0 where
  fault walk_failed not_connected file_gone twice not_found name_taken bad_status invalid_settings :
      Error

-- CrawlRunResult
pub record CrawlRunResult : Type 0 where
  pub error : Option Error
  pub files_seen : ℕ
  pub files_removed : ℕ
  pub bytes_indexed : ℕ

-- a row of `crawl_runs`
pub record RunRow : Type 0 where
  pub id : ℕ
  pub volume : ℕ
  pub trigger : Trigger
  pub result : Option CrawlRunResult

pub record Db : Type 0 where
  pub files : List FileRow
  pub states : List StateRow
  pub chunks : List ChunkRow
  pub runs : List RunRow
  pub next_run : ℕ

pub data Result {ℓ} (A : Type ℓ) : Type ℓ where
  ok : A → Result A
  err : Error → Result A

-- volume_id = v AND path = p
abbrev pub same_key : ℕ → Text → ℕ → Text → Bool
same_key v p w q = (v == w) && text_eq p q

abbrev pub file_at : ℕ → Text → FileRow → Bool
file_at v p r = same_key r.volume r.path v p

abbrev pub state_at : ℕ → Text → StateRow → Bool
state_at v p r = same_key r.volume r.path v p

abbrev pub chunk_at : ℕ → Text → ChunkRow → Bool
chunk_at v p r = same_key r.volume r.path v p

-- DELETE FROM files WHERE `gone`, with the rows that refer to what it deletes (ON DELETE CASCADE).
unfoldable pub delete_files : (FileRow → Bool) → Db → Db
delete_files gone db = record db {
  files = filter (λ r. not (gone r)) db.files;
  states = filter (λ s. not (any (λ r. gone r && file_at s.volume s.path r) db.files)) db.states;
  chunks = filter (λ c. not (any (λ r. gone r && file_at c.volume c.path r) db.files)) db.chunks;
}
