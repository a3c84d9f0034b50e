-- ===== src/Index/Settings.antt =====
-- backend/internal/index/settings.go: the limits of content indexing.
pub mod Saved
use findo.Prelude.{ℕ, ◌*◌, Bool, false, ◌||◌, Option, none, some, ltb, if◌then◌else◌}
use findo.Index.{Error, invalid_settings}

-- The limits are not negative: no setting that is saved is.
pub record ContentSettings : Type 0 where
  pub paused : Bool
  pub max_file_bytes : ℕ
  pub max_text_bytes : ℕ
  pub workers : ℕ
  pub delay_ms : ℕ

abbrev pub default_content_settings : ContentSettings
default_content_settings = record {
  paused = false;
  max_file_bytes = 100 * 1048576;
  max_text_bytes = 1048576;
  workers = 1;
  delay_ms = 0;
}

unfoldable pub validate : ContentSettings → Option Error
validate c =
    if ltb c.max_file_bytes 1048576 || ltb (10 * 1073741824) c.max_file_bytes
    then some invalid_settings
    else if ltb c.max_text_bytes 1024 || ltb (32 * 1048576) c.max_text_bytes
    then some invalid_settings
    else if ltb c.workers 1 || ltb 4 c.workers
    then some invalid_settings
    else if ltb 60000 c.delay_ms
    then some invalid_settings
    else none
