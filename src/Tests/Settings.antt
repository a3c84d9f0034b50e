-- ===== src/Tests/Settings.antt =====
-- Requests on settings at concrete inputs.
use findo.Prelude.{◌≡◌, refl, true, false, List, [], ◌∷◌, codes}
use findo.Index.Settings.{ContentSettings, default_content_settings}
use findo.Index.Settings.Saved.{
  Setting, Loaded, Body, merged, put_saved, SettingsFaults, handle_put_settings,
}
use findo.Index.Settings.Saved.RoundTrip.{Kept, handle_put_settings-Kept}

abbrev rows : List Setting
rows =
    record { key = codes "content.workers"; value = codes "3" }
    ∷ record { key = codes "theme"; value = codes "dark" }
    ∷ []

abbrev paused : ContentSettings
paused = record default_content_settings { paused = true }

abbrev decode : Loaded → Body
decode l = merged paused

abbrev faults : SettingsFaults
faults = record { load_fault = false; save_fault = false }

saves : (handle_put_settings decode faults rows).0 ≡ put_saved paused
unfolding handle_put_settings
saves = refl

handle_put_settings-Kept_example : Kept rows (handle_put_settings decode faults rows)
handle_put_settings-Kept_example = handle_put_settings-Kept decode faults rows
