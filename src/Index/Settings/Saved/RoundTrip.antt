-- ===== src/Index/Settings/Saved/RoundTrip.antt =====
-- What was saved is what is loaded.
use findo.Prelude.{
  ℕ, ◌≤◌, ◌≡◌, refl, ◌∙◌, Bool, true, false, not, ◌||◌, none, some, List, [], ◌∷◌, ◌++◌, inl, inr,
  arith, any, filter, codes, Text, text_eq, Bool-cases, Option-cases,
}
use findo.Strings.{has_prefix}
use findo.Strings.Numbers.{max_int}
use findo.Strings.Decimal.{format_int, atoi-format_int}
use findo.Index.{Error}
use findo.Index.Settings.{ContentSettings, default_content_settings, validate}
use findo.Index.Settings.Saved.{
  Setting, Loaded, loaded, bad_value, negative_value, not_loaded, content_key, format_bool,
  is_one_of, load_key, parse_bool, load_rows, content_settings, setting_rows, setting_keys,
  set_content_settings, SettingsFaults, Body, too_large, malformed, below_zero, merged, Put,
  put_refused, put_saved, saved, put_body, put_over, handle_put_settings,
}

||-false : (a b : Bool) → (a || b) ≡ false → (a ≡ false) × (b ≡ false)
||-false false b h = (refl, h)
||-false true b h = cc

-- A row of another key is loaded without effect.
load_key-other :
    (key value : Text) (cs : ContentSettings)
    → is_one_of setting_keys key ≡ false
    → load_key key value cs ≡ loaded cs
unfolding load_key any
load_key-other key value cs h =
    let (a, h1) = ||-false (text_eq key (content_key "paused")) _ h in
    let (b, h2) = ||-false (text_eq key (content_key "max_file_bytes")) _ h1 in
    let (c, h3) = ||-false (text_eq key (content_key "max_text_bytes")) _ h2 in
    let (d, h4) = ||-false (text_eq key (content_key "workers")) _ h3 in
    let (e, _) = ||-false (text_eq key (content_key "delay_ms")) false h4 in rw (a, b, c, d, e) refl

load_rows-others :
    (rows ys : List Setting) (cs : ContentSettings)
    → load_rows (filter (λ (r : Setting). not (is_one_of setting_keys r.key)) rows ++ ys) cs
      ≡ load_rows ys cs
unfolding load_rows filter
load_rows-others [] ys cs = refl
load_rows-others (r ∷ rows) ys cs = elim (Bool-cases (is_one_of setting_keys r.key)) [
  | inl replaced ↦ rw replaced (load_rows-others rows ys cs)
  | inr other ↦ rw other (elim (Bool-cases (has_prefix r.key (codes "content."))) [
    | inl selected ↦
        rw (selected, load_key-other r.key r.value cs other) (load_rows-others rows ys cs)
    | inr passed ↦ rw passed (load_rows-others rows ys cs)
  ])
]

load_paused :
    (b : Bool) (cs : ContentSettings)
    → load_key (content_key "paused") (format_bool b) cs ≡ loaded (record cs { paused = b })
unfolding load_key text_eq parse_bool any
load_paused true cs = refl
load_paused false cs = refl

load_max_file_bytes :
    (n : ℕ) (cs : ContentSettings)
    → n ≤ max_int
    → load_key (content_key "max_file_bytes") (format_int n) cs
      ≡ loaded (record cs { max_file_bytes = n })
unfolding load_key text_eq
load_max_file_bytes n cs h = rw (atoi-format_int n h) refl

load_max_text_bytes :
    (n : ℕ) (cs : ContentSettings)
    → n ≤ max_int
    → load_key (content_key "max_text_bytes") (format_int n) cs
      ≡ loaded (record cs { max_text_bytes = n })
unfolding load_key text_eq
load_max_text_bytes n cs h = rw (atoi-format_int n h) refl

load_workers :
    (n : ℕ) (cs : ContentSettings)
    → n ≤ max_int
    → load_key (content_key "workers") (format_int n) cs ≡ loaded (record cs { workers = n })
unfolding load_key text_eq
load_workers n cs h = rw (atoi-format_int n h) refl

load_delay_ms :
    (n : ℕ) (cs : ContentSettings)
    → n ≤ max_int
    → load_key (content_key "delay_ms") (format_int n) cs ≡ loaded (record cs { delay_ms = n })
unfolding load_key text_eq
load_delay_ms n cs h = rw (atoi-format_int n h) refl

-- Settings that may be saved are small.
abbrev Small : ContentSettings → Type 0
Small cs =
    (cs.max_file_bytes ≤ max_int)
    × (cs.max_text_bytes ≤ max_int)
    × (cs.workers ≤ max_int)
    × (cs.delay_ms ≤ max_int)

validate-Small : (cs : ContentSettings) → validate cs ≡ none → Small cs
unfolding validate
validate-Small cs h = (ground arith, ground arith, ground arith, ground arith)

load_setting_rows : (cs c : ContentSettings) → Small cs → load_rows (setting_rows cs) c ≡ loaded cs
unfolding load_rows has_prefix
load_setting_rows cs c (f, t, w, d) =
    rw
      (
        load_paused cs.paused c,
        load_max_file_bytes cs.max_file_bytes _ f,
        load_max_text_bytes cs.max_text_bytes _ t,
        load_workers cs.workers _ w,
        load_delay_ms cs.delay_ms _ d,
      )
      refl

-- A refusal leaves the rows; what was saved is valid, and is what is loaded next.
abbrev pub Kept : List Setting → Put × List Setting → Type 0
Kept rows (put_refused status, after) = after ≡ rows
Kept rows (put_saved cs, after) = (validate cs ≡ none) × (content_settings false after ≡ loaded cs)

load_saved :
    (cs : ContentSettings) (rows : List Setting)
    → validate cs ≡ none
    → content_settings false
        (filter (λ (r : Setting). not (is_one_of setting_keys r.key)) rows ++ setting_rows cs)
      ≡ loaded cs
unfolding content_settings
load_saved cs rows h =
    load_rows-others rows (setting_rows cs) default_content_settings
    ∙ load_setting_rows cs default_content_settings (validate-Small cs h)

saved-refused :
    (cs : ContentSettings) (rows : List Setting) (e : Error) → Kept rows (saved cs (some e, rows))
saved-refused cs rows e = refl

set-Kept :
    (is_fault : Bool) (cs : ContentSettings) (rows : List Setting)
    → Kept rows (saved cs (set_content_settings is_fault cs rows))
unfolding set_content_settings
set-Kept is_fault cs rows = elim (Option-cases (validate cs)) [
  | inr (e, bad) ↦ rw bad (saved-refused cs rows e)
  | inl good ↦ rw good (elim (Bool-cases is_fault) [
    | inl broken ↦ rw broken refl
    | inr fine ↦ rw fine (good, load_saved cs rows good)
  ])
]

body-Kept :
    (faults : SettingsFaults) (rows : List Setting) (b : Body) → Kept rows (put_body faults rows b)
body-Kept faults rows too_large = refl
body-Kept faults rows malformed = refl
body-Kept faults rows below_zero = refl
body-Kept faults rows (merged cs) = set-Kept faults.save_fault cs rows

over-Kept :
    (decode : Loaded → Body) (faults : SettingsFaults) (rows : List Setting) (l : Loaded)
    → Kept rows (put_over decode faults rows l)
over-Kept decode faults rows (loaded cur) = body-Kept faults rows (decode (loaded cur))
over-Kept decode faults rows negative_value = body-Kept faults rows (decode negative_value)
over-Kept decode faults rows bad_value = refl
over-Kept decode faults rows not_loaded = refl

-- A request that changes the settings either is refused and changes no row, or is answered with
-- settings that are within the limits and that the table's rows give back when they are next loaded,
-- whatever other rows the table has.
pub handle_put_settings-Kept :
    (decode : Loaded → Body) (faults : SettingsFaults) (rows : List Setting)
    → Kept rows (handle_put_settings decode faults rows)
unfolding handle_put_settings
handle_put_settings-Kept decode faults rows =
    over-Kept decode faults rows (content_settings faults.load_fault rows)
