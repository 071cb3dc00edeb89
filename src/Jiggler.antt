-- ===== src/Jiggler.antt =====
-- components/jiggler/jiggler.c. The timer of ESP-IDF is the period it runs with, if it runs; what
-- `esp_timer_create` and `esp_timer_start_periodic` answer is an argument.
mod Sync
mod Tests
use bluepass.Common.{
  ℕ, ◌*◌, Bool, true, false, Option, none, some, List, [], ◌∷◌, ◌==◌, if◌then◌else◌,
}

-- `s_jig`, whether a callback is registered, and what it was told last.
pub record Jig : Type 0 where
  pub timer : Option ℕ
  pub keycode : ℕ
  pub modifiers : ℕ
  pub interval_ms : ℕ
  pub enabled : Bool
  pub has_state_cb : Bool
  pub told : Bool

-- `if (s_state_cb) s_state_cb(enabled)`
abbrev pub tell : Bool → Jig → Jig
tell enabled j = if j.has_state_cb then record j { told = enabled } else j

-- HID_KEY_F15 of TinyUSB is an argument.
pub jiggler_init : ℕ → ℕ → Jig → ℕ × Jig
jiggler_init hid_key_f15 create_err j = (
  create_err,
  record j { keycode = hid_key_f15; modifiers = 0; interval_ms = 60000; enabled = false },
)

pub jiggler_enable : ℕ → Jig → ℕ × Jig
jiggler_enable start_err j =
    if j.enabled
    then (0, j)
    else if start_err == 0
    then (0, tell true (record j { timer = some (j.interval_ms * 1000); enabled = true }))
    else (start_err, j)

pub jiggler_disable : Jig → ℕ × Jig
jiggler_disable j =
    if j.enabled then (0, tell false (record j { timer = none; enabled = false })) else (0, j)

pub jiggler_configure : ℕ → ℕ → ℕ → ℕ → Jig → ℕ × Jig
jiggler_configure start_err keycode modifiers interval_ms j =
    let stopped = if j.enabled then (jiggler_disable j).1 else j in
    let set = record stopped {
      keycode = keycode;
      modifiers = modifiers;
      interval_ms = interval_ms;
    } in
    (0, if j.enabled then (jiggler_enable start_err set).1 else set)

pub jiggler_toggle : ℕ → Jig → ℕ × Jig
jiggler_toggle start_err j = if j.enabled then jiggler_disable j else jiggler_enable start_err j

-- The reports of one firing of the timer: modifiers, the reserved byte and six keys, then the
-- release.
pub jiggler_timer_cb : Jig → List (List ℕ)
jiggler_timer_cb j =
    (j.modifiers ∷ 0 ∷ j.keycode ∷ 0 ∷ 0 ∷ 0 ∷ 0 ∷ 0 ∷ [])
    ∷ (0 ∷ 0 ∷ 0 ∷ 0 ∷ 0 ∷ 0 ∷ 0 ∷ 0 ∷ [])
    ∷ []

-- The callback is not told the state when it is registered.
pub jiggler_set_state_cb : Bool → Jig → Jig
jiggler_set_state_cb registered j = record j { has_state_cb = registered }

pub jiggler_is_enabled : Jig → Bool
jiggler_is_enabled j = j.enabled
