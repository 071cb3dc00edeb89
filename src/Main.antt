-- ===== src/Main.antt =====
-- main/main.c: which way a report of the keyboard goes, and the button. The interrupt, the timer of
-- ESP-IDF and the button's task are steps of their own; a notification is the bits that are set.
pub mod Presses
pub mod Start
mod Tests
use bluepass.Common.{
  ℕ, ◌+◌, ◌-◌, ◌*◌, Bool, true, false, not, ◌||◌, Option, none, some, List, [], ◌∷◌, ltb, leb, ◌==◌,
  if◌then◌else◌, get_or,
}
use bluepass.Storage.{Nvs}
use bluepass.HidReport.{HidReport}
use bluepass.UserPresence.{Up, fido2_intercept_key, fido2_confirm_up}
use bluepass.Hotkey.{World, Act, Moment, hotkey_engine_process}

-- `on_ble_report` and `on_usb_report`: the key that confirms a FIDO2 request goes no further.
-- `fido2` is the flash of its settings.
module _ {S : Type 0} (nvs : Nvs S) (hmac_sha1 : List ℕ → List ℕ → Option (List ℕ)) where
  pub on_report : S → Moment → HidReport → Up × World S → (Up × World S) × List Act
  on_report fido2 t r (up, w) =
      let (hit, up') =
        fido2_intercept_key nvs fido2 r.keyboard.modifier (get_or r.keyboard.keycode 0 0) up in
      let (w', acts) = hotkey_engine_process nvs hmac_sha1 t r w in
      if hit then ((up', w), []) else ((up', w'), acts)

abbrev pub long_press_us : ℕ
long_press_us = 10 * 1000 * 1000

-- `s_btn_press_us`, when the timer is due if it runs, and the bits that wait for the task.
pub record Button : Type 0 where
  pub press_us : ℕ
  pub due : Option ℕ
  pub evt_short : Bool
  pub evt_long : Bool

-- A timer that runs is not started again.
pub btn_isr : ℕ → ℕ → Button → Button
btn_isr level now b =
    let armed : Option ℕ = elim b.due [ none ↦ some (now + long_press_us) | some t ↦ some t ] in
    let stopped = record b { due = none } in
    if level == 0
    then record b { press_us = now; due = armed }
    else if ltb (now - b.press_us) long_press_us
    then record stopped { evt_short = true }
    else stopped

pub btn_long_press_cb : Button → Button
btn_long_press_cb b = record b { evt_long = true }

-- The timer calls back once, when it is due.
pub elapse : ℕ → Button → Button
elapse now b = elim b.due [
  | none ↦ b
  | some t ↦ if leb t now then btn_long_press_cb (record b { due = none }) else b
]

-- What the task calls.
pub data ButtonAct : Type 0 where
  clear_wifi_creds : ButtonAct
  start_ap : ButtonAct
  start_web_ui : ButtonAct
  stop_web_ui_async : ButtonAct

-- One round of `btn_task`, which takes all bits at once; `web_ui` is whether the web interface runs.
pub btn_task : Bool → Button × Up → (Button × Up) × List ButtonAct
btn_task web_ui (b, up) =
    let taken = record b { evt_short = false; evt_long = false } in
    if b.evt_long
    then ((taken, up), clear_wifi_creds ∷ start_ap ∷ start_web_ui ∷ [])
    else if not b.evt_short
    then ((taken, up), [])
    else if up.up_pending
    then ((taken, fido2_confirm_up up), [])
    else if web_ui
    then ((taken, up), stop_web_ui_async ∷ [])
    else ((taken, up), start_web_ui ∷ [])
