-- ===== src/Main/Start.antt =====
-- The start of main/main.c. What each call answers is an argument; ESP_ERROR_CHECK ends the program.
-- The settings of NVS, the button's task and pins, and the update's mark are not modelled.
pub mod Wiring
mod Tests
use bluepass.Common.{
  ℕ, suc, ◌+◌, ◌≡◌, ◌≤◌, ◌⊎◌, refl, ap, ◌∙◌, inl, inr, Bool, true, false, not, ◌&&◌, ◌||◌, Option,
  none, some, List, [], ◌∷◌, ◌++◌, leb, leb→le, ◌==◌, if◌then◌else◌, arith, if_split, if_either,
  Bool-cases,
}
use bluepass.Storage.{Nvs}
use bluepass.Storage.Settings.{storage_get_connection_mode, conn_mode_bt_usb, conn_mode_usb_bt}

-- CONN_MODE_BT_BT
abbrev pub conn_mode_bt_bt : ℕ
conn_mode_bt_bt = 1

-- The calls of `app_main`, from the choice of the output on; `ble_hid_host_init` is with the callback
-- for reports or without.
pub data StartCall : Type 0 where
  usb_output : StartCall
  ble_output : StartCall
  ble_device_init : StartCall
  ble_host_init : Bool → StartCall
  hotkey_init : StartCall
  jiggler_init : StartCall
  set_jiggler_cb : StartCall
  jiggler_configure : ℕ → ℕ → ℕ → StartCall
  jiggler_enable : StartCall
  webhook_init : StartCall
  mqtt_init : StartCall
  web_ui_init : StartCall
  wifi_init : StartCall
  start_ap : StartCall
  web_ui_start : StartCall
  fido2_init : StartCall
  usb_device_init : StartCall
  fido2_rx : StartCall
  fido2_tx : StartCall
  usb_host_init : StartCall

-- A call whose error ends the program, and one whose error is ignored.
pub data Step : Type 0 where
  checked : StartCall → Step
  plain : StartCall → Step

-- The key code, the modifiers, the interval and the switch of the jiggler, if the flash has them.
pub jiggler_steps : Option (ℕ × ℕ × ℕ × Bool) → List Step
jiggler_steps none = []
jiggler_steps (some (keycode, modifiers, interval_ms, enabled)) =
    plain (jiggler_configure keycode modifiers interval_ms)
    ∷ (if enabled then plain jiggler_enable ∷ [] else [])

pub app_main : ℕ → Option (ℕ × ℕ × ℕ × Bool) → Bool → List Step
app_main mode jig_cfg has_creds =
    (if mode == conn_mode_bt_usb then plain usb_output else plain ble_output)
    ∷ ((if (mode == conn_mode_bt_bt) || (mode == conn_mode_usb_bt)
          then checked ble_device_init ∷ []
          else [])
        ++ ((if (mode == conn_mode_bt_usb) || (mode == conn_mode_bt_bt)
              then checked (ble_host_init true)
              else checked (ble_host_init false))
            ∷ checked hotkey_init
            ∷ checked jiggler_init
            ∷ plain set_jiggler_cb
            ∷ (jiggler_steps jig_cfg
                ++ (checked webhook_init
                    ∷ checked mqtt_init
                    ∷ checked web_ui_init
                    ∷ checked wifi_init
                    ∷ ((if has_creds then [] else checked start_ap ∷ checked web_ui_start ∷ [])
                        ++ (checked fido2_init
                            ∷ (if mode == conn_mode_bt_usb
                                then checked usb_device_init ∷ plain fido2_rx ∷ plain fido2_tx ∷ []
                                else if mode == conn_mode_usb_bt
                                then checked usb_host_init ∷ []
                                else [])))))))

-- The calls that are made, and whether the program goes on.
pub start : (StartCall → ℕ) → List Step → List StartCall × Bool
start answers [] = ([], true)
start answers (plain c ∷ ss) = let (calls, ok) = start answers ss in (c ∷ calls, ok)
start answers (checked c ∷ ss) =
    let (calls, ok) = start answers ss in
    if answers c == 0 then (c ∷ calls, ok) else (c ∷ [], false)
