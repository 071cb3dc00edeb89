-- ===== src/BleHidDevice/Tests.antt =====
-- A connected device that types, and a device that is found, connected to and left.
use bluepass.Common.{ℕ, ◌^◌, ◌<◌, ◌≡◌, refl, true, false, none, some, List, [], ◌∷◌, All, arith}
use bluepass.Typing.{hid_text_mode_alt}
use bluepass.Typing.Points.{code_points}
use bluepass.Typing.Host.{run, rest}
use bluepass.Typing.Strings.{all_seen}
use bluepass.Typing.Samples.{usb_keys, numpad, hex, chars, usb_keys-IsLayout}
use bluepass.HidText.{hid_utf8_next}
use bluepass.BleHidDevice.{
  NimBle, Ble, connect, disconnect, adv_complete, on_nimble_sync, ble_hid_device_type_string,
}
use bluepass.BleHidDevice.Reachable.{IsReachable, gap_all, gap_all-IsReachable}
use bluepass.BleHidDevice.Arrival.{Notifies, ble_hid_device_type_string-arrives}

abbrev willing : NimBle
willing = record {
  adv_set_fields = 0;
  adv_rsp_set_fields = 0;
  adv_start = 0;
  ealready = 2;
  mbuf_from_flat = λ i. true;
  notify_custom = λ i. 0;
}

abbrev linked : Ble
linked = record {
  conn_handle = some 1;
  connected = true;
  advertising = false;
  has_conn_cb = true;
  told = true ∷ [];
  notified = [];
  calls = 0;
}

abbrev fresh : Ble
fresh = record {
  conn_handle = none;
  connected = false;
  advertising = false;
  has_conn_cb = true;
  told = [];
  notified = [];
  calls = 0;
}

abbrev letter_a : List ℕ
letter_a = 65 ∷ []

letter_a_wide : All (λ cp. cp < 2 ^ 32) (code_points 2 letter_a)
unfolding code_points hid_utf8_next
letter_a_wide = (omega arith, tt)

ble_hid_device_type_string-arrives_example :
    (ps : List (ℕ × ℕ)) × Notifies 1 linked
      (ble_hid_device_type_string willing usb_keys letter_a hid_text_mode_alt linked).1
      ps
    × (run usb_keys numpad hex chars ps (rest true) ≡ (
      rest true,
      all_seen usb_keys numpad hex chars true hid_text_mode_alt (code_points 2 letter_a),
    ))
ble_hid_device_type_string-arrives_example =
    ble_hid_device_type_string-arrives willing (λ i. refl) (λ i. refl) 1 usb_keys numpad hex chars
      usb_keys-IsLayout letter_a hid_text_mode_alt true linked letter_a_wide refl refl

gap_all-IsReachable_example : IsReachable (
    gap_all willing
      (connect 0 1 ∷ disconnect ∷ connect 13 1 ∷ adv_complete ∷ [])
      (on_nimble_sync willing fresh))
gap_all-IsReachable_example =
    gap_all-IsReachable willing refl refl refl
      (connect 0 1 ∷ disconnect ∷ connect 13 1 ∷ adv_complete ∷ []) fresh refl refl refl refl
