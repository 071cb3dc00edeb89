-- ===== src/UsbHidDevice/Tests.antt =====
-- An `A` that is typed as a number, to a host whose Num Lock is off.
use bluepass.Common.{ℕ, ◌^◌, ◌<◌, ◌≡◌, refl, true, false, List, [], ◌∷◌, All, arith}
use bluepass.Typing.{hid_text_mode_alt}
use bluepass.Typing.Points.{code_points}
use bluepass.Typing.Host.{run, rest}
use bluepass.Typing.Strings.{all_seen}
use bluepass.Typing.Samples.{usb_keys, numpad, hex, chars, usb_keys-IsLayout}
use bluepass.HidText.{hid_utf8_next}
use bluepass.UsbHidDevice.{Usb, Device, usb_hid_device_type_string}
use bluepass.UsbHidDevice.Through.{Delivers}
use bluepass.UsbHidDevice.Arrival.{usb_hid_device_type_string-arrives}

abbrev ready_usb : Usb
ready_usb = record { tud_hid_ready = λ i. true; takes = λ i. true }

abbrev lock_off : Device
lock_off = record {
  polls = 0;
  reports = 0;
  sent = [];
  received = [];
  has_fido2_rx_cb = false;
  host_leds = 0;
  leds_valid = true;
}

abbrev letter_a : List ℕ
letter_a = 65 ∷ []

letter_a_wide : All (λ cp. cp < 2 ^ 32) (code_points 2 letter_a)
unfolding code_points hid_utf8_next
letter_a_wide = (omega arith, tt)

usb_hid_device_type_string-arrives_example :
    (ps : List (ℕ × ℕ)) × Delivers lock_off
      (usb_hid_device_type_string ready_usb usb_keys letter_a hid_text_mode_alt lock_off)
      ps
    × (run usb_keys numpad hex chars ps (rest false) ≡ (
      rest false,
      all_seen usb_keys numpad hex chars true hid_text_mode_alt (code_points 2 letter_a),
    ))
usb_hid_device_type_string-arrives_example =
    usb_hid_device_type_string-arrives ready_usb (λ i. refl) (λ i. refl) usb_keys numpad hex chars
      usb_keys-IsLayout letter_a hid_text_mode_alt false lock_off letter_a_wide refl
