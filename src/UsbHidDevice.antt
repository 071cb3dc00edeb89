-- ===== src/UsbHidDevice.antt =====
-- components/usb_hid_device/usb_hid_device.c: reports to the host, typing, the FIDO2 interface and
-- the reports of the host. TinyUSB answers each question whether the endpoint is ready and whether a
-- report was taken, in the order of the calls; the delays are not modelled.
pub mod Through
pub mod Arrival
pub mod Errors
mod Tests
use bluepass.Common.{
  ℕ, zero, suc, ◌+◌, ◌-◌, ◌*◌, ◌/◌, ◌%◌, ◌^◌, Bool, true, false, not, ◌&&◌, ◌||◌, Option, none,
  some, List, [], ◌∷◌, ◌++◌, ltb, leb, ◌==◌, if◌then◌else◌, get_or, length, map, bit_and, bit_or,
}
use bluepass.HidReport.{KeyboardReport}
use bluepass.HidText.{hid_utf8_next, hid_cp1252_from_codepoint}
use bluepass.Typing.{
  hid_text_mode_auto, hid_text_mode_alt, hid_text_mode_scan, hid_text_mode_alt_hex, Keys,
  ascii_entry, hex_digits, hex_char, hex_key, alt_digits,
}

abbrev pub esp_fail : ℕ
esp_fail = 0xffffffff

abbrev pub esp_err_invalid_state : ℕ
esp_err_invalid_state = 0x103

abbrev pub esp_err_timeout : ℕ
esp_err_timeout = 0x107

abbrev pub report_id_keyboard : ℕ
report_id_keyboard = 1

-- What TinyUSB took: a report of the keyboard, of the media keys, or of FIDO2.
pub data Sent : Type 0 where
  keyboard : ℕ → List ℕ → Sent
  consumer : ℕ → Sent
  fido2 : List ℕ → Sent

-- The answers of TinyUSB by the number of the call.
pub record Usb : Type 0 where
  pub tud_hid_ready : ℕ → Bool
  pub takes : ℕ → Bool

-- The static state, the calls so far, what was taken, and what the FIDO2 callback got.
pub record Device : Type 0 where
  pub polls : ℕ
  pub reports : ℕ
  pub sent : List Sent
  pub received : List (List ℕ)
  pub has_fido2_rx_cb : Bool
  pub host_leds : ℕ
  pub leds_valid : Bool

abbrev pub no_keys : List ℕ
no_keys = 0 ∷ 0 ∷ 0 ∷ 0 ∷ 0 ∷ 0 ∷ []

abbrev pub one_key : ℕ → List ℕ
one_key kc = kc ∷ 0 ∷ 0 ∷ 0 ∷ 0 ∷ 0 ∷ []

pub needs_loop : ℕ → ℕ → List ℕ → Bool
needs_loop zero mode str = false
needs_loop (suc fuel) mode str =
    let (cp, rest) = hid_utf8_next str in
    let more = needs_loop fuel mode rest in
    let mapped : Bool = elim (hid_cp1252_from_codepoint cp) [ none ↦ false | some b ↦ true ] in
    if cp == 0
    then false
    else if ltb cp 0x20
    then more
    else if mode == hid_text_mode_alt_hex
    then true
    else if ((mode == hid_text_mode_alt) || ltb 0x7e cp) && mapped
    then true
    else more

pub needs_numpad : List ℕ → ℕ → Bool
needs_numpad str mode =
    if mode == hid_text_mode_scan then false else needs_loop (suc (length str)) mode str

module _ (usb : Usb) where
  -- The rounds left of `for (int i = 0; i < 10; i++)`.
  pub ready_loop : ℕ → Device → Bool × Device
  ready_loop zero d = (false, d)
  ready_loop (suc rounds) d =
      let polled = record d { polls = d.polls + 1 } in
      let rest = ready_loop rounds polled in
      if usb.tud_hid_ready d.polls then (true, polled) else rest

  pub wait_hid_ready : Device → Bool × Device
  wait_hid_ready d = ready_loop 10 d

  -- A call that hands over a report.
  pub tud_report : Sent → Device → Bool × Device
  tud_report r d =
      let called = record d { reports = d.reports + 1 } in
      if usb.takes d.reports
      then (true, record called { sent = d.sent ++ (r ∷ []) })
      else (false, called)

  pub kbd_loop : ℕ → ℕ → List ℕ → Device → Bool × Device
  kbd_loop zero modifier keys d = (false, d)
  kbd_loop (suc attempts) modifier keys d =
      let (ready, d1) = wait_hid_ready d in
      let (taken, d2) = if ready then tud_report (keyboard modifier keys) d1 else (false, d1) in
      let rest = kbd_loop attempts modifier keys d2 in if taken then (true, d2) else rest

  pub kbd_report : ℕ → List ℕ → Device → Bool × Device
  kbd_report modifier keys d = kbd_loop 3 modifier keys d

  abbrev pub as_error : Bool × Device → ℕ × Device
  as_error (ok, d) = (if ok then 0 else esp_err_invalid_state, d)

  pub usb_hid_device_send_report : KeyboardReport → Device → ℕ × Device
  usb_hid_device_send_report r d = as_error (kbd_report r.modifier r.keycode d)

  pub usb_hid_device_send_consumer : ℕ → Device → ℕ × Device
  usb_hid_device_send_consumer usage_id d =
      let (ready, d1) = wait_hid_ready d in
      let (taken, d2) = tud_report (consumer usage_id) d1 in
      if ready then (0, d2) else (esp_err_invalid_state, d1)

  pub usb_hid_device_send_release : Device → ℕ × Device
  usb_hid_device_send_release d = as_error (kbd_report 0 no_keys d)

  pub tap_key : ℕ → ℕ → Device → ℕ × Device
  tap_key modifier kc d =
      let (down, d1) = kbd_report modifier (one_key kc) d in
      let (up, d2) = kbd_report modifier no_keys d1 in
      if not down
      then (esp_err_invalid_state, d1)
      else if not up
      then (esp_err_invalid_state, d2)
      else (0, d2)

  -- Taps with one modifier, until one fails.
  pub tap_loop : ℕ → List ℕ → ℕ × Device → ℕ × Device
  tap_loop modifier [] (err, d) = (err, d)
  tap_loop modifier (kc ∷ kcs) (err, d) =
      let rest = tap_loop modifier kcs (tap_key modifier kc d) in
      if err == 0 then rest else (err, d)

  module _ (keys : Keys) where
    pub type_alt_numpad : ℕ → Device → ℕ × Device
    type_alt_numpad b d =
        let (err, d1) = tap_loop keys.mod_l_alt (map keys.keypad (alt_digits b)) (0, d) in
        (err, (usb_hid_device_send_release d1).1)

    pub type_alt_hex : ℕ → Device → ℕ × Device
    type_alt_hex cp d =
        let added = tap_key keys.mod_l_alt keys.keypad_add d in
        let (err, d1) = tap_loop keys.mod_l_alt (map (hex_key keys) (hex_digits 8 cp)) added in
        (err, (usb_hid_device_send_release d1).1)

    -- What the loop of `usb_hid_device_type_string` does with one code point.
    pub type_codepoint : ℕ → ℕ → Device → ℕ × Device
    type_codepoint mode cp d =
        let (kc, modifier) = ascii_entry keys cp in
        if cp == 10
        then tap_key 0 keys.enter d
        else if ltb cp 0x20
        then (0, d)
        else if mode == hid_text_mode_alt_hex
        then type_alt_hex cp d
        else if leb cp 0x7e && not (mode == hid_text_mode_alt)
        then tap_key modifier kc d
        else if mode == hid_text_mode_scan
        then (0, d)
        else elim (hid_cp1252_from_codepoint cp) [ none ↦ (0, d) | some b ↦ type_alt_numpad b d ]

    -- On fuel: each round takes at least one byte of the string.
    pub type_loop : ℕ → ℕ → List ℕ → ℕ × Device → ℕ × Device
    type_loop zero mode str (err, d) = (err, d)
    type_loop (suc fuel) mode str (err, d) =
        let (cp, rest) = hid_utf8_next str in
        let more = type_loop fuel mode rest (type_codepoint mode cp d) in
        if (err == 0) && not (cp == 0) then more else (err, d)

    pub usb_hid_device_type_string : List ℕ → ℕ → Device → ℕ × Device
    usb_hid_device_type_string str mode d =
        let toggle_numlock =
          needs_numpad str mode && (d.leds_valid && (bit_and d.host_leds keys.led_num_lock == 0)) in
        let d1 = if toggle_numlock then (tap_key 0 keys.num_lock d).1 else d in
        let (err, d2) = type_loop (suc (length str)) mode str (0, d1) in
        let d3 = if toggle_numlock then (tap_key 0 keys.num_lock d2).1 else d2 in
        (err, (usb_hid_device_send_release d3).1)

    -- `U` with Ctrl and Shift, the number, and Enter. TinyUSB's answer to the two reports is ignored.
    pub usb_hid_device_type_unicode : ℕ → Device → ℕ × Device
    usb_hid_device_type_unicode codepoint d =
        let hex = map hex_char (hex_digits 8 codepoint) in
        let (ready, d1) = wait_hid_ready d in
        let with_u =
          keyboard (bit_or keys.mod_l_ctrl keys.mod_l_shift) (one_key (keys.letter 20)) in
        let d2 = (usb_hid_device_send_release (tud_report with_u d1).1).1 in
        let d3 = (usb_hid_device_type_string hex hid_text_mode_auto d2).1 in
        let (ready', d4) = wait_hid_ready d3 in
        let d5 = (tud_report (keyboard 0 (one_key keys.enter)) d4).1 in
        if not ready
        then (esp_err_invalid_state, d1)
        else if not ready'
        then (esp_err_invalid_state, d4)
        else (0, (usb_hid_device_send_release d5).1)

  -- `tud_hid_n_ready(1)` is asked in place of `tud_hid_ready`.
  pub usb_hid_fido2_send : List ℕ → Device → ℕ × Device
  usb_hid_fido2_send buf64 d =
      let (ready, d1) = ready_loop 10 d in
      let (taken, d2) = tud_report (fido2 buf64) d1 in
      if ready then (if taken then 0 else esp_fail, d2) else (esp_err_timeout, d1)

pub usb_hid_fido2_set_rx_cb : Bool → Device → Device
usb_hid_fido2_set_rx_cb registered d = record d { has_fido2_rx_cb = registered }

-- A report of the host: the interface, the number and the type that the request names, and the bytes;
-- HID_REPORT_TYPE_OUTPUT of TinyUSB is an argument.
pub tud_hid_set_report_cb : ℕ → ℕ → ℕ → ℕ → List ℕ → Device → Device
tud_hid_set_report_cb output instance_ report_id report_type buffer d =
    let bufsize = length buffer in
    if (instance_ == 1) && leb 64 bufsize && d.has_fido2_rx_cb
    then record d { received = d.received ++ (buffer ∷ []) }
    else if (instance_ == 0) && (report_type == output)
    then (if (report_id == report_id_keyboard) && leb 1 bufsize
        then record d { host_leds = get_or buffer 0 0; leds_valid = true }
        else if (report_id == 0) && leb 2 bufsize && (get_or buffer 0 0 == report_id_keyboard)
        then record d { host_leds = get_or buffer 1 0; leds_valid = true }
        else d)
    else d
