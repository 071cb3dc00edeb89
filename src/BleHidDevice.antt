-- ===== src/BleHidDevice.antt =====
-- components/ble_hid_device/ble_hid_device.c: the attributes, the connection with the computer, and
-- typing. What NimBLE answers is an argument; the calls that set a name or start the services, and the
-- delays, are not modelled.
pub mod Reachable
pub mod Arrival
mod Tests
use bluepass.Common.{
  ℕ, zero, suc, ◌+◌, ◌*◌, ◌/◌, ◌^◌, Bool, true, false, not, ◌&&◌, ◌||◌, Option, none, some, List,
  [], ◌∷◌, ◌++◌, ltb, leb, ◌==◌, if◌then◌else◌, get_or, length, map, bit_and,
}
use bluepass.HidReport.{KeyboardReport, single_key, released}
use bluepass.HidText.{hid_utf8_next, hid_cp1252_from_codepoint}
use bluepass.Typing.{
  hid_text_mode_alt, hid_text_mode_scan, hid_text_mode_alt_hex, Keys, ascii_entry, hex_digits,
  hex_key, alt_digits,
}

-- The report map: the keyboard as report 1, the media keys as report 2.
abbrev pub s_hid_report_map : List ℕ
s_hid_report_map =
    0x05 ∷ 0x01 ∷ 0x09 ∷ 0x06 ∷ 0xa1 ∷ 0x01 ∷ 0x85 ∷ 0x01 ∷ 0x05 ∷ 0x07 ∷ 0x19 ∷ 0xe0 ∷ 0x29 ∷ 0xe7
    ∷ 0x15 ∷ 0x00 ∷ 0x25 ∷ 0x01 ∷ 0x75 ∷ 0x01 ∷ 0x95 ∷ 0x08 ∷ 0x81 ∷ 0x02 ∷ 0x95 ∷ 0x01 ∷ 0x75
    ∷ 0x08 ∷ 0x81 ∷ 0x03 ∷ 0x95 ∷ 0x06 ∷ 0x75 ∷ 0x08 ∷ 0x15 ∷ 0x00 ∷ 0x25 ∷ 0x73 ∷ 0x05 ∷ 0x07
    ∷ 0x19 ∷ 0x00 ∷ 0x29 ∷ 0x73 ∷ 0x81 ∷ 0x00 ∷ 0xc0 ∷ 0x05 ∷ 0x0c ∷ 0x09 ∷ 0x01 ∷ 0xa1 ∷ 0x01
    ∷ 0x85 ∷ 0x02 ∷ 0x15 ∷ 0x00 ∷ 0x26 ∷ 0xff ∷ 0x03 ∷ 0x19 ∷ 0x00 ∷ 0x2a ∷ 0xff ∷ 0x03 ∷ 0x75
    ∷ 0x10 ∷ 0x95 ∷ 0x01 ∷ 0x81 ∷ 0x00 ∷ 0xc0 ∷ []

-- The error codes of the attribute protocol.
pub record AttErrors : Type 0 where
  pub insufficient_res : ℕ
  pub unlikely : ℕ

-- What an access answers and appends: `append` is what `os_mbuf_append` answers.
abbrev pub appended : AttErrors → ℕ → List ℕ → ℕ × List ℕ
appended errors append bytes = if append == 0 then (0, bytes) else (errors.insufficient_res, [])

pub gatt_cb : AttErrors → ℕ → Bool → ℕ → ℕ × List ℕ
gatt_cb errors append is_read id =
    if id == 0
    then appended errors append (0x11 ∷ 0x01 ∷ 0x00 ∷ 0x02 ∷ [])
    else if id == 1
    then appended errors append s_hid_report_map
    else if id == 2
    then (0, [])
    else if id == 3
    then appended errors append (0 ∷ 0 ∷ 0 ∷ 0 ∷ 0 ∷ 0 ∷ 0 ∷ 0 ∷ [])
    else if id == 4
    then appended errors append (0 ∷ 0 ∷ [])
    else if id == 5
    then (0, if is_read && (append == 0) then 0x01 ∷ [] else [])
    else if id == 10
    then appended errors append (0x01 ∷ 0x01 ∷ [])
    else if id == 11
    then appended errors append (0x02 ∷ 0x01 ∷ [])
    else (errors.unlikely, [])

pub bas_cb : AttErrors → ℕ → ℕ × List ℕ
bas_cb errors append = appended errors append (100 ∷ [])

-- What NimBLE answers: to the three calls that start advertising, with its code for what runs already,
-- and to the reports, by the number of the call.
pub record NimBle : Type 0 where
  pub adv_set_fields : ℕ
  pub adv_rsp_set_fields : ℕ
  pub adv_start : ℕ
  pub ealready : ℕ
  pub mbuf_from_flat : ℕ → Bool
  pub notify_custom : ℕ → ℕ

abbrev pub esp_fail : ℕ
esp_fail = 0xffffffff

abbrev pub esp_err_no_mem : ℕ
esp_err_no_mem = 0x101

abbrev pub esp_err_invalid_state : ℕ
esp_err_invalid_state = 0x103

-- The two attributes that notify.
pub data Handle : Type 0 where
  s_kbd_handle : Handle
  s_consumer_handle : Handle

-- The static state; `conn_handle` is none for BLE_HS_CONN_HANDLE_NONE. `notified` are the reports that
-- NimBLE took, `calls` how many it was asked for, `told` what the callback was told.
pub record Ble : Type 0 where
  pub conn_handle : Option ℕ
  pub connected : Bool
  pub advertising : Bool
  pub has_conn_cb : Bool
  pub told : List Bool
  pub notified : List (Handle × List ℕ)
  pub calls : ℕ

module _ (ble : NimBle) where
  pub ble_hid_device_start_advertising : Ble → ℕ × Ble
  ble_hid_device_start_advertising b =
      if b.connected
      then (0, b)
      else if not (ble.adv_set_fields == 0)
      then (esp_fail, b)
      else if not (ble.adv_rsp_set_fields == 0)
      then (esp_fail, b)
      else if (ble.adv_start == 0) || (ble.adv_start == ble.ealready)
      then (0, record b { advertising = true })
      else (esp_fail, b)

abbrev pub tell : Bool → Ble → Ble
tell state b = if b.has_conn_cb then record b { told = b.told ++ (state ∷ []) } else b

-- The events that the handler distinguishes, with the status and the handle of a connection.
pub data GapEvent : Type 0 where
  connect : ℕ → ℕ → GapEvent
  disconnect : GapEvent
  adv_complete : GapEvent
  repeat_pairing : GapEvent
  other : GapEvent

-- The bond is deleted on `repeat_pairing`, which changes nothing here.
pub gap_cb : NimBle → GapEvent → Ble → Ble
gap_cb ble (connect status handle) b =
    if status == 0
    then tell true (record b { conn_handle = some handle; connected = true; advertising = false })
    else b
gap_cb ble disconnect b =
    (ble_hid_device_start_advertising ble
      (tell false (record b { connected = false; conn_handle = none }))).1
gap_cb ble adv_complete b =
    let started = (ble_hid_device_start_advertising ble b).1 in if b.connected then b else started
gap_cb ble repeat_pairing b = b
gap_cb ble other b = b

pub on_nimble_sync : NimBle → Ble → Ble
on_nimble_sync ble b = (ble_hid_device_start_advertising ble b).1

pub ble_hid_device_is_connected : Ble → Bool
ble_hid_device_is_connected b = b.connected

pub ble_hid_device_is_advertising : Ble → Bool
ble_hid_device_is_advertising b = b.advertising

pub ble_hid_device_set_conn_cb : Bool → Ble → Ble
ble_hid_device_set_conn_cb registered b = record b { has_conn_cb = registered }

module _ (ble : NimBle) where
  -- A report to an attribute, where there is memory for it.
  notify : Handle → List ℕ → Ble → ℕ × Ble
  notify handle buf b =
      let asked = record b { calls = b.calls + 1 } in
      let taken = record asked { notified = b.notified ++ ((handle, buf) ∷ []) } in
      if not (ble.mbuf_from_flat b.calls)
      then (esp_err_no_mem, asked)
      else if ble.notify_custom b.calls == 0
      then (0, taken)
      else (esp_fail, asked)

  -- Without a connection nothing is asked.
  abbrev pub when_connected : ℕ × Ble → Ble → ℕ × Ble
  when_connected done b =
      if not b.connected
      then (esp_err_invalid_state, b)
      else elim b.conn_handle [ none ↦ (esp_err_invalid_state, b) | some handle ↦ done ]

  pub ble_hid_device_send_report : KeyboardReport → Ble → ℕ × Ble
  ble_hid_device_send_report r b =
      when_connected (notify s_kbd_handle (r.modifier ∷ 0 ∷ r.keycode) b) b

  pub ble_hid_device_send_consumer : ℕ → Ble → ℕ × Ble
  ble_hid_device_send_consumer usage_id b =
      when_connected
        (notify s_consumer_handle (bit_and usage_id 0xff ∷ bit_and (usage_id / 2 ^ 8) 0xff ∷ []) b)
        b

  pub ble_hid_device_send_release : Ble → ℕ × Ble
  ble_hid_device_send_release b = ble_hid_device_send_report released b

  -- The answers to the reports are ignored from here on.
  pub tap_key : ℕ → ℕ → Ble → Ble
  tap_key modifier kc b =
      let b1 = (ble_hid_device_send_report (single_key modifier kc) b).1 in
      (ble_hid_device_send_report (single_key modifier 0) b1).1

  pub tap_loop : ℕ → List ℕ → Ble → Ble
  tap_loop modifier [] b = b
  tap_loop modifier (kc ∷ kcs) b = tap_loop modifier kcs (tap_key modifier kc b)

  -- A key, and a release of everything.
  abbrev pub press : ℕ → ℕ → Ble → Ble
  press modifier kc b =
      (ble_hid_device_send_release (ble_hid_device_send_report (single_key modifier kc) b).1).1

  module _ (keys : Keys) where
    pub type_alt_numpad : ℕ → Ble → Ble
    type_alt_numpad n b =
        (ble_hid_device_send_release (tap_loop keys.mod_l_alt (map keys.keypad (alt_digits n)) b)).1

    pub type_alt_hex : ℕ → Ble → Ble
    type_alt_hex cp b =
        let added = tap_key keys.mod_l_alt keys.keypad_add b in
        (ble_hid_device_send_release
          (tap_loop keys.mod_l_alt (map (hex_key keys) (hex_digits 8 cp)) added)).1

    -- What the loop of `ble_hid_device_type_string` does with one code point.
    pub type_codepoint : ℕ → ℕ → Ble → Ble
    type_codepoint mode cp b =
        let (kc, modifier) = ascii_entry keys cp in
        if cp == 10
        then press 0 keys.enter b
        else if ltb cp 0x20
        then b
        else if mode == hid_text_mode_alt_hex
        then type_alt_hex cp b
        else if leb cp 0x7e && not (mode == hid_text_mode_alt)
        then press modifier kc b
        else if mode == hid_text_mode_scan
        then b
        else elim (hid_cp1252_from_codepoint cp) [ none ↦ b | some n ↦ type_alt_numpad n b ]

    -- On fuel: each round takes at least one byte of the string.
    pub type_loop : ℕ → ℕ → List ℕ → Ble → Ble
    type_loop zero mode str b = b
    type_loop (suc fuel) mode str b =
        let (cp, behind) = hid_utf8_next str in
        let more = type_loop fuel mode behind (type_codepoint mode cp b) in
        if cp == 0 then b else more

    pub ble_hid_device_type_string : List ℕ → ℕ → Ble → ℕ × Ble
    ble_hid_device_type_string str mode b = (0, type_loop (suc (length str)) mode str b)
