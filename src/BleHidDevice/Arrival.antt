-- ===== src/BleHidDevice/Arrival.antt =====
-- A text from components/ble_hid_device/ble_hid_device.c to the computer, while it is connected and
-- NimBLE takes every report.
use mathlib.Core.List.{map-append}
use bluepass.Common.{
  ℕ, zero, suc, ◌^◌, ◌<◌, ◌≡◌, refl, sym, ◌∙◌, Bool, true, false, not, ◌&&◌, inl, inr, some, List,
  [], ◌∷◌, ◌++◌, ltb, leb, ◌==◌, append_assoc, append-nil, Bool-cases, Option-cases, All, map,
  length,
}
use bluepass.HidReport.{single_key, released}
use bluepass.HidText.{hid_utf8_next, hid_cp1252_from_codepoint}
use bluepass.Typing.{
  hid_text_mode_alt, hid_text_mode_scan, hid_text_mode_alt_hex, Keys, ascii_entry, hex_digits,
  hex_key, alt_digits,
}
use bluepass.Typing.Points.{code_points}
use bluepass.Typing.Host.{run, rest, IsLayout, alt_taps}
use bluepass.Typing.Text.{strokes}
use bluepass.Typing.Strings.{all_strokes, all_seen, points_run}
use bluepass.BleHidDevice.{
  NimBle, Handle, s_kbd_handle, Ble, notify, ble_hid_device_send_report,
  ble_hid_device_send_release, tap_key, tap_loop, type_alt_numpad, type_alt_hex, type_codepoint,
  type_loop, ble_hid_device_type_string,
}

abbrev pub as_notification : ℕ × ℕ → Handle × List ℕ
as_notification (modifier, kc) = (s_kbd_handle, modifier ∷ 0 ∷ kc ∷ 0 ∷ 0 ∷ 0 ∷ 0 ∷ 0 ∷ [])

-- These presses are notified, over a connection that stays.
abbrev pub Notifies : ℕ → Ble → Ble → List (ℕ × ℕ) → Type 0
Notifies handle b b' ps =
    (b'.notified ≡ b.notified ++ map as_notification ps)
    × (b'.connected ≡ true)
    × (b'.conn_handle ≡ some handle)

module _ (ble : NimBle) (memory : (i : ℕ) → ble.mbuf_from_flat i ≡ true)
    (takes : (i : ℕ) → ble.notify_custom i ≡ 0) (handle : ℕ) where
  -- Connected over this handle.
  IsUp : Ble → Type 0
  IsUp b = (b.connected ≡ true) × (b.conn_handle ≡ some handle)

  report-Notifies :
      (modifier kc : ℕ) (b : Ble)
      → b.connected ≡ true
      → b.conn_handle ≡ some handle
      → Notifies handle b
          (ble_hid_device_send_report ble (single_key modifier kc) b).1
          ((modifier, kc) ∷ [])
  unfolding ble_hid_device_send_report notify
  report-Notifies modifier kc b c h = rw (c, h, memory b.calls, takes b.calls) (refl, c, h)

  then-Notifies :
      (b b1 b2 : Ble) (ps qs : List (ℕ × ℕ))
      → Notifies handle b b1 ps
      → (b1.connected ≡ true → b1.conn_handle ≡ some handle → Notifies handle b1 b2 qs)
      → Notifies handle b b2 (ps ++ qs)
  then-Notifies b b1 b2 ps qs u more =
      let v = more u.1 u.2 in
      (v.0 ∙ rw (u.0, map-append as_notification ps qs, append_assoc) refl, v.1, v.2)

  tap-Notifies :
      (modifier up kc : ℕ) (b : Ble)
      → b.connected ≡ true
      → b.conn_handle ≡ some handle
      → Notifies handle b
          (ble_hid_device_send_report ble
            (single_key up 0)
            (ble_hid_device_send_report ble (single_key modifier kc) b).1).1
          ((modifier, kc) ∷ (up, 0) ∷ [])
  tap-Notifies modifier up kc b c h =
      let down = (ble_hid_device_send_report ble (single_key modifier kc) b).1 in
      then-Notifies b down (ble_hid_device_send_report ble (single_key up 0) down).1
        ((modifier, kc) ∷ []) ((up, 0) ∷ []) (report-Notifies modifier kc b c h)
        (report-Notifies up 0 down)

  loop-Notifies :
      (keys : Keys) (ks : List ℕ) (b : Ble)
      → b.connected ≡ true
      → b.conn_handle ≡ some handle
      → Notifies handle b (tap_loop ble keys.mod_l_alt ks b) (alt_taps keys ks)
  unfolding tap_loop tap_key
  loop-Notifies keys [] b c h = (sym (append-nil b.notified), c, h)
  loop-Notifies keys (k ∷ ks) b c h =
      let tapped = tap_key ble keys.mod_l_alt k b in
      then-Notifies b tapped (tap_loop ble keys.mod_l_alt ks tapped)
        ((keys.mod_l_alt, k) ∷ (keys.mod_l_alt, 0) ∷ []) (alt_taps keys ks)
        (tap-Notifies keys.mod_l_alt keys.mod_l_alt k b c h) (loop-Notifies keys ks tapped)

  -- Taps while Alt is held, and Alt going up.
  number-Notifies :
      (keys : Keys) (ks : List ℕ) (b : Ble)
      → b.connected ≡ true
      → b.conn_handle ≡ some handle
      → Notifies handle b
          (ble_hid_device_send_release ble (tap_loop ble keys.mod_l_alt ks b)).1
          (alt_taps keys ks ++ ((0, 0) ∷ []))
  unfolding ble_hid_device_send_release
  number-Notifies keys ks b c h =
      let typed = tap_loop ble keys.mod_l_alt ks b in
      then-Notifies b typed (ble_hid_device_send_report ble released typed).1 (alt_taps keys ks)
        ((0, 0) ∷ []) (loop-Notifies keys ks b c h) (report-Notifies 0 0 typed)

  point-Notifies :
      (keys : Keys) (numpad hex : ℕ → ℕ) (chars : ℕ → ℕ → ℕ) (mode cp : ℕ) (b : Ble)
      → b.connected ≡ true
      → b.conn_handle ≡ some handle
      → Notifies handle b
          (type_codepoint ble keys mode cp b)
          (strokes keys numpad hex chars false mode cp)
  unfolding type_codepoint strokes type_alt_numpad type_alt_hex ble_hid_device_send_release tap_loop
  point-Notifies keys numpad hex chars mode cp b c h =
      let nothing : Notifies handle b b [] = (sym (append-nil b.notified), c, h) in
      elim (Bool-cases (cp == 10)) [
        | inl line ↦ rw line (tap-Notifies 0 0 keys.enter b c h)
        | inr no_line ↦ rw no_line elim (Bool-cases (ltb cp 0x20)) [
          | inl control ↦ rw control nothing
          | inr printable ↦ rw printable elim (Bool-cases (mode == hid_text_mode_alt_hex)) [
            | inl is_hex ↦ rw is_hex (
                number-Notifies keys (keys.keypad_add ∷ map (hex_key keys) (hex_digits 8 cp)) b c h)
            | inr no_hex ↦
                rw no_hex (elim (Bool-cases (leb cp 0x7e && not (mode == hid_text_mode_alt))) [
                  | inl ascii ↦
                      rw ascii
                        (tap-Notifies (ascii_entry keys cp).1 0 (ascii_entry keys cp).0 b c h)
                  | inr outside ↦ rw outside elim (Bool-cases (mode == hid_text_mode_scan)) [
                    | inl is_scan ↦ rw is_scan nothing
                    | inr no_scan ↦ rw no_scan elim (Option-cases (hid_cp1252_from_codepoint cp)) [
                      | inl unmapped ↦ rw unmapped nothing
                      | inr mapped ↦
                          rw mapped.1
                            (number-Notifies keys (map keys.keypad (alt_digits mapped.0)) b c h)
                    ]
                  ]
                ])
          ]
        ]
      ]

  string-Notifies :
      (keys : Keys) (numpad hex : ℕ → ℕ) (chars : ℕ → ℕ → ℕ) (fuel mode : ℕ) (str : List ℕ)
      (b : Ble)
      → b.connected ≡ true
      → b.conn_handle ≡ some handle
      → Notifies handle b
          (type_loop ble keys fuel mode str b)
          (all_strokes keys numpad hex chars false mode (code_points fuel str))
  unfolding type_loop code_points all_strokes
  string-Notifies keys numpad hex chars zero mode str b c h = (sym (append-nil b.notified), c, h)
  string-Notifies keys numpad hex chars (suc fuel) mode str b c h =
      let next = hid_utf8_next str in
      let typed = type_codepoint ble keys mode next.0 b in
      elim (Bool-cases (next.0 == 0)) [
        | inl end ↦ rw end (sym (append-nil b.notified), c, h)
        | inr more ↦ rw more (
            then-Notifies b typed (type_loop ble keys fuel mode next.1 typed)
              (strokes keys numpad hex chars false mode next.0)
              (all_strokes keys numpad hex chars false mode (code_points fuel next.1))
              (point-Notifies keys numpad hex chars mode next.0 b c h)
              (string-Notifies keys numpad hex chars fuel mode next.1 typed))
      ]

  -- While the computer is connected and NimBLE takes every report, a computer with a US keyboard that
  -- reads numbers on the keypad, with the key codes that this device sends and no key down, reads of a
  -- text exactly its characters; what the mode cannot
  -- type is left out: control characters but the line feed; as keys, what is not ASCII; as codes, what
  -- the code page lacks. A character that
  -- is typed as a number arrives only if Num Lock is on, since the device cannot see nor switch it.
  pub ble_hid_device_type_string-arrives :
      (keys : Keys) (numpad hex : ℕ → ℕ) (chars : ℕ → ℕ → ℕ)
      → IsLayout keys numpad hex chars
      → (str : List ℕ) (mode : ℕ) (num_lock : Bool) (b : Ble)
      → All (λ cp. cp < 2 ^ 32) (code_points (suc (length str)) str)
      → b.connected ≡ true
      → b.conn_handle ≡ some handle
      → (ps : List (ℕ × ℕ)) × Notifies handle b
          (ble_hid_device_type_string ble keys str mode b).1
          ps
        × (run keys numpad hex chars ps (rest num_lock) ≡ (
          rest num_lock,
          all_seen keys numpad hex chars num_lock mode (code_points (suc (length str)) str),
        ))
  unfolding ble_hid_device_type_string
  ble_hid_device_type_string-arrives keys numpad hex chars layout str mode num_lock b wide c h =
      let cps = code_points (suc (length str)) str in
      (
        all_strokes keys numpad hex chars false mode cps,
        string-Notifies keys numpad hex chars (suc (length str)) mode str b c h,
        points_run keys numpad hex chars layout false num_lock mode cps wide,
      )
