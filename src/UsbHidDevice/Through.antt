-- ===== src/UsbHidDevice/Through.antt =====
-- What a text becomes on the wire where TinyUSB is ready and takes every report.
use bluepass.Common.{
  ℕ, zero, suc, ◌+◌, ◌≡◌, refl, sym, ◌∙◌, true, not, ◌&&◌, inl, inr, List, [], ◌∷◌, ◌++◌, ltb, leb,
  ◌==◌, append_assoc, append-nil, Bool-cases, Option-cases, map,
}
use mathlib.Core.List.{map-append}
use bluepass.HidText.{hid_utf8_next, hid_cp1252_from_codepoint}
use bluepass.Typing.{
  hid_text_mode_alt, hid_text_mode_scan, hid_text_mode_alt_hex, Keys, ascii_entry, alt_digits,
  hex_digits, hex_key,
}
use bluepass.Typing.Points.{code_points}
use bluepass.Typing.Host.{alt_taps}
use bluepass.Typing.Text.{strokes}
use bluepass.Typing.Strings.{all_strokes}
use bluepass.UsbHidDevice.{
  Sent, keyboard, Usb, Device, wait_hid_ready, ready_loop, tud_report, kbd_loop, kbd_report,
  no_keys, one_key, usb_hid_device_send_release, tap_key, tap_loop, type_alt_numpad, type_alt_hex,
  type_codepoint, type_loop,
}

abbrev pub as_report : ℕ × ℕ → Sent
as_report (modifier, kc) = keyboard modifier (kc ∷ 0 ∷ 0 ∷ 0 ∷ 0 ∷ 0 ∷ [])

-- A call succeeds, and hands over these presses.
abbrev pub Delivers : Device → ℕ × Device → List (ℕ × ℕ) → Type 0
Delivers d r ps = (r.0 ≡ 0) × (r.1.sent ≡ d.sent ++ map as_report ps)

module _ (usb : Usb) (ready : (i : ℕ) → usb.tud_hid_ready i ≡ true)
    (takes : (i : ℕ) → usb.takes i ≡ true) where
  report_through :
      (modifier : ℕ) (keys : List ℕ) (d : Device)
      → kbd_report usb modifier keys d ≡ (
        true,
        record d {
          polls = d.polls + 1;
          reports = d.reports + 1;
          sent = d.sent ++ (keyboard modifier keys ∷ []);
        },
      )
  unfolding kbd_report kbd_loop wait_hid_ready ready_loop tud_report
  report_through modifier keys d = rw (ready d.polls, takes d.reports) refl

  pub then-Delivers :
      (d d1 : Device) (r : ℕ × Device) (ps qs : List (ℕ × ℕ))
      → d1.sent ≡ d.sent ++ map as_report ps
      → Delivers d1 r qs
      → Delivers d r (ps ++ qs)
  then-Delivers d d1 r ps qs e f =
      (f.0, f.1 ∙ rw (e, map-append as_report ps qs, append_assoc) refl)

  pub tap-Delivers :
      (modifier kc : ℕ) (d : Device)
      → Delivers d (tap_key usb modifier kc d) ((modifier, kc) ∷ (modifier, 0) ∷ [])
  unfolding tap_key
  tap-Delivers modifier kc d =
      rw (report_through modifier (one_key kc) d)
        (rw (report_through modifier no_keys _) (refl, append_assoc d.sent _ _))

  pub release-Delivers : (d : Device) → Delivers d (usb_hid_device_send_release usb d) ((0, 0) ∷ [])
  unfolding usb_hid_device_send_release
  release-Delivers d = rw (report_through 0 no_keys d) (refl, refl)

  loop-Delivers :
      (keys : Keys) (ks : List ℕ) (err : ℕ) (d : Device)
      → err ≡ 0
      → Delivers d (tap_loop usb keys.mod_l_alt ks (err, d)) (alt_taps keys ks)
  unfolding tap_loop
  loop-Delivers keys [] err d e = (e, sym (append-nil d.sent))
  loop-Delivers keys (k ∷ ks) err d e =
      let tap = tap_key usb keys.mod_l_alt k d in
      let tapped = tap-Delivers keys.mod_l_alt k d in
      rw e (
        then-Delivers d tap.1 (tap_loop usb keys.mod_l_alt ks tap)
          ((keys.mod_l_alt, k) ∷ (keys.mod_l_alt, 0) ∷ []) (alt_taps keys ks) tapped.1
          (loop-Delivers keys ks tap.0 tap.1 tapped.0))

  -- A number, and Alt going up.
  numpad-Delivers :
      (keys : Keys) (b : ℕ) (d : Device)
      → Delivers d
          (type_alt_numpad usb keys b d)
          (alt_taps keys (map keys.keypad (alt_digits b)) ++ ((0, 0) ∷ []))
  unfolding type_alt_numpad
  numpad-Delivers keys b d =
      let ks = map keys.keypad (alt_digits b) in
      let typed = tap_loop usb keys.mod_l_alt ks (0, d) in
      let digits = loop-Delivers keys ks 0 d refl in
      (
        digits.0,
        (then-Delivers d typed.1 (usb_hid_device_send_release usb typed.1) (alt_taps keys ks)
            ((0, 0) ∷ []) digits.1 (release-Delivers typed.1)).1,
      )

  hex-Delivers :
      (keys : Keys) (cp : ℕ) (d : Device)
      → Delivers d
          (type_alt_hex usb keys cp d)
          (alt_taps keys (keys.keypad_add ∷ map (hex_key keys) (hex_digits 8 cp)) ++ ((0, 0) ∷ []))
  unfolding type_alt_hex
  hex-Delivers keys cp d =
      let ks = map (hex_key keys) (hex_digits 8 cp) in
      let added = tap_key usb keys.mod_l_alt keys.keypad_add d in
      let typed = tap_loop usb keys.mod_l_alt ks added in
      let plus = tap-Delivers keys.mod_l_alt keys.keypad_add d in
      let digits = loop-Delivers keys ks added.0 added.1 plus.0 in
      let number =
        then-Delivers d added.1 typed ((keys.mod_l_alt, keys.keypad_add) ∷ (keys.mod_l_alt, 0) ∷ [])
          (alt_taps keys ks) plus.1 digits in
      (
        number.0,
        (then-Delivers d typed.1 (usb_hid_device_send_release usb typed.1)
            (alt_taps keys (keys.keypad_add ∷ ks)) ((0, 0) ∷ []) number.1
            (release-Delivers typed.1)).1,
      )

  pub nothing-Delivers : (d : Device) → Delivers d (0, d) []
  nothing-Delivers d = (refl, sym (append-nil d.sent))

  point-Delivers :
      (keys : Keys) (numpad hex : ℕ → ℕ) (chars : ℕ → ℕ → ℕ) (mode cp : ℕ) (d : Device)
      → Delivers d (type_codepoint usb keys mode cp d) (strokes keys numpad hex chars true mode cp)
  unfolding type_codepoint strokes
  point-Delivers keys numpad hex chars mode cp d = elim (Bool-cases (cp == 10)) [
    | inl line ↦ rw line (tap-Delivers 0 keys.enter d)
    | inr no_line ↦ rw no_line elim (Bool-cases (ltb cp 0x20)) [
      | inl control ↦ rw control (nothing-Delivers d)
      | inr printable ↦ rw printable elim (Bool-cases (mode == hid_text_mode_alt_hex)) [
        | inl is_hex ↦ rw is_hex (hex-Delivers keys cp d)
        | inr no_hex ↦
            rw no_hex (elim (Bool-cases (leb cp 0x7e && not (mode == hid_text_mode_alt))) [
              | inl ascii ↦
                  rw ascii (tap-Delivers (ascii_entry keys cp).1 (ascii_entry keys cp).0 d)
              | inr outside ↦ rw outside elim (Bool-cases (mode == hid_text_mode_scan)) [
                | inl is_scan ↦ rw is_scan (nothing-Delivers d)
                | inr no_scan ↦ rw no_scan elim (Option-cases (hid_cp1252_from_codepoint cp)) [
                  | inl unmapped ↦ rw unmapped (nothing-Delivers d)
                  | inr mapped ↦ rw mapped.1 (numpad-Delivers keys mapped.0 d)
                ]
              ]
            ])
      ]
    ]
  ]

  pub string-Delivers :
      (keys : Keys) (numpad hex : ℕ → ℕ) (chars : ℕ → ℕ → ℕ) (fuel mode : ℕ) (str : List ℕ)
      (err : ℕ) (d : Device)
      → err ≡ 0
      → Delivers d
          (type_loop usb keys fuel mode str (err, d))
          (all_strokes keys numpad hex chars true mode (code_points fuel str))
  unfolding type_loop code_points all_strokes
  string-Delivers keys numpad hex chars zero mode str err d e = (e, sym (append-nil d.sent))
  string-Delivers keys numpad hex chars (suc fuel) mode str err d e =
      let next = hid_utf8_next str in
      elim (Bool-cases (next.0 == 0)) [
        | inl end ↦ rw (e, end) (nothing-Delivers d)
        | inr more ↦
            let typed = point-Delivers keys numpad hex chars mode next.0 d in
            rw (e, more)
              (then-Delivers d (type_codepoint usb keys mode next.0 d).1
                (type_loop usb keys fuel mode next.1 (type_codepoint usb keys mode next.0 d))
                (strokes keys numpad hex chars true mode next.0)
                (all_strokes keys numpad hex chars true mode (code_points fuel next.1)) typed.1
                (string-Delivers keys numpad hex chars fuel mode next.1
                  (type_codepoint usb keys mode next.0 d).0
                  (type_codepoint usb keys mode next.0 d).1 typed.0))
      ]
