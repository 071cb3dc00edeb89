-- ===== src/UsbHidDevice/Arrival.antt =====
-- A whole text from components/usb_hid_device/usb_hid_device.c to the host.
use bluepass.Common.{
  ℕ, zero, suc, ◌^◌, ◌<◌, ◌≡◌, refl, sym, Bool, true, false, not, ◌&&◌, ◌||◌, inl, inr, List, [],
  ◌∷◌, ◌++◌, ltb, ◌==◌, if◌then◌else◌, arith, append-nil, Bool-cases, All, map, length, bit_and,
}
use bluepass.HidText.{hid_utf8_next, hid_cp1252_from_codepoint}
use bluepass.Typing.{hid_text_mode_alt, hid_text_mode_scan, hid_text_mode_alt_hex, Keys}
use bluepass.Typing.Points.{code_points}
use bluepass.Typing.Host.{run, rest, IsLayout}
use bluepass.Typing.Strings.{
  is_some, by_number, any_by_number, all_strokes, all_seen, lock_presses, presses, typed_run,
}
use bluepass.UsbHidDevice.{
  Usb, Device, usb_hid_device_send_release, tap_key, type_loop, needs_loop, needs_numpad,
  usb_hid_device_type_string,
}
use bluepass.UsbHidDevice.Through.{
  as_report, Delivers, then-Delivers, tap-Delivers, release-Delivers, string-Delivers,
}

scan_never :
    (mode : ℕ) (cps : List ℕ) → (mode == hid_text_mode_scan) ≡ true → any_by_number mode cps ≡ false
scan_never mode [] h = refl
scan_never mode (cp ∷ cps) h =
    let others = scan_never mode cps h in
    let one : by_number mode cp ≡ false = ground (arith, h) in rw (one, others) refl

or_of_ifs :
    (a b c : Bool) → (if a then true else if b then true else c) ≡ ((if a then true else b) || c)
or_of_ifs true b c = refl
or_of_ifs false true c = refl
or_of_ifs false false c = refl

needs-any :
    (fuel mode : ℕ) (str : List ℕ)
    → (mode == hid_text_mode_scan) ≡ false
    → needs_loop fuel mode str ≡ any_by_number mode (code_points fuel str)
unfolding needs_loop code_points
needs-any zero mode str h = refl
needs-any (suc fuel) mode str h =
    let next = hid_utf8_next str in
    let more = needs-any fuel mode next.1 h in
    elim (Bool-cases (next.0 == 0)) [
      | inl end ↦ rw end refl
      | inr going ↦
          rw (going, h, more)
            (elim (Bool-cases (ltb next.0 0x20)) [
              | inl control ↦ rw control refl
              | inr printable ↦ rw printable (
                  or_of_ifs (mode == hid_text_mode_alt_hex)
                    (((mode == hid_text_mode_alt) || ltb 0x7e next.0)
                      && is_some (hid_cp1252_from_codepoint next.0))
                    (any_by_number mode (code_points fuel next.1)))
            ])
    ]

needs_numpad-any :
    (str : List ℕ) (mode : ℕ)
    → needs_numpad str mode ≡ any_by_number mode (code_points (suc (length str)) str)
unfolding needs_numpad
needs_numpad-any str mode = elim (Bool-cases (mode == hid_text_mode_scan)) [
  | inl is_scan ↦ rw is_scan (sym (scan_never mode (code_points (suc (length str)) str) is_scan))
  | inr no_scan ↦ rw no_scan (needs-any (suc (length str)) mode str no_scan)
]

module _ (usb : Usb) (ready : (i : ℕ) → usb.tud_hid_ready i ≡ true)
    (takes : (i : ℕ) → usb.takes i ≡ true) (keys : Keys) (numpad hex : ℕ → ℕ)
    (chars : ℕ → ℕ → ℕ) where
  -- The tap of Num Lock, or none.
  lock_delivers :
      (toggle : Bool) (d : Device)
      → (if toggle then (tap_key usb 0 keys.num_lock d).1 else d).sent
        ≡ d.sent ++ map as_report (lock_presses keys numpad hex chars toggle)
  lock_delivers true d = (tap-Delivers usb ready takes 0 keys.num_lock d).1
  lock_delivers false d = sym (append-nil d.sent)

  typed-Delivers :
      (str : List ℕ) (mode : ℕ) (toggle : Bool) (d : Device)
      → (needs_numpad str mode && (d.leds_valid && (bit_and d.host_leds keys.led_num_lock == 0)))
        ≡ toggle
      → Delivers d (usb_hid_device_type_string usb keys str mode d) (
          lock_presses keys numpad hex chars toggle
          ++ (all_strokes keys numpad hex chars true mode (code_points (suc (length str)) str)
              ++ (lock_presses keys numpad hex chars toggle ++ ((0, 0) ∷ []))))
  unfolding usb_hid_device_type_string
  typed-Delivers str mode toggle d h =
      let cps = code_points (suc (length str)) str in
      let d1 = if toggle then (tap_key usb 0 keys.num_lock d).1 else d in
      let typed = type_loop usb keys (suc (length str)) mode str (0, d1) in
      let d3 = if toggle then (tap_key usb 0 keys.num_lock typed.1).1 else typed.1 in
      let loop =
        string-Delivers usb ready takes keys numpad hex chars (suc (length str)) mode str 0 d1
          refl in
      let locks = lock_presses keys numpad hex chars toggle in
      let text = all_strokes keys numpad hex chars true mode cps in
      let then_ = then-Delivers usb ready takes in
      let end = usb_hid_device_send_release usb d3 in
      let tail =
        then_ typed.1 d3 end locks ((0, 0) ∷ []) (lock_delivers toggle typed.1)
          (release-Delivers usb ready takes d3) in
      let from_text = then_ d1 typed.1 end text (locks ++ ((0, 0) ∷ [])) loop.1 tail in
      let whole =
        then_ d d1 end locks (text ++ (locks ++ ((0, 0) ∷ []))) (lock_delivers toggle d)
          from_text in
      rw h (loop.0, whole.1)

  -- A host with a US keyboard that reads numbers on the keypad has the key codes that this device sends,
  -- TinyUSB is ready and takes every report, and no key is down; Num Lock is as the host reported it, or
  -- on where the host reported nothing. Then typing any text in any mode succeeds, and the host reads
  -- exactly the text's characters; what the mode cannot
  -- type is left out: control characters but the line feed; as keys, what is not ASCII; as codes, what
  -- the code page lacks. Afterwards no key is down and Num Lock is as before.
  pub usb_hid_device_type_string-arrives :
      IsLayout keys numpad hex chars
      → (str : List ℕ) (mode : ℕ) (num_lock : Bool) (d : Device)
      → All (λ cp. cp < 2 ^ 32) (code_points (suc (length str)) str)
      → (d.leds_valid && (bit_and d.host_leds keys.led_num_lock == 0)) ≡ not num_lock
      → (ps : List (ℕ × ℕ)) × Delivers d (usb_hid_device_type_string usb keys str mode d) ps
        × (run keys numpad hex chars ps (rest num_lock) ≡ (
          rest num_lock,
          all_seen keys numpad hex chars true mode (code_points (suc (length str)) str),
        ))
  usb_hid_device_type_string-arrives layout str mode num_lock d wide leds =
      let cps = code_points (suc (length str)) str in
      let toggle = any_by_number mode cps && not num_lock in
      (
        presses keys numpad hex chars layout true toggle mode cps,
        typed-Delivers str mode toggle d (rw (needs_numpad-any str mode, leds) refl),
        typed_run keys numpad hex chars layout true num_lock mode cps wide,
      )
