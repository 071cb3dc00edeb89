-- ===== src/UsbHidDevice/Errors.antt =====
-- A report of components/usb_hid_device/usb_hid_device.c where TinyUSB answers as it likes.
use bluepass.Common.{
  ℕ, zero, suc, ◌+◌, ◌*◌, ◌≤◌, ◌≡◌, refl, ◌∙◌, ◌⊎◌, Bool, true, false, inl, inr, List, [], ◌∷◌,
  ◌++◌, if◌then◌else◌, arith, Bool-cases,
}
use bluepass.HidReport.{KeyboardReport}
use bluepass.UsbHidDevice.{
  Sent, keyboard, Usb, Device, ready_loop, wait_hid_ready, tud_report, kbd_loop, kbd_report,
  usb_hid_device_send_report, esp_err_invalid_state,
}

-- Waiting hands over nothing, and asks at most so often.
IsWait : ℕ → Device → Bool × Device → Type 0
IsWait rounds d r = (r.1.sent ≡ d.sent) × (r.1.reports ≡ d.reports) × (r.1.polls ≤ d.polls + rounds)

-- The report was handed over once if it says so, and otherwise not.
IsReport : ℕ → Sent → Device → Bool × Device → Type 0
IsReport attempts s d r =
    (r.1.sent ≡ (if r.0 then d.sent ++ (s ∷ []) else d.sent))
    × (r.1.reports ≤ d.reports + attempts)
    × (r.1.polls ≤ d.polls + attempts * 10)

module _ (usb : Usb) where
  ready-IsWait : (rounds : ℕ) (d : Device) → IsWait rounds d (ready_loop usb rounds d)
  unfolding ready_loop IsWait
  ready-IsWait zero d = (refl, refl, omega arith)
  ready-IsWait (suc rounds) d =
      ground (arith, ready-IsWait rounds (record d { polls = d.polls + 1 }))

  -- One attempt: the wait, and the report where the endpoint is ready.
  try-IsReport :
      (s : Sent) (d : Device)
      → let (ready, d1) = wait_hid_ready usb d in
        IsReport 1 s d (if ready then tud_report usb s d1 else (false, d1))
  unfolding IsReport wait_hid_ready tud_report IsWait
  try-IsReport s d = ground (arith, ready-IsWait 10 d)

  again-IsReport :
      (attempts : ℕ) (s : Sent) (d : Device) (first later : Bool × Device)
      → IsReport 1 s d first
      → IsReport attempts s first.1 later
      → IsReport (suc attempts) s d (if first.0 then (true, first.1) else later)
  unfolding IsReport
  again-IsReport attempts s d first later u v = elim (Bool-cases first.0) [
    | inl taken ↦ rw taken (u.0 ∙ rw taken refl, omega (arith, u), omega (arith, u))
    | inr refused ↦
        rw refused (v.0 ∙ rw (u.0, refused) refl, omega (arith, u, v), omega (arith, u, v))
  ]

  loop-IsReport :
      (attempts modifier : ℕ) (keys : List ℕ) (d : Device)
      → IsReport attempts (keyboard modifier keys) d (kbd_loop usb attempts modifier keys d)
  unfolding kbd_loop IsReport
  loop-IsReport zero modifier keys d = (refl, omega arith, omega arith)
  loop-IsReport (suc attempts) modifier keys d =
      let (ready, d1) = wait_hid_ready usb d in
      let first = if ready then tud_report usb (keyboard modifier keys) d1 else (false, d1) in
      again-IsReport attempts (keyboard modifier keys) d first
        (kbd_loop usb attempts modifier keys first.1) (try-IsReport (keyboard modifier keys) d)
        (loop-IsReport attempts modifier keys first.1)

  -- However TinyUSB answers, sending a report asks it at most thirty times whether it is ready and
  -- hands over at most three times. Exactly where it answers ESP_OK was the report taken, once; where
  -- it answers ESP_ERR_INVALID_STATE, nothing was.
  usb_hid_device_send_report-taken :
      (r : KeyboardReport) (d : Device)
      → let (err, d') = usb_hid_device_send_report usb r d in
        ((err ≡ 0) × (d'.sent ≡ d.sent ++ (keyboard r.modifier r.keycode ∷ []))
          ⊎ (err ≡ esp_err_invalid_state) × (d'.sent ≡ d.sent))
        × (d'.reports ≤ d.reports + 3)
        × (d'.polls ≤ d.polls + 30)
  unfolding usb_hid_device_send_report kbd_report IsReport
  usb_hid_device_send_report-taken r d = ground (arith, loop-IsReport 3 r.modifier r.keycode d)
