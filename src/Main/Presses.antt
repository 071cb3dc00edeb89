-- ===== src/Main/Presses.antt =====
-- A press of the button of main/main.c from the interrupt to what the task does.
use bluepass.Common.{ℕ, ◌-◌, ◌≤◌, ◌≡◌, Bool, false, none, List, [], ◌∷◌, ltb, if◌then◌else◌, arith}
use bluepass.UserPresence.{Up, fido2_confirm_up}
use bluepass.Main.{
  Button, ButtonAct, clear_wifi_creds, start_ap, start_web_ui, stop_web_ui_async, long_press_us,
  btn_isr, btn_long_press_cb, elapse, btn_task,
}

-- The button goes down, is held, and goes up; then the task runs.
abbrev pub pressed : ℕ → ℕ → Bool → Button × Up → (Button × Up) × List ButtonAct
pressed down up_at web_ui (b, up) =
    btn_task web_ui (btn_isr 1 up_at (elapse up_at (btn_isr 0 down b)), up)

-- A button that is up and whose presses the task has taken.
abbrev pub IsIdle : Button → Type 0
IsIdle b = (b.due ≡ none) × (b.evt_short ≡ false) × (b.evt_long ≡ false)

-- A press of an idle button does one thing: below ten seconds it confirms a FIDO2 request that waits,
-- or else switches the web interface; from ten seconds on it forgets the WLAN and starts the access
-- point and the web interface, and confirms nothing. The button is idle again.
pressed_lem :
    (down up_at : ℕ) (web_ui : Bool) (b : Button) (up : Up)
    → down ≤ up_at
    → IsIdle b
    → let ((b', up'), acts) = pressed down up_at web_ui (b, up) in
      let is_short = ltb (up_at - down) long_press_us in
      IsIdle b'
      × (up' ≡ (if is_short then fido2_confirm_up up else up))
      × (acts ≡ (
          if is_short
          then (if up.up_pending
              then []
              else if web_ui
              then stop_web_ui_async ∷ []
              else start_web_ui ∷ [])
          else clear_wifi_creds ∷ start_ap ∷ start_web_ui ∷ []))
unfolding btn_isr btn_long_press_cb elapse btn_task fido2_confirm_up
pressed_lem down up_at web_ui b up after (off, no_short, no_long) = (
  (ground (arith, off), ground (arith, off), ground (arith, off)),
  ground (arith, off, no_short, no_long),
  ground (arith, off, no_short, no_long),
)
