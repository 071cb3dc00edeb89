-- ===== src/Main/Tests.antt =====
-- Presses of one and of twelve seconds.
use bluepass.Common.{◌≡◌, refl, true, false, none, [], ◌∷◌}
use bluepass.UserPresence.{Up}
use bluepass.Main.{
  Button, clear_wifi_creds, start_ap, start_web_ui, btn_isr, btn_long_press_cb, elapse, btn_task,
}
use bluepass.Main.Presses.{pressed}

abbrev idle : Button
idle = record { press_us = 0; due = none; evt_short = false; evt_long = false }

abbrev no_request : Up
no_request = record { up_sem = false; up_pending = false }

long_press :
    (pressed 5 12000005 true (idle, no_request)).1 ≡ clear_wifi_creds ∷ start_ap ∷ start_web_ui ∷ []
unfolding btn_isr btn_long_press_cb elapse btn_task
long_press = refl
