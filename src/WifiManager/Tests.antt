-- ===== src/WifiManager/Tests.antt =====
-- A board with a WS2812 whose web interface runs during a loss of the connection, and one that gives
-- up.
use bluepass.Common.{
  ◌-◌, ◌+◌, ◌≡◌, refl, min, true, false, none, List, [], ◌∷◌, leb, if◌then◌else◌, arith,
}
use bluepass.WifiManager.{max_retry, scale, connected, disconnected, black, Board, absent, Wifi}
use bluepass.WifiManager.Radio.{
  sta_start, sta_got_ip, sta_disconnected, BoardConfig, wifi_manager_init,
}
use bluepass.WifiManager.Led.{IsShown}
use bluepass.WifiManager.Led.Events.{
  LedEvent, radio, web_ui, substitution, fido2, blink_due, pulse_due, happen_all,
  happen_all-IsShown_from_init,
}
use bluepass.WifiManager.Retries.{disconnects, connects, disconnects_lem}

abbrev unset : Board
unset = record {
  led_type = 1;
  brightness = 20;
  led_strip = false;
  simple_gpio = none;
  simple_active_high = true;
}

abbrev linked : Wifi
linked = record {
  board = unset;
  state = connected;
  retry_count = 0;
  has_state_cb = false;
  led_timer = absent;
  pulse_timer = absent;
  lit = none;
  led_on = false;
  blink = black;
  web_ui_active = false;
  jiggler_active = false;
  fido2_pending = false;
  time_synced = false;
  sntp_started = false;
}

abbrev ws2812 : BoardConfig
ws2812 = record { led_type = 1; rgb_brightness = 20; simple_gpio = 0; simple_active_high = 1 }

abbrev day : List LedEvent
day =
    radio sta_start
    ∷ blink_due
    ∷ radio sta_got_ip
    ∷ substitution
    ∷ fido2 true
    ∷ pulse_due
    ∷ fido2 false
    ∷ radio sta_disconnected
    ∷ web_ui true
    ∷ []

happen_all-IsShown_from_init_example :
    IsShown (happen_all day (wifi_manager_init ws2812 0 0 true linked).0.1)
happen_all-IsShown_from_init_example = happen_all-IsShown_from_init day ws2812 0 true linked

disconnects_lem_example :
    (connects (disconnects 6 linked).1 ≡ min 6 (max_retry - 0))
    × ((disconnects 6 linked).0.retry_count ≡ min max_retry (0 + 6))
    × ((disconnects 6 linked).0.state ≡ (if leb 6 (max_retry - 0) then connected else disconnected))
disconnects_lem_example = disconnects_lem 6 linked (omega arith)

-- 6 of 100 is dark, and so is the 4 that stands in for a brightness out of range.
dark_at_six : scale 6 255 ≡ 0
unfolding scale
dark_at_six = refl
