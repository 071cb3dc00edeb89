-- ===== src/WifiManager/Radio.antt =====
-- components/wifi_manager/wifi_manager.c: the station, the access point, the clock, and what the
-- other parts tell the LED. What is called of ESP-IDF is a list of calls; the network's name and
-- password are not followed.
use bluepass.Common.{
  ℕ, ◌+◌, ◌^◌, Bool, true, false, not, ◌&&◌, none, some, List, [], ◌∷◌, ◌++◌, ltb, leb, ◌==◌,
  if◌then◌else◌,
}
use bluepass.WifiManager.{
  max_retry, led_pulse_us, led_type_rgb, WifiState, is_connected, black, Board, blue, white, stop,
  start_once, Wifi, led_set, led_apply, disconnected, connecting, connected, ap_mode, idle,
}

-- What is called of the radio, of the clock and of the callback.
pub data WifiCall : Type 0 where
  wifi_connect : WifiCall
  wifi_start_sta : WifiCall
  wifi_start_ap : WifiCall
  wifi_stop : WifiCall
  set_fail_bit : WifiCall
  set_connected_bit : WifiCall
  state_cb : WifiState → WifiCall
  sntp_init : WifiCall
  sntp_restart : WifiCall

unfoldable pub set_state : WifiState → Wifi → Wifi × List WifiCall
set_state state w =
    (led_apply (record w { state = state }), if w.has_state_cb then state_cb state ∷ [] else [])

unfoldable pub wifi_manager_sync_time : Wifi → Wifi × List WifiCall
wifi_manager_sync_time w =
    if w.sntp_started
    then (w, sntp_restart ∷ [])
    else (record w { sntp_started = true }, sntp_init ∷ [])

pub data WifiEvent : Type 0 where
  sta_start : WifiEvent
  sta_disconnected : WifiEvent
  sta_got_ip : WifiEvent
  other : WifiEvent

unfoldable pub wifi_event_handler : WifiEvent → Wifi → Wifi × List WifiCall
wifi_event_handler sta_start w =
    let (w', calls) = set_state connecting w in (w', wifi_connect ∷ calls)
wifi_event_handler sta_disconnected w =
    let (w', calls) = set_state disconnected w in
    if ltb w.retry_count max_retry
    then (record w { retry_count = w.retry_count + 1 }, wifi_connect ∷ [])
    else (w', set_fail_bit ∷ calls)
wifi_event_handler sta_got_ip w =
    let (w1, told) = set_state connected (record w { retry_count = 0 }) in
    let (w2, synced) = wifi_manager_sync_time w1 in (w2, set_connected_bit ∷ (told ++ synced))
wifi_event_handler other w = (w, [])

-- The fields of `board_config_t` that are read; the pin is a signed number of 32 bits.
pub record BoardConfig : Type 0 where
  pub led_type : ℕ
  pub rgb_brightness : ℕ
  pub simple_gpio : ℕ
  pub simple_active_high : ℕ

-- `strip_err` is what the driver of the strip answers, `wifi_err` what `esp_wifi_init` does, and
-- `has_creds` whether the flash has credentials.
unfoldable pub wifi_manager_init : BoardConfig → ℕ → ℕ → Bool → Wifi → (ℕ × Wifi) × List WifiCall
wifi_manager_init cfg strip_err wifi_err has_creds w =
    let is_rgb = cfg.led_type == led_type_rgb in
    let board : Board = record {
      led_type = cfg.led_type;
      brightness =
          if ltb 0 cfg.rgb_brightness && leb cfg.rgb_brightness 100 then cfg.rgb_brightness else 4;
      led_strip = if is_rgb then strip_err == 0 else w.board.led_strip;
      simple_gpio = if ltb cfg.simple_gpio (2 ^ 31) then some cfg.simple_gpio else none;
      simple_active_high = not (cfg.simple_active_high == 0);
    } in
    let dark = led_set black (record w { board = board }) in
    let ready = led_apply (record dark { led_timer = idle; pulse_timer = idle }) in
    if wifi_err == 0
    then ((0, ready), if has_creds then wifi_start_sta ∷ [] else [])
    else ((wifi_err, dark), [])

unfoldable pub wifi_manager_start_ap : Wifi → Wifi × List WifiCall
wifi_manager_start_ap w = let (w', calls) = set_state ap_mode w in (w', wifi_start_ap ∷ calls)

unfoldable pub wifi_manager_stop_ap : Wifi → Wifi × List WifiCall
wifi_manager_stop_ap w = let (w', calls) = set_state disconnected w in (w', wifi_stop ∷ calls)

pub sntp_sync_cb : Wifi → Wifi
sntp_sync_cb w = record w { time_synced = true }

pub wifi_manager_get_state : Wifi → WifiState
wifi_manager_get_state w = w.state

pub wifi_manager_is_connected : Wifi → Bool
wifi_manager_is_connected w = is_connected w.state

pub wifi_manager_is_time_synced : Wifi → Bool
wifi_manager_is_time_synced w = w.time_synced

pub wifi_manager_set_state_cb : Bool → Wifi → Wifi
wifi_manager_set_state_cb registered w = record w { has_state_cb = registered }

unfoldable pub wifi_manager_led_on : Wifi → Wifi
wifi_manager_led_on w =
    let stopped = record w {
      web_ui_active = true;
      led_timer = stop w.led_timer;
      pulse_timer = stop w.pulse_timer;
    } in
    record (led_set (blue w.board) stopped) { led_on = true }

unfoldable pub wifi_manager_led_off : Wifi → Wifi
wifi_manager_led_off w = led_apply (record w { web_ui_active = false })

unfoldable pub wifi_manager_set_jiggler_active : Bool → Wifi → Wifi
wifi_manager_set_jiggler_active active w = led_apply (record w { jiggler_active = active })

unfoldable pub wifi_manager_led_blink_once : Wifi → Wifi
wifi_manager_led_blink_once w =
    let stopped = record w { led_timer = stop w.led_timer } in
    let shown = record (led_set (white w.board) stopped) {
      led_on = true;
      pulse_timer = start_once led_pulse_us (stop w.pulse_timer);
    } in
    if w.web_ui_active then w else shown

unfoldable pub wifi_manager_set_fido2_pending : Bool → Wifi → Wifi
wifi_manager_set_fido2_pending pending w = led_apply (record w { fido2_pending = pending })
