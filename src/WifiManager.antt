-- ===== src/WifiManager.antt =====
-- components/wifi_manager/wifi_manager.c: the state and the LED, which is what it was set to last. A
-- timer of ESP-IDF is the delay it was started with, if it runs.
pub mod Radio
pub mod Led
pub mod Retries
mod Tests
use bluepass.Common.{
  ℕ, ◌+◌, ◌*◌, ◌/◌, ◌%◌, ◌^◌, Bool, true, false, not, ◌&&◌, Option, none, some, List, [], ◌∷◌, ◌++◌,
  ltb, leb, ◌==◌, if◌then◌else◌,
}

abbrev pub max_retry : ℕ
max_retry = 5

abbrev pub led_fast_us : ℕ
led_fast_us = 100 * 1000

abbrev pub led_jig_on_us : ℕ
led_jig_on_us = 200 * 1000

abbrev pub led_jig_off_us : ℕ
led_jig_off_us = 2800 * 1000

abbrev pub led_pulse_us : ℕ
led_pulse_us = 150 * 1000

-- BOARD_LED_TYPE_RGB and BOARD_LED_TYPE_SIMPLE
abbrev pub led_type_rgb : ℕ
led_type_rgb = 1

abbrev pub led_type_simple : ℕ
led_type_simple = 2

-- `uint8_t` and `uint32_t` arithmetic.
pub scale : ℕ → ℕ → ℕ
scale s_brightness v =
    let linear = s_brightness * 255 / 100 in
    let pwm = linear * linear / 255 in (v * pwm / 255) % 256

pub data WifiState : Type 0 where
  disconnected : WifiState
  connecting : WifiState
  connected : WifiState
  ap_mode : WifiState

pub is_connected : WifiState → Bool
is_connected disconnected = false
is_connected connecting = false
is_connected connected = true
is_connected ap_mode = false

-- Red, green, blue.
abbrev pub Rgb : Type 0
Rgb = ℕ × ℕ × ℕ

abbrev pub black : Rgb
black = (0, 0, 0)

-- `led_strip_clear`, `led_strip_set_pixel` with its refresh, and `gpio_set_level`.
pub data LedCall : Type 0 where
  clear : LedCall
  pixel : Rgb → LedCall
  level : ℕ → ℕ → LedCall

-- What `wifi_manager_init` fixes: the type, the brightness, whether there is a strip, the pin.
pub record Board : Type 0 where
  pub led_type : ℕ
  pub brightness : ℕ
  pub led_strip : Bool
  pub simple_gpio : Option ℕ
  pub simple_active_high : Bool

abbrev pub blue : Board → Rgb
blue b = (scale b.brightness 0, scale b.brightness 0, scale b.brightness 255)

abbrev pub amber : Board → Rgb
amber b = (scale b.brightness 255, scale b.brightness 80, scale b.brightness 0)

abbrev pub red : Board → Rgb
red b = (scale b.brightness 255, scale b.brightness 0, scale b.brightness 0)

abbrev pub green : Board → Rgb
green b = (scale b.brightness 0, scale b.brightness 255, scale b.brightness 0)

abbrev pub white : Board → Rgb
white b = (scale b.brightness 255, scale b.brightness 255, scale b.brightness 255)

pub data Timer : Type 0 where
  absent : Timer
  idle : Timer
  armed : ℕ → Timer

-- `esp_timer_stop`, which does nothing to a timer that is not there or does not run, and
-- `esp_timer_start_once`, which fails on a timer that runs.
abbrev pub stop : Timer → Timer
stop absent = absent
stop idle = idle
stop (armed us) = idle

abbrev pub start_once : ℕ → Timer → Timer
start_once us absent = absent
start_once us idle = armed us
start_once us (armed old) = armed old

-- The static state. `lit` is the last call for the LED, `blink` is `s_blink_r`, `s_blink_g` and
-- `s_blink_b`.
pub record Wifi : Type 0 where
  pub board : Board
  pub state : WifiState
  pub retry_count : ℕ
  pub has_state_cb : Bool
  pub led_timer : Timer
  pub pulse_timer : Timer
  pub lit : Option LedCall
  pub led_on : Bool
  pub blink : Rgb
  pub web_ui_active : Bool
  pub jiggler_active : Bool
  pub fido2_pending : Bool
  pub time_synced : Bool
  pub sntp_started : Bool

abbrev pub is_black : Rgb → Bool
is_black (r, g, b) = (r == 0) && (g == 0) && (b == 0)

-- What `led_set` calls.
pub led_call : Board → Rgb → Option LedCall
led_call board c =
    if board.led_type == led_type_rgb
    then (if not board.led_strip then none else some (if is_black c then clear else pixel c))
    else if board.led_type == led_type_simple
    then elim board.simple_gpio [
      | none ↦ none
      | some pin ↦ some (
          level pin (
            if board.simple_active_high
            then (if is_black c then 0 else 1)
            else if is_black c
            then 1
            else 0))
    ]
    else none

abbrev pub or_last : Option LedCall → Option LedCall → Option LedCall
or_last none last = last
or_last (some call) last = some call

pub led_set : Rgb → Wifi → Wifi
led_set c w = record w { lit = or_last (led_call w.board c) w.lit }

-- Dark, and the timer for the next toggle.
abbrev pub start_blinking : Rgb → ℕ → Wifi → Wifi
start_blinking c us w =
    let off = led_set black (record w { blink = c; led_on = false }) in
    record off { led_timer = start_once us off.led_timer }

-- Behind the check that the timer is there.
pub led_apply_with : Wifi → Wifi
led_apply_with w =
    let stopped = record w { led_timer = stop w.led_timer } in
    if w.web_ui_active
    then record (led_set (blue w.board) stopped) { led_on = true }
    else if w.fido2_pending
    then record (led_set (amber w.board) stopped) { led_on = true }
    else if not (is_connected w.state)
    then start_blinking (red w.board) led_fast_us stopped
    else if w.jiggler_active
    then start_blinking (green w.board) led_jig_off_us stopped
    else record (led_set black stopped) { led_on = false }

pub led_apply : Wifi → Wifi
led_apply w = elim w.led_timer [
  | absent ↦ w
  | idle ↦ led_apply_with w
  | armed us ↦ led_apply_with w
]

pub led_blink_cb : Wifi → Wifi
led_blink_cb w =
    let on = not w.led_on in
    let toggled = led_set (if on then w.blink else black) (record w { led_on = on }) in
    if w.web_ui_active
    then record (led_set (blue w.board) w) { led_on = true }
    else if w.jiggler_active && is_connected w.state
    then record toggled {
      led_timer = start_once (if on then led_jig_on_us else led_jig_off_us) w.led_timer;
    }
    else if not (is_connected w.state)
    then record toggled { led_timer = start_once led_fast_us w.led_timer }
    else toggled

pub led_pulse_end_cb : Wifi → Wifi
led_pulse_end_cb w = led_apply w
