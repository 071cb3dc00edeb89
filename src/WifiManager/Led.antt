-- ===== src/WifiManager/Led.antt =====
-- The LED of components/wifi_manager/wifi_manager.c against the table of priorities in its comment.
pub mod Events
use bluepass.Common.{
  ℕ, ◌≡◌, refl, sym, ap, ◌∙◌, Bool, true, false, not, ◌&&◌, ◌⊎◌, inl, inr, Option, none, some, List,
  [], ◌∷◌, if◌then◌else◌, arith, ltb, ◌+◌, if_either, if_split,
}
use bluepass.WifiManager.{
  led_fast_us, led_jig_on_us, led_jig_off_us, led_pulse_us, WifiState, disconnected, connecting,
  connected, ap_mode, is_connected, Rgb, black, LedCall, Board, blue, amber, red, green, white,
  Timer, absent, idle, armed, stop, start_once, Wifi, led_call, or_last, led_set, start_blinking,
  led_apply_with, led_apply, led_blink_cb, led_pulse_end_cb, max_retry,
}
use bluepass.WifiManager.Radio.{
  WifiCall, set_state, wifi_manager_sync_time, WifiEvent, sta_start, sta_disconnected, sta_got_ip,
  other, wifi_event_handler, BoardConfig, wifi_manager_init, wifi_manager_start_ap,
  wifi_manager_stop_ap, sntp_sync_cb, wifi_manager_set_state_cb, wifi_manager_led_on,
  wifi_manager_led_off, wifi_manager_set_jiggler_active, wifi_manager_led_blink_once,
  wifi_manager_set_fido2_pending,
}

-- What the LED is to show: a colour, a colour for a time and dark for another, or nothing.
pub data Pattern : Type 0 where
  solid : Rgb → Pattern
  blinking : Rgb → ℕ → ℕ → Pattern
  dark : Pattern

-- The table of priorities.
pub pattern : Wifi → Pattern
pattern w =
    if w.web_ui_active
    then solid (blue w.board)
    else if w.fido2_pending
    then solid (amber w.board)
    else if not (is_connected w.state)
    then blinking (red w.board) led_fast_us led_fast_us
    else if w.jiggler_active
    then blinking (green w.board) led_jig_on_us led_jig_off_us
    else dark

-- Where the board has an LED, it was set to this colour last.
pub IsLit : Rgb → Board → Option LedCall → Type 0
IsLit c board lit = (call : LedCall) → led_call board c ≡ some call → lit ≡ some call

-- The LED and its timer follow a pattern: the next toggle is due after the time that the pattern
-- gives to what is shown.
pub IsFollowing : Pattern → Wifi → Type 0
IsFollowing (solid c) w = IsLit c w.board w.lit × (w.led_timer ≡ idle)
IsFollowing (blinking c on_us off_us) w =
    IsLit (if w.led_on then c else black) w.board w.lit
    × (w.blink ≡ c)
    × (w.led_timer ≡ armed (if w.led_on then on_us else off_us))
IsFollowing dark w = IsLit black w.board w.lit × (w.led_timer ≡ idle)

-- The flash of a substitution, until its timer is due.
pub IsFlashing : Wifi → Type 0
IsFlashing w =
    IsLit (white w.board) w.board w.lit
    × (w.led_timer ≡ idle)
    × (w.pulse_timer ≡ armed led_pulse_us)
    × (w.web_ui_active ≡ false)

pub record IsShown (w : Wifi) : Type 0 where
  pub follows : IsFollowing (pattern w) w ⊎ IsFlashing w
  pub pulse_there : stop w.pulse_timer ≡ idle
  pub web_ui_quiet : w.web_ui_active ≡ true → w.pulse_timer ≡ idle

pub set-IsLit :
    (c : Rgb) (board : Board) (last : Option LedCall)
    → IsLit c board (or_last (led_call board c) last)
unfolding IsLit
set-IsLit c board last call h = rw h refl

show : Pattern → Wifi → Wifi
show (solid c) w = record (led_set c (record w { led_timer = idle })) { led_on = true }
show (blinking c on_us off_us) w = start_blinking c off_us (record w { led_timer = idle })
show dark w = record (led_set black (record w { led_timer = idle })) { led_on = false }

apply-show : (w : Wifi) → stop w.led_timer ≡ idle → led_apply_with w ≡ show (pattern w) w
unfolding led_apply_with pattern show led_set
apply-show w h = ground (arith, h)

show-IsShown :
    (p : Pattern) (w : Wifi)
    → pattern w ≡ p
    → stop w.pulse_timer ≡ idle
    → (w.web_ui_active ≡ true → w.pulse_timer ≡ idle)
    → IsShown (show p w)
unfolding show IsFollowing led_set pattern
show-IsShown (solid c) w e there quiet = record {
  follows = inl (rw e (set-IsLit c w.board w.lit, refl));
  pulse_there = there;
  web_ui_quiet = quiet;
}
show-IsShown (blinking c on_us off_us) w e there quiet = record {
  follows = inl (rw e (set-IsLit black w.board w.lit, refl, refl));
  pulse_there = there;
  web_ui_quiet = quiet;
}
show-IsShown dark w e there quiet = record {
  follows = inl (rw e (set-IsLit black w.board w.lit, refl));
  pulse_there = there;
  web_ui_quiet = quiet;
}

apply-apply_with : (w : Wifi) → stop w.led_timer ≡ idle → led_apply w ≡ led_apply_with w
unfolding led_apply
apply-apply_with w h = ground (arith, h)

pub apply-IsShown :
    (w : Wifi)
    → stop w.led_timer ≡ idle
    → stop w.pulse_timer ≡ idle
    → (w.web_ui_active ≡ true → w.pulse_timer ≡ idle)
    → IsShown (led_apply w)
apply-IsShown w led there quiet =
    rw (apply-apply_with w led, apply-show w led) (show-IsShown (pattern w) w refl there quiet)

pattern-blinking :
    (w : Wifi) (c : Rgb) (on_us off_us : ℕ)
    → pattern w ≡ blinking c on_us off_us
    → (w.web_ui_active ≡ false)
      × ((is_connected w.state ≡ false) × (on_us ≡ led_fast_us) × (off_us ≡ led_fast_us)
          ⊎ (is_connected w.state ≡ true)
            × (w.jiggler_active ≡ true)
            × (on_us ≡ led_jig_on_us)
            × (off_us ≡ led_jig_off_us))
unfolding pattern
pattern-blinking w c on_us off_us h = ground (arith, h)

-- The other half of a blinking pattern, and the time it is shown for.
toggle : ℕ → ℕ → Wifi → Wifi
toggle on_us off_us w =
    let on = not w.led_on in
    record (led_set (if on then w.blink else black) (record w { led_on = on })) {
      led_timer = armed (if on then on_us else off_us);
    }

blink-toggle :
    (w : Wifi) (c : Rgb) (on_us off_us : ℕ)
    → pattern w ≡ blinking c on_us off_us
    → led_blink_cb (record w { led_timer = idle }) ≡ toggle on_us off_us w
unfolding led_blink_cb toggle led_set
blink-toggle w c on_us off_us e = ground (arith, pattern-blinking w c on_us off_us e)

toggle-IsFollowing :
    (w : Wifi) (c : Rgb) (on_us off_us : ℕ)
    → w.blink ≡ c
    → IsFollowing (blinking c on_us off_us) (toggle on_us off_us w)
unfolding IsFollowing toggle led_set
toggle-IsFollowing w c on_us off_us h =
    (rw h (set-IsLit (if not w.led_on then c else black) w.board w.lit), h, refl)

pattern-toggle : (w : Wifi) (on_us off_us : ℕ) → pattern (toggle on_us off_us w) ≡ pattern w
unfolding pattern toggle led_set
pattern-toggle w on_us off_us = refl

-- A timer that runs shows that a pattern blinks.
armed-blinks :
    (p : Pattern) (w : Wifi) (us : ℕ)
    → IsFollowing p w
    → w.led_timer ≡ armed us
    → (c : Rgb) × (on_us : ℕ) × (off_us : ℕ) × (p ≡ blinking c on_us off_us) × (w.blink ≡ c)
unfolding IsFollowing
armed-blinks (solid c) w us f h = absurd (ground (arith, f.1, h))
armed-blinks (blinking c on_us off_us) w us f h = (c, on_us, off_us, refl, f.1)
armed-blinks dark w us f h = absurd (ground (arith, f.1, h))

pub blink-IsShown :
    (w : Wifi) (us : ℕ)
    → w.led_timer ≡ armed us
    → IsShown w
    → IsShown (led_blink_cb (record w { led_timer = idle }))
unfolding toggle led_set IsFlashing
blink-IsShown w us h v = elim v.follows [
  | inl f ↦
      let (c, on_us, off_us, e, hue) = armed-blinks (pattern w) w us f h in
      rw (blink-toggle w c on_us off_us e) record {
        follows =
            inl (rw (pattern-toggle w on_us off_us, e) (toggle-IsFollowing w c on_us off_us hue));
        pulse_there = v.pulse_there;
        web_ui_quiet = v.web_ui_quiet;
      }
  | inr f ↦ absurd (ground (arith, f.1, h))
]

following_there : (p : Pattern) (w : Wifi) → IsFollowing p w → stop w.led_timer ≡ idle
unfolding IsFollowing
following_there (solid c) w f = rw f.1 refl
following_there (blinking c on_us off_us) w f = rw f.2 refl
following_there dark w f = rw f.1 refl

pub shown_there : (w : Wifi) → IsShown w → stop w.led_timer ≡ idle
unfolding IsFlashing
shown_there w v = elim v.follows [ inl f ↦ following_there (pattern w) w f | inr f ↦ rw f.1 refl ]
