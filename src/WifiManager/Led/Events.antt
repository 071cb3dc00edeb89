-- ===== src/WifiManager/Led/Events.antt =====
-- The LED of components/wifi_manager/wifi_manager.c through sequences of events.
use bluepass.Common.{
  ℕ, ◌≡◌, refl, Bool, true, false, inl, inr, List, [], ◌∷◌, if◌then◌else◌, arith, ltb, ◌+◌,
  if_either, if_split,
}
use bluepass.WifiManager.{
  WifiState, disconnected, connecting, connected, ap_mode, blue, white, Timer, absent, idle, armed,
  stop, Wifi, led_set, led_blink_cb, led_pulse_end_cb, max_retry,
}
use bluepass.WifiManager.Radio.{
  WifiCall, set_state, wifi_manager_sync_time, WifiEvent, sta_start, sta_disconnected, sta_got_ip,
  other, wifi_event_handler, BoardConfig, wifi_manager_init, wifi_manager_start_ap,
  wifi_manager_stop_ap, wifi_manager_led_on, wifi_manager_led_off, wifi_manager_set_jiggler_active,
  wifi_manager_led_blink_once, wifi_manager_set_fido2_pending,
}
use bluepass.WifiManager.Led.{
  Pattern, solid, blinking, dark, pattern, IsFollowing, IsFlashing, IsShown, set-IsLit,
  apply-IsShown, blink-IsShown, shown_there,
}

-- What happens to the LED: an event of the radio, a call of the interface, or a timer that is due.
pub data LedEvent : Type 0 where
  radio : WifiEvent → LedEvent
  ap_starts : LedEvent
  ap_stops : LedEvent
  web_ui : Bool → LedEvent
  jiggler : Bool → LedEvent
  substitution : LedEvent
  fido2 : Bool → LedEvent
  blink_due : LedEvent
  pulse_due : LedEvent

-- A timer calls back only if it runs, and does not run any more then.
elapsed : Timer → Wifi → Wifi → Wifi
elapsed absent w called = w
elapsed idle w called = w
elapsed (armed us) w called = called

pub happen : LedEvent → Wifi → Wifi
happen (radio e) w = (wifi_event_handler e w).0
happen ap_starts w = (wifi_manager_start_ap w).0
happen ap_stops w = (wifi_manager_stop_ap w).0
happen (web_ui active) w = if active then wifi_manager_led_on w else wifi_manager_led_off w
happen (jiggler active) w = wifi_manager_set_jiggler_active active w
happen substitution w = wifi_manager_led_blink_once w
happen (fido2 pending) w = wifi_manager_set_fido2_pending pending w
happen blink_due w = elapsed w.led_timer w (led_blink_cb (record w { led_timer = idle }))
happen pulse_due w = elapsed w.pulse_timer w (led_pulse_end_cb (record w { pulse_timer = idle }))

pub happen_all : List LedEvent → Wifi → Wifi
happen_all [] w = w
happen_all (e ∷ es) w = happen_all es (happen e w)

-- The count of retries and the clock are not shown.
counters_follow :
    (p : Pattern) (w : Wifi) (retries : ℕ) (started : Bool)
    → IsFollowing p w
    → IsFollowing p (record w { retry_count = retries; sntp_started = started })
unfolding IsFollowing
counters_follow (solid c) w retries started f = f
counters_follow (blinking c on_us off_us) w retries started f = f
counters_follow dark w retries started f = f

counters-IsShown :
    (w : Wifi) (retries : ℕ) (started : Bool)
    → IsShown w
    → IsShown (record w { retry_count = retries; sntp_started = started })
unfolding pattern IsFlashing
counters-IsShown w retries started v = record {
  follows = elim v.follows [
    | inl f ↦ inl (counters_follow (pattern w) w retries started f)
    | inr f ↦ inr f
  ];
  pulse_there = v.pulse_there;
  web_ui_quiet = v.web_ui_quiet;
}

state-IsShown : (state : WifiState) (w : Wifi) → IsShown w → IsShown (set_state state w).0
unfolding set_state
state-IsShown state w v =
    apply-IsShown (record w { state = state }) (shown_there w v) v.pulse_there v.web_ui_quiet

sync-IsShown : (w : Wifi) → IsShown w → IsShown (wifi_manager_sync_time w).0
unfolding wifi_manager_sync_time
sync-IsShown w v =
    let P : Wifi × List WifiCall → Type 0 = λ r. IsShown r.0 in
    if_either P w.sntp_started _ _ v (counters-IsShown w w.retry_count true v)

radio-IsShown : (e : WifiEvent) (w : Wifi) → IsShown w → IsShown (wifi_event_handler e w).0
unfolding wifi_event_handler
radio-IsShown sta_start w v = state-IsShown connecting w v
radio-IsShown sta_disconnected w v =
    let P : Wifi × List WifiCall → Type 0 = λ r. IsShown r.0 in
    if_either P (ltb w.retry_count max_retry) _ _
      (counters-IsShown w (w.retry_count + 1) w.sntp_started v) (state-IsShown disconnected w v)
radio-IsShown sta_got_ip w v =
    sync-IsShown _ (state-IsShown connected _ (counters-IsShown w 0 w.sntp_started v))
radio-IsShown other w v = v

off-quiet : (w : Wifi) → false ≡ true → w.pulse_timer ≡ idle
off-quiet w h = absurd (ground (arith, h))

stop-stop : (t : Timer) → stop t ≡ idle → stop (stop t) ≡ idle
stop-stop t h = rw h refl

led_on-IsShown : (w : Wifi) → IsShown w → IsShown (wifi_manager_led_on w)
unfolding wifi_manager_led_on pattern IsFollowing led_set
led_on-IsShown w v = record {
  follows = inl (set-IsLit (blue w.board) w.board w.lit, shown_there w v);
  pulse_there = stop-stop w.pulse_timer v.pulse_there;
  web_ui_quiet = λ _. v.pulse_there;
}

blink_once-IsShown : (w : Wifi) → IsShown w → IsShown (wifi_manager_led_blink_once w)
unfolding wifi_manager_led_blink_once IsFlashing led_set
blink_once-IsShown w v =
    if_split IsShown w.web_ui_active _ _ (λ _. v)
      λ off. record {
        follows =
            inr (
              set-IsLit (white w.board) w.board w.lit,
              shown_there w v,
              rw v.pulse_there refl,
              off,
            );
        pulse_there = rw v.pulse_there refl;
        web_ui_quiet = λ on. absurd (ground (arith, on, off));
      }

elapsed-IsShown :
    (t : Timer) (w called : Wifi)
    → IsShown w
    → ((us : ℕ) → t ≡ armed us → IsShown called)
    → IsShown (elapsed t w called)
unfolding elapsed
elapsed-IsShown absent w called v h = v
elapsed-IsShown idle w called v h = v
elapsed-IsShown (armed us) w called v h = h us refl

happen-IsShown : (e : LedEvent) (w : Wifi) → IsShown w → IsShown (happen e w)
unfolding happen wifi_manager_start_ap wifi_manager_stop_ap wifi_manager_led_off
    wifi_manager_set_jiggler_active wifi_manager_set_fido2_pending led_pulse_end_cb
happen-IsShown (radio e) w v = radio-IsShown e w v
happen-IsShown ap_starts w v = state-IsShown ap_mode w v
happen-IsShown ap_stops w v = state-IsShown disconnected w v
happen-IsShown (web_ui active) w v = if_either IsShown active _ _ (led_on-IsShown w v) (
    apply-IsShown (record w { web_ui_active = false }) (shown_there w v) v.pulse_there
      (off-quiet w))
happen-IsShown (jiggler active) w v =
    apply-IsShown (record w { jiggler_active = active }) (shown_there w v) v.pulse_there
      v.web_ui_quiet
happen-IsShown substitution w v = blink_once-IsShown w v
happen-IsShown (fido2 pending) w v =
    apply-IsShown (record w { fido2_pending = pending }) (shown_there w v) v.pulse_there
      v.web_ui_quiet
happen-IsShown blink_due w v = elapsed-IsShown w.led_timer w _ v λ us h. blink-IsShown w us h v
happen-IsShown pulse_due w v =
    elapsed-IsShown w.pulse_timer w _ v λ us h. apply-IsShown _ (shown_there w v) refl (λ _. refl)

happen_all-IsShown : (es : List LedEvent) (w : Wifi) → IsShown w → IsShown (happen_all es w)
unfolding happen_all
happen_all-IsShown [] w v = v
happen_all-IsShown (e ∷ es) w v = happen_all-IsShown es (happen e w) (happen-IsShown e w v)

-- Whatever was set before, from the start of the radio on, and through any sequence of events of the
-- radio, of calls from the web interface, the jiggler, a substitution and FIDO2, and of timers that
-- are due, the LED shows what the table of priorities says: blue while the web interface runs, amber
-- while a FIDO2 request waits, red blinking without a connection, a green flash every three seconds
-- while the jiggler runs, and otherwise nothing. The one exception is the white flash of a
-- substitution, for whose end the timer runs, and which never shows while the web interface runs.
pub happen_all-IsShown_from_init :
    (es : List LedEvent) (cfg : BoardConfig) (strip_err : ℕ) (has_creds : Bool) (w : Wifi)
    → IsShown (happen_all es (wifi_manager_init cfg strip_err 0 has_creds w).0.1)
unfolding wifi_manager_init
happen_all-IsShown_from_init es cfg strip_err has_creds w =
    happen_all-IsShown es _ (apply-IsShown _ refl refl (λ _. refl))
