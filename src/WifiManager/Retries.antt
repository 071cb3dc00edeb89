-- ===== src/WifiManager/Retries.antt =====
-- How components/wifi_manager/wifi_manager.c answers a connection that is lost again and again.
use bluepass.Common.{
  ℕ, zero, suc, ◌+◌, ◌-◌, ◌≤◌, ◌<◌, ◌≡◌, ◌⊎◌, min, inl, inr, List, [], ◌∷◌, ◌++◌, leb,
  if◌then◌else◌, arith,
}
use bluepass.WifiManager.{max_retry, disconnected, Wifi, led_apply, led_apply_with, led_set}
use bluepass.WifiManager.Radio.{
  WifiCall, wifi_connect, set_state, sta_disconnected, wifi_event_handler,
}

-- The connection is lost so many times without an address in between.
pub disconnects : ℕ → Wifi → Wifi × List WifiCall
disconnects zero w = (w, [])
disconnects (suc n) w =
    let (w', calls) = wifi_event_handler sta_disconnected w in
    let (w'', more) = disconnects n w' in (w'', calls ++ more)

-- How often the radio is asked to connect.
pub connects : List WifiCall → ℕ
connects [] = 0
connects (c ∷ cs) = let rest = connects cs in elim c [ wifi_connect ↦ rest + 1 | _ ↦ rest ]

connects-append : (xs ys : List WifiCall) → connects (xs ++ ys) ≡ connects xs + connects ys
unfolding connects
connects-append [] ys = omega arith
connects-append (x ∷ xs) ys = ground (arith, connects-append xs ys)

apply_keeps :
    (w : Wifi) → ((led_apply w).retry_count ≡ w.retry_count) × ((led_apply w).state ≡ w.state)
unfolding led_apply led_apply_with led_set
apply_keeps w = ground arith

-- One loss: a retry while some are left, then giving up.
lost :
    (w : Wifi)
    → (w.retry_count < max_retry)
        × ((wifi_event_handler sta_disconnected w).0.retry_count ≡ w.retry_count + 1)
        × ((wifi_event_handler sta_disconnected w).0.state ≡ w.state)
        × (connects (wifi_event_handler sta_disconnected w).1 ≡ 1)
      ⊎ (max_retry ≤ w.retry_count)
        × ((wifi_event_handler sta_disconnected w).0.retry_count ≡ w.retry_count)
        × ((wifi_event_handler sta_disconnected w).0.state ≡ disconnected)
        × (connects (wifi_event_handler sta_disconnected w).1 ≡ 0)
unfolding wifi_event_handler set_state connects
lost w = ground (arith, apply_keeps (record w { state = disconnected }))

-- After the fifth retry in a row the device asks no more for a connection, however often the loss
-- is reported; it asks once for each loss before, and only then, at the loss that finds no retry
-- left, does the state become DISCONNECTED. Through the retries it stays what it was, a lost
-- connection CONNECTED.
pub disconnects_lem :
    (n : ℕ) (w : Wifi)
    → w.retry_count ≤ max_retry
    → (connects (disconnects n w).1 ≡ min n (max_retry - w.retry_count))
      × ((disconnects n w).0.retry_count ≡ min max_retry (w.retry_count + n))
      × ((disconnects n w).0.state
          ≡ (if leb n (max_retry - w.retry_count) then w.state else disconnected))
unfolding disconnects connects
disconnects_lem zero w h = ground arith
disconnects_lem (suc n) w h =
    let first = wifi_event_handler sta_disconnected w in
    elim (lost w) [
      | inl again ↦ ground (
        arith,
        connects-append first.1 (disconnects n first.0).1,
        disconnects_lem n first.0 (omega (arith, again)),
      )
      | inr over ↦ ground (
        arith,
        connects-append first.1 (disconnects n first.0).1,
        disconnects_lem n first.0 (omega (arith, over)),
      )
    ]
