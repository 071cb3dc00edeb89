-- ===== src/Mqtt/Lifecycle.antt =====
-- When the client of components/mqtt_mgr/mqtt_mgr.c runs.
use bluepass.Common.{
  ℕ, ◌≡◌, Bool, true, false, not, ◌&&◌, ◌||◌, List, ◌==◌, bytes_eq, if◌then◌else◌, get_or, arith,
  if_split, bytes_eq_iff,
}
use bluepass.Storage.{Nvs}
use bluepass.Storage.Settings.{storage_get_mqtt_broker}
use bluepass.Mqtt.{
  Mqtt, MqttEvent, on_connected, on_disconnected, on_data, other, out_enabled, in_enabled,
  broker_url, load_slots, on_wifi_connected, on_wifi_disconnected, mqtt_mgr_init, mqtt_mgr_reload,
  mqtt_event_handler,
}

-- A broker is configured, and one direction at least is switched on.
abbrev pub wanted : List ℕ → Bool
wanted broker =
    (out_enabled broker || in_enabled broker) && not (get_or (broker_url broker) 0 0 == 0)

-- The client runs only where it is wanted, and is connected only while it runs.
pub record IsSound (m : Mqtt) : Type 0 where
  pub runs : m.client ≡ true → wanted m.broker ≡ true
  pub up : m.connected ≡ true → m.client ≡ true

connected-IsSound :
    (created : Bool) (m : Mqtt) → IsSound m → IsSound (on_wifi_connected created m).0
unfolding on_wifi_connected
connected-IsSound created m v = record { runs = ground (arith, v.runs); up = ground (arith, v.up) }

disconnected-IsSound : (m : Mqtt) → IsSound m → IsSound (on_wifi_disconnected m).0
unfolding on_wifi_disconnected
disconnected-IsSound m v = record { runs = ground (arith, v.runs); up = ground (arith, v.up) }

-- The library sends the events of connecting only for a client that runs.
event-IsSound :
    (m : Mqtt) (e : MqttEvent) → m.client ≡ true → IsSound m → IsSound (mqtt_event_handler e m).0
unfolding mqtt_event_handler
event-IsSound m on_connected running v = record { runs = v.runs; up = λ t. running }
event-IsSound m on_disconnected running v = record { runs = v.runs; up = ground arith }
event-IsSound m (on_data t n p k) running v = v
event-IsSound m other running v = v

module _ {S : Type 0} (nvs : Nvs S) where
  reload-IsSound :
      (wifi_up created : Bool) (s : S) (m : Mqtt)
      → IsSound m
      → IsSound (mqtt_mgr_reload nvs wifi_up created s m).0
  unfolding mqtt_mgr_reload on_wifi_connected on_wifi_disconnected load_slots
  reload-IsSound wifi_up created s m v = record {
    runs = ground (arith, v.runs, bytes_eq_iff (storage_get_mqtt_broker nvs s).1 m.broker);
    up = ground (arith, v.up);
  }

  -- From a start with no client, and from every sound state over every event of the WLAN, reload of
  -- the settings and event of a client that runs, whether a client can be created or not, the client
  -- runs only where a broker and a direction are configured, and counts as connected only while it
  -- runs. With the WLAN up, a client is there behind a reload exactly where it is wanted by the
  -- settings that were read and could be created, or was there before with the same settings.
  pub mqtt_mgr-IsSound :
      (wifi_up created : Bool) (s : S) (start m : Mqtt) (e : MqttEvent)
      → start.client ≡ false
      → start.connected ≡ false
      → IsSound m
      → IsSound (mqtt_mgr_init nvs s start)
        × IsSound (on_wifi_connected created m).0
        × IsSound (on_wifi_disconnected m).0
        × IsSound (mqtt_mgr_reload nvs wifi_up created s m).0
        × IsSound (if m.client then (mqtt_event_handler e m).0 else m)
        × ((mqtt_mgr_reload nvs true created s m).0.client ≡ (
            wanted (storage_get_mqtt_broker nvs s).1
            && (created || (m.client && bytes_eq (storage_get_mqtt_broker nvs s).1 m.broker))))
  unfolding mqtt_mgr_init mqtt_mgr_reload on_wifi_connected on_wifi_disconnected load_slots
  mqtt_mgr-IsSound wifi_up created s start m e idle silent v = (
    record { runs = ground (arith, idle); up = ground (arith, silent) },
    connected-IsSound created m v,
    disconnected-IsSound m v,
    reload-IsSound wifi_up created s m v,
    if_split IsSound m.client _ _ (λ running. event-IsSound m e running v) (λ t. v),
    ground (arith, v.runs, bytes_eq_iff (storage_get_mqtt_broker nvs s).1 m.broker),
  )
