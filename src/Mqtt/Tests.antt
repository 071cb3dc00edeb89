-- ===== src/Mqtt/Tests.antt =====
-- A manager that listens to the topic `ab`, over a flash without settings.
use bluepass.Common.{◌&&◌, ◌||◌, bytes_eq, ◌≡◌, refl, true, false, none, [], ◌∷◌, if◌then◌else◌}
use bluepass.Storage.Working.{Flash, working}
use bluepass.Storage.Settings.{storage_get_mqtt_broker}
use bluepass.Mqtt.{
  Mqtt, MqttInSlot, on_connected, on_wifi_connected, on_wifi_disconnected, mqtt_mgr_init,
  mqtt_mgr_reload, mqtt_event_handler,
}
use bluepass.Mqtt.Lifecycle.{IsSound, wanted, mqtt_mgr-IsSound}

abbrev empty : Flash
empty = λ k. none

abbrev slot : MqttInSlot
slot = record {
  active = true;
  topic = 97 ∷ 98 ∷ 0 ∷ 120 ∷ [];
  match_value = 49 ∷ 0 ∷ [];
  modifiers = 0;
  keycode = 4;
}

abbrev start : Mqtt
start = record { client = false; connected = false; broker = []; out_slots = []; in_slots = [] }

abbrev running : Mqtt
running = record {
  client = true;
  connected = true;
  broker = 0 ∷ 1 ∷ 109 ∷ 0 ∷ [];
  out_slots = [];
  in_slots = slot ∷ [];
}

running-IsSound : IsSound running
running-IsSound = record { runs = λ t. refl; up = λ t. refl }

mqtt_mgr-IsSound_example :
    IsSound (mqtt_mgr_init working empty start)
    × IsSound (on_wifi_connected false running).0
    × IsSound (on_wifi_disconnected running).0
    × IsSound (mqtt_mgr_reload working false false empty running).0
    × IsSound (if true then (mqtt_event_handler on_connected running).0 else running)
    × ((mqtt_mgr_reload working true false empty running).0.client ≡ (
        wanted (storage_get_mqtt_broker working empty).1
        && (false
            || (running.client
                && bytes_eq (storage_get_mqtt_broker working empty).1 running.broker))))
mqtt_mgr-IsSound_example =
    mqtt_mgr-IsSound working false false empty start running on_connected refl refl running-IsSound
