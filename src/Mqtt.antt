-- ===== src/Mqtt.antt =====
-- components/mqtt_mgr/mqtt_mgr.c: the slots, the life of the client, and the match of reports and of
-- messages. The client library of ESP-IDF is what it is told, a list of calls; a key that a message
-- presses is a report among them.
pub mod Lifecycle
pub mod Incoming
mod Tests
use bluepass.Common.{
  ℕ, zero, suc, ◌+◌, Bool, true, false, not, ◌&&◌, ◌||◌, Option, none, some, List, [], ◌∷◌, ◌++◌,
  ◌==◌, if◌then◌else◌, get_or, take, drop, replicate, bytes_eq,
}
use bluepass.Storage.{Nvs}
use bluepass.Storage.Settings.{storage_get_mqtt_broker}
use bluepass.Storage.Slots.{
  storage_get_mqtt_out_slot, storage_get_mqtt_in_slot, mqtt_slots_max, mqtt_slot_size,
}
use bluepass.HidReport.{KeyboardReport, HidReport, contains_key, c_string, single_key, released}

-- The structs without their labels. A text is the memory from its field on.
pub record MqttOutSlot : Type 0 where
  pub active : Bool
  pub modifiers : ℕ
  pub keycode : ℕ
  pub topic : List ℕ
  pub value : List ℕ

pub record MqttInSlot : Type 0 where
  pub active : Bool
  pub topic : List ℕ
  pub match_value : List ℕ
  pub modifiers : ℕ
  pub keycode : ℕ

abbrev pub bytes_out : List ℕ → MqttOutSlot
bytes_out b = record {
  active = not (get_or b 0 0 == 0);
  modifiers = get_or b 1 0;
  keycode = get_or b 2 0;
  topic = drop 3 b;
  value = drop 131 b;
}

abbrev pub bytes_in : List ℕ → MqttInSlot
bytes_in b = record {
  active = not (get_or b 0 0 == 0);
  topic = drop 1 b;
  match_value = drop 129 b;
  modifiers = get_or b 257 0;
  keycode = get_or b 258 0;
}

-- The fields of `mqtt_broker_config_t`, which is kept as its 230 bytes.
abbrev pub out_enabled : List ℕ → Bool
out_enabled b = not (get_or b 0 0 == 0)

abbrev pub in_enabled : List ℕ → Bool
in_enabled b = not (get_or b 1 0 == 0)

abbrev pub broker_url : List ℕ → List ℕ
broker_url b = drop 2 b

abbrev pub username : List ℕ → List ℕ
username b = drop 102 b

abbrev pub password : List ℕ → List ℕ
password b = drop 166 b

-- What is called: the client, with its address and its credentials, and the keyboard.
pub data Call : Type 0 where
  start : List ℕ → Option (List ℕ × List ℕ) → Call
  stop : Call
  subscribe : List ℕ → Call
  publish : List ℕ → List ℕ → Call
  press : KeyboardReport → Call

-- The static state; `client` is whether `s_client` is set.
pub record Mqtt : Type 0 where
  pub client : Bool
  pub connected : Bool
  pub broker : List ℕ
  pub out_slots : List MqttOutSlot
  pub in_slots : List MqttInSlot

module _ {S : Type 0} (nvs : Nvs S) where
  -- The slot that was read, or zeros.
  abbrev pub or_zeros : ℕ × Option (List ℕ) → List ℕ
  or_zeros (err, written) =
      let zeros = replicate mqtt_slot_size 0 in
      if err == 0 then elim written [ none ↦ zeros | some b ↦ b ] else zeros

  pub load_out : S → ℕ → ℕ → List MqttOutSlot
  load_out s zero i = []
  load_out s (suc rounds) i =
      bytes_out (or_zeros (storage_get_mqtt_out_slot nvs i s)) ∷ load_out s rounds (i + 1)

  pub load_in : S → ℕ → ℕ → List MqttInSlot
  load_in s zero i = []
  load_in s (suc rounds) i =
      bytes_in (or_zeros (storage_get_mqtt_in_slot nvs i s)) ∷ load_in s rounds (i + 1)

  pub load_slots : S → Mqtt → Mqtt
  load_slots s m = record m {
    out_slots = load_out s mqtt_slots_max 0;
    in_slots = load_in s mqtt_slots_max 0;
  }

pub subscribe_all : List MqttInSlot → List Call
subscribe_all [] = []
subscribe_all (s ∷ ss) =
    let rest = subscribe_all ss in
    if s.active && not (get_or s.topic 0 0 == 0) then subscribe (c_string s.topic) ∷ rest else rest

-- `strncmp(a, b, n) == 0`
pub strncmp_eq : List ℕ → List ℕ → ℕ → Bool
strncmp_eq a b zero = true
strncmp_eq [] [] (suc n) = true
strncmp_eq [] (y ∷ ys) (suc n) = y == 0
strncmp_eq (x ∷ xs) [] (suc n) = x == 0
strncmp_eq (x ∷ xs) (y ∷ ys) (suc n) =
    let rest = strncmp_eq xs ys n in (x == y) && ((x == 0) || rest)

-- The text of a slot is what came in, `len` bytes of it.
pub text_matches : List ℕ → List ℕ → ℕ → Bool
text_matches text bytes len = strncmp_eq text bytes len && (get_or text len 0 == 0)

pub in_matches : List ℕ → ℕ → List ℕ → ℕ → MqttInSlot → Bool
in_matches topic topic_len payload payload_len s =
    s.active
    && not (get_or s.topic 0 0 == 0)
    && not (s.keycode == 0)
    && text_matches s.topic topic topic_len
    && ((get_or s.match_value 0 0 == 0) || text_matches s.match_value payload payload_len)

-- Each slot that a message is for presses its key and lets it go.
pub handle_incoming : List ℕ → ℕ → List ℕ → ℕ → List MqttInSlot → List Call
handle_incoming topic topic_len payload payload_len [] = []
handle_incoming topic topic_len payload payload_len (s ∷ ss) =
    let rest = handle_incoming topic topic_len payload payload_len ss in
    if in_matches topic topic_len payload payload_len s
    then press (single_key s.modifiers s.keycode) ∷ press released ∷ rest
    else rest

-- The events of the client that the handler distinguishes.
pub data MqttEvent : Type 0 where
  on_connected : MqttEvent
  on_disconnected : MqttEvent
  on_data : List ℕ → ℕ → List ℕ → ℕ → MqttEvent
  other : MqttEvent

pub mqtt_event_handler : MqttEvent → Mqtt → Mqtt × List Call
mqtt_event_handler on_connected m = (record m { connected = true }, subscribe_all m.in_slots)
mqtt_event_handler on_disconnected m = (record m { connected = false }, [])
mqtt_event_handler (on_data topic topic_len payload payload_len) m = (
  m,
  if in_enabled m.broker
      then handle_incoming topic topic_len payload payload_len m.in_slots
      else [],
)
mqtt_event_handler other m = (m, [])

pub credentials : List ℕ → Option (List ℕ × List ℕ)
credentials b =
    if get_or (username b) 0 0 == 0
    then none
    else some (c_string (username b), c_string (password b))

-- `created`: `esp_mqtt_client_init` gives a client. Without one `s_client` stays NULL, which the calls
-- behind it refuse.
pub on_wifi_connected : Bool → Mqtt → Mqtt × List Call
on_wifi_connected created m =
    if not (out_enabled m.broker) && not (in_enabled m.broker)
    then (m, [])
    else if get_or (broker_url m.broker) 0 0 == 0
    then (m, [])
    else if m.client
    then (m, [])
    else if not created
    then (m, [])
    else (
      record m { client = true },
      start (c_string (broker_url m.broker)) (credentials m.broker) ∷ [],
    )

pub on_wifi_disconnected : Mqtt → Mqtt × List Call
on_wifi_disconnected m =
    if not m.client then (m, []) else (record m { client = false; connected = false }, stop ∷ [])

-- Two steps, one after the other.
abbrev pub then_also : Mqtt × List Call → (Mqtt → Mqtt × List Call) → Mqtt × List Call
then_also (m, calls) f = let (m', more) = f m in (m', calls ++ more)

module _ {S : Type 0} (nvs : Nvs S) where
  pub mqtt_mgr_init : S → Mqtt → Mqtt
  mqtt_mgr_init s m = load_slots nvs s (record m { broker = (storage_get_mqtt_broker nvs s).1 })

  -- `wifi_up`: `esp_wifi_sta_get_ap_info` answers ESP_OK; `created` as above.
  pub mqtt_mgr_reload : Bool → Bool → S → Mqtt → Mqtt × List Call
  mqtt_mgr_reload wifi_up created s m =
      let broker = (storage_get_mqtt_broker nvs s).1 in
      let changed = not (bytes_eq broker m.broker) in
      let m' = record (load_slots nvs s m) { broker = broker } in
      let enabled = out_enabled broker || in_enabled broker in
      if changed && m'.client
      then then_also (on_wifi_disconnected m')
          (λ n. if wifi_up then on_wifi_connected created n else (n, []))
      else if not m'.client && enabled
      then (if wifi_up then on_wifi_connected created m' else (m', []))
      else if m'.client && not (out_enabled broker) && not (in_enabled broker)
      then on_wifi_disconnected m'
      else if m'.client && in_enabled broker
      then (m', subscribe_all m'.in_slots)
      else (m', [])

pub mqtt_mgr_is_connected : Mqtt → Bool
mqtt_mgr_is_connected m = m.connected

pub out_matches : HidReport → MqttOutSlot → Bool
out_matches r s =
    s.active
    && not (s.keycode == 0)
    && not (get_or s.topic 0 0 == 0)
    && (r.keyboard.modifier == s.modifiers)
    && contains_key s.keycode r.keyboard.keycode

pub out_loop : HidReport → List MqttOutSlot → Bool × List Call
out_loop r [] = (false, [])
out_loop r (s ∷ ss) =
    let (matched, calls) = out_loop r ss in
    if out_matches r s
    then (true, publish (c_string s.topic) (c_string s.value) ∷ calls)
    else (matched, calls)

pub mqtt_mgr_out_dispatch : HidReport → Mqtt → Bool × List Call
mqtt_mgr_out_dispatch r m =
    if not (out_enabled m.broker) || not m.client || not m.connected
    then (false, [])
    else if not (r.consumer_code == 0)
    then (false, [])
    else out_loop r m.out_slots
