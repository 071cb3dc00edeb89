-- ===== src/Storage/Settings.antt =====
-- The single settings of components/storage/storage.c: the WLAN credentials, the jiggler, the
-- Bluetooth peer, the board, the MQTT broker, the webhook switch and the connection mode. Each
-- function gets the NVS of its own namespace. A struct is its bytes.
pub mod RoundTrip
use bluepass.Common.{
  ℕ, ◌+◌, ◌%◌, Bool, true, false, not, ◌&&◌, List, [], ◌∷◌, ◌++◌, ◌==◌, leb, if◌then◌else◌, length,
  take, drop, replicate,
}
use Prim.Native.String.{String}
use bluepass.Storage.{Nvs, NvsKey, named, write_and_commit}
use bluepass.Storage.Slots.{read_zeroed, erase_and_commit}

abbrev pub wifi_creds_size : ℕ
wifi_creds_size = 98

abbrev pub jiggler_config_size : ℕ
jiggler_config_size = 12

abbrev pub ble_peer_size : ℕ
ble_peer_size = 39

abbrev pub board_config_size : ℕ
board_config_size = 24

abbrev pub mqtt_broker_config_size : ℕ
mqtt_broker_config_size = 230

-- `board_config_defaults`, little-endian, the padding zeros.
abbrev pub board_config_defaults : List ℕ
board_config_defaults =
    0 ∷ 0 ∷ 0 ∷ 0 ∷ 1 ∷ 0 ∷ 0 ∷ 0 ∷ 48 ∷ 0 ∷ 0 ∷ 0 ∷ 20 ∷ 0 ∷ 0 ∷ 0 ∷ 255 ∷ 255 ∷ 255 ∷ 255 ∷ 1 ∷ 0
    ∷ 0 ∷ 0 ∷ []

-- CONN_MODE_BT_USB, CONN_MODE_BT_BT, CONN_MODE_USB_BT
abbrev pub conn_mode_bt_usb : ℕ
conn_mode_bt_usb = 0

abbrev pub conn_mode_usb_bt : ℕ
conn_mode_usb_bt = 2

module _ {S : Type 0} (nvs : Nvs S) where
  -- `nvs_get_blob` into the caller's struct, which holds `old` before and is not zeroed.
  pub read_over : S → NvsKey → ℕ → List ℕ → ℕ × List ℕ
  read_over s key size old =
      let (err, b) = nvs.get_blob s key size in
      if nvs.open_readonly s == 0
      then (err, if err == 0 then b ++ drop (length b) old else old)
      else (nvs.open_readonly s, old)

  pub write_setting : S → String → List ℕ → ℕ × S
  write_setting s key value = write_and_commit nvs s (λ t. nvs.set_blob t (named key) value)

  pub storage_get_wifi_creds : S → List ℕ → ℕ × List ℕ
  storage_get_wifi_creds s old = read_over s (named "creds") wifi_creds_size old

  pub storage_set_wifi_creds : S → List ℕ → ℕ × S
  storage_set_wifi_creds s creds = write_setting s "creds" creds

  pub storage_clear_wifi_creds : S → ℕ × S
  storage_clear_wifi_creds s = erase_and_commit nvs s (named "creds")

  -- `tmp` is the uninitialised struct on the stack.
  pub storage_has_wifi_creds : S → List ℕ → Bool
  storage_has_wifi_creds s tmp = (storage_get_wifi_creds s tmp).0 == 0

  pub storage_get_jiggler_config : S → List ℕ → ℕ × List ℕ
  storage_get_jiggler_config s old = read_over s (named "cfg") jiggler_config_size old

  pub storage_set_jiggler_config : S → List ℕ → ℕ × S
  storage_set_jiggler_config s cfg = write_setting s "cfg" cfg

  pub storage_get_ble_peer : S → List ℕ → ℕ × List ℕ
  storage_get_ble_peer s old = read_over s (named "peer") ble_peer_size old

  pub storage_set_ble_peer : S → List ℕ → ℕ × S
  storage_set_ble_peer s peer = write_setting s "peer" peer

  pub storage_clear_ble_peer : S → ℕ × S
  storage_clear_ble_peer s = erase_and_commit nvs s (named "peer")

  -- A blob shorter than the struct leaves the bytes of `tmp` behind it.
  pub storage_get_board_config : S → List ℕ → ℕ × List ℕ
  storage_get_board_config s tmp =
      let (err, b) = nvs.get_blob s (named "cfg") board_config_size in
      if nvs.open_readonly s == 0
      then (0, if err == 0 then b ++ drop (length b) tmp else board_config_defaults)
      else (0, board_config_defaults)

  pub storage_set_board_config : S → List ℕ → ℕ × S
  storage_set_board_config s cfg = write_setting s "cfg" cfg

  -- The error of the read is ignored.
  pub storage_get_mqtt_broker : S → ℕ × List ℕ
  storage_get_mqtt_broker s =
      let zeros = replicate mqtt_broker_config_size 0 in
      let (err, b) = nvs.get_blob s (named "broker") mqtt_broker_config_size in
      if nvs.open_readonly s == 0
      then (0, if err == 0 then b ++ drop (length b) zeros else zeros)
      else (0, zeros)

  pub storage_set_mqtt_broker : S → List ℕ → ℕ × S
  storage_set_mqtt_broker s cfg = write_setting s "broker" cfg

  -- A failing `nvs_get_u8` leaves `v` at 0.
  pub storage_get_webhook_enabled : S → ℕ × Bool
  storage_get_webhook_enabled s =
      let (err, v) = nvs.get_u8 s (named "en") in
      if nvs.open_readonly s == 0 then (0, if err == 0 then not (v == 0) else false) else (0, false)

  pub storage_set_webhook_enabled : S → Bool → ℕ × S
  storage_set_webhook_enabled s enabled =
      write_and_commit nvs s (λ t. nvs.set_u8 t (named "en") (if enabled then 1 else 0))

  -- A number that is no mode gives the default.
  unfoldable pub storage_get_connection_mode : S → ℕ × ℕ
  storage_get_connection_mode s =
      let (err, v) = nvs.get_u8 s (named "mode") in
      if nvs.open_readonly s == 0
      then (0, if err == 0 && leb v conn_mode_usb_bt then v else conn_mode_bt_usb)
      else (0, conn_mode_bt_usb)

  pub storage_set_connection_mode : S → ℕ → ℕ × S
  storage_set_connection_mode s mode =
      write_and_commit nvs s (λ t. nvs.set_u8 t (named "mode") (mode % 256))
