-- ===== src/Storage/Slots.antt =====
-- The numbered slots of components/storage/storage.c: hotkeys, webhooks, MQTT topics and resident
-- keys. Each function gets the NVS of its own namespace. A struct is its bytes, and the second
-- result of a read is the caller's struct where the function writes it.
pub mod Arrays
pub mod Hotkeys
pub mod Frames
use bluepass.Common.{
  ℕ, ◌+◌, ◌-◌, Bool, true, false, Option, none, some, List, [], ◌∷◌, ◌++◌, ◌==◌, leb, if◌then◌else◌,
  length, take, drop, replicate,
}
use Prim.Native.String.{String}
use bluepass.Storage.{Nvs, NvsKey, named, numbered, write_and_commit, esp_err_nvs_not_found}

abbrev pub esp_err_invalid_arg : ℕ
esp_err_invalid_arg = 0x102

abbrev pub hotkey_slots_max : ℕ
hotkey_slots_max = 32

abbrev pub webhook_slots_max : ℕ
webhook_slots_max = 4

abbrev pub mqtt_slots_max : ℕ
mqtt_slots_max = 4

abbrev pub fido2_rk_max : ℕ
fido2_rk_max = 8

-- The sizes of the structs, padding included.
abbrev pub hotkey_slot_size : ℕ
hotkey_slot_size = 172

abbrev pub webhook_slot_size : ℕ
webhook_slot_size = 299

abbrev pub mqtt_slot_size : ℕ
mqtt_slot_size = 291

abbrev pub fido2_rk_size : ℕ
fido2_rk_size = 276

module _ {S : Type 0} (nvs : Nvs S) where
  -- `nvs_get_blob` into a struct that was zeroed, and `nvs_close`. `closed` is the answer where the
  -- namespace cannot be opened.
  unfoldable pub read_zeroed : S → NvsKey → ℕ → ℕ → ℕ × Option (List ℕ)
  read_zeroed s key size closed =
      let (err, b) = nvs.get_blob s key size in
      if nvs.open_readonly s == 0
      then (err, some (if err == 0 then take size (b ++ replicate size 0) else replicate size 0))
      else (closed, some (replicate size 0))

  -- `nvs_erase_key`, where a missing key is no error, and `nvs_commit`.
  pub erase_and_commit : S → NvsKey → ℕ × S
  erase_and_commit s key =
      let (err, t) = nvs.erase_key s key in
      let err' = if err == esp_err_nvs_not_found then 0 else err in
      if nvs.open_readwrite s == 0
      then (if err' == 0 then nvs.commit t else (err', t))
      else (nvs.open_readwrite s, s)

  unfoldable pub slot_get : ℕ → String → ℕ → ℕ → ℕ → S → ℕ × Option (List ℕ)
  slot_get limit prefix size closed idx s =
      if leb limit idx
      then (esp_err_invalid_arg, none)
      else read_zeroed s (numbered prefix idx) size closed

  unfoldable pub slot_set : ℕ → String → ℕ → List ℕ → S → ℕ × S
  slot_set limit prefix idx slot s =
      if leb limit idx
      then (esp_err_invalid_arg, s)
      else write_and_commit nvs s (λ t. nvs.set_blob t (numbered prefix idx) slot)

  pub slot_delete : ℕ → String → ℕ → S → ℕ × S
  slot_delete limit prefix idx s =
      if leb limit idx then (esp_err_invalid_arg, s) else erase_and_commit s (numbered prefix idx)

  pub storage_get_hotkey_slot : ℕ → S → ℕ × Option (List ℕ)
  storage_get_hotkey_slot index s =
      slot_get hotkey_slots_max "s" hotkey_slot_size (nvs.open_readonly s) index s

  pub storage_set_hotkey_slot : ℕ → List ℕ → S → ℕ × S
  storage_set_hotkey_slot index slot s = slot_set hotkey_slots_max "s" index slot s

  -- The struct with its payload, the bytes 8 to 135, overwritten.
  abbrev pub scrubbed : List ℕ → ℕ → List ℕ
  scrubbed slot byte = take 8 slot ++ (replicate 128 byte ++ drop 136 slot)

  -- One pass over the payload: the errors are ignored.
  pub scrub : S → NvsKey → List ℕ → ℕ → S
  scrub s key slot byte = (nvs.commit (nvs.set_blob s key (scrubbed slot byte)).1).1

  -- A slot that can be read is overwritten twice before it is erased. A blob shorter than the
  -- struct leaves the stack's bytes, `stack`, behind it.
  pub storage_delete_hotkey_slot : List ℕ → ℕ → S → ℕ × S
  storage_delete_hotkey_slot stack index s =
      let key = numbered "s" index in
      let (err, b) = nvs.get_blob s key hotkey_slot_size in
      let slot = b ++ drop (length b) stack in
      let clean = if err == 0 then scrub (scrub s key slot 0) key slot 0xff else s in
      if leb hotkey_slots_max index
      then (esp_err_invalid_arg, s)
      else if nvs.open_readwrite s == 0
      then erase_and_commit clean key
      else (nvs.open_readwrite s, s)

  pub storage_get_webhook_slot : ℕ → S → ℕ × Option (List ℕ)
  storage_get_webhook_slot idx s =
      slot_get webhook_slots_max "w" webhook_slot_size esp_err_nvs_not_found idx s

  pub storage_set_webhook_slot : ℕ → List ℕ → S → ℕ × S
  storage_set_webhook_slot idx slot s = slot_set webhook_slots_max "w" idx slot s

  pub storage_delete_webhook_slot : ℕ → S → ℕ × S
  storage_delete_webhook_slot idx s = slot_delete webhook_slots_max "w" idx s

  pub mqtt_slot_get : String → ℕ → S → ℕ × Option (List ℕ)
  mqtt_slot_get prefix idx s =
      slot_get mqtt_slots_max prefix mqtt_slot_size esp_err_nvs_not_found idx s

  pub mqtt_slot_set : String → ℕ → List ℕ → S → ℕ × S
  mqtt_slot_set prefix idx data_ s = slot_set mqtt_slots_max prefix idx data_ s

  pub mqtt_slot_del : String → ℕ → S → ℕ × S
  mqtt_slot_del prefix idx s = slot_delete mqtt_slots_max prefix idx s

  pub storage_get_mqtt_out_slot : ℕ → S → ℕ × Option (List ℕ)
  storage_get_mqtt_out_slot idx s = mqtt_slot_get "o" idx s

  pub storage_set_mqtt_out_slot : ℕ → List ℕ → S → ℕ × S
  storage_set_mqtt_out_slot idx slot s = mqtt_slot_set "o" idx slot s

  pub storage_delete_mqtt_out_slot : ℕ → S → ℕ × S
  storage_delete_mqtt_out_slot idx s = mqtt_slot_del "o" idx s

  pub storage_get_mqtt_in_slot : ℕ → S → ℕ × Option (List ℕ)
  storage_get_mqtt_in_slot idx s = mqtt_slot_get "i" idx s

  pub storage_set_mqtt_in_slot : ℕ → List ℕ → S → ℕ × S
  storage_set_mqtt_in_slot idx slot s = mqtt_slot_set "i" idx slot s

  pub storage_delete_mqtt_in_slot : ℕ → S → ℕ × S
  storage_delete_mqtt_in_slot idx s = mqtt_slot_del "i" idx s

  unfoldable pub storage_get_fido2_rk : ℕ → S → ℕ × Option (List ℕ)
  storage_get_fido2_rk idx s = slot_get fido2_rk_max "rk" fido2_rk_size esp_err_nvs_not_found idx s

  unfoldable pub storage_set_fido2_rk : ℕ → List ℕ → S → ℕ × S
  storage_set_fido2_rk idx rk s = slot_set fido2_rk_max "rk" idx rk s

  pub storage_delete_fido2_rk : ℕ → S → ℕ × S
  storage_delete_fido2_rk idx s = slot_delete fido2_rk_max "rk" idx s
