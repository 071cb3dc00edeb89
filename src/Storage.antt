-- ===== src/Storage.antt =====
-- The FIDO2 part of components/storage/storage.c. The flash library NVS is a parameter: its calls
-- answer with an `esp_err_t`, where 0 is ESP_OK. A struct is stored as its bytes.
pub mod Laws
pub mod Working
pub mod Slots
pub mod Settings
use bluepass.Common.{
  drop, length, ℕ, suc, ◌+◌, ◌-◌, ◌%◌, ◌^◌, Bool, true, false, not, List, [], ◌∷◌, ◌++◌, ◌==◌, leb,
  if◌then◌else◌, length, get_or, take, replicate,
}
use Prim.Native.String.{String}

-- `nvs.h`, on one namespace: `S` is what the flash holds. A key is a text, and for the keys that
-- `snprintf` makes of a prefix and a number, both.
pub data NvsKey : Type 0 where
  named : String → NvsKey
  numbered : String → ℕ → NvsKey

pub record Nvs (S : Type 0) : Type 0 where
  pub open_readonly : S → ℕ
  pub open_readwrite : S → ℕ
  -- At most the given number of bytes are wanted.
  pub get_blob : S → NvsKey → ℕ → ℕ × List ℕ
  pub set_blob : S → NvsKey → List ℕ → ℕ × S
  pub get_u32 : S → NvsKey → ℕ × ℕ
  pub set_u32 : S → NvsKey → ℕ → ℕ × S
  pub get_u8 : S → NvsKey → ℕ × ℕ
  pub set_u8 : S → NvsKey → ℕ → ℕ × S
  pub erase_key : S → NvsKey → ℕ × S
  pub commit : S → ℕ × S

abbrev pub esp_ok : ℕ
esp_ok = 0

abbrev pub esp_err_nvs_not_found : ℕ
esp_err_nvs_not_found = 0x1102

-- `fido2_config_t`
pub record Fido2Config : Type 0 where
  pub enabled : Bool
  pub reserved_uv_mode : ℕ
  pub pin_retries : ℕ
  pub confirm_modifiers : ℕ
  pub confirm_keycode : ℕ
  pub rk_count : ℕ

abbrev pub zero_config : Fido2Config
zero_config = record {
  enabled = false;
  reserved_uv_mode = 0;
  pin_retries = 0;
  confirm_modifiers = 0;
  confirm_keycode = 0;
  rk_count = 0;
}

-- The eight bytes of the struct, its padding last.
abbrev pub config_bytes : Fido2Config → List ℕ
config_bytes c =
    (if c.enabled then 1 else 0)
    ∷ c.reserved_uv_mode
    ∷ c.pin_retries
    ∷ c.confirm_modifiers
    ∷ c.confirm_keycode
    ∷ c.rk_count
    ∷ 0
    ∷ 0
    ∷ []

-- A shorter blob leaves zeros behind it.
abbrev pub bytes_config : List ℕ → Fido2Config
bytes_config b = record {
  enabled = not (get_or b 0 0 == 0);
  reserved_uv_mode = get_or b 1 0;
  pin_retries = get_or b 2 0;
  confirm_modifiers = get_or b 3 0;
  confirm_keycode = get_or b 4 0;
  rk_count = get_or b 5 0;
}

module _ {S : Type 0} (nvs : Nvs S) where
  -- `nvs_open`, one write, `nvs_commit` if that went well, `nvs_close`.
  unfoldable pub write_and_commit : S → (S → ℕ × S) → ℕ × S
  write_and_commit s write =
      let (err, s') = write s in
      if nvs.open_readwrite s == esp_ok
      then (if err == esp_ok then nvs.commit s' else (err, s'))
      else (nvs.open_readwrite s, s)

  unfoldable pub storage_get_fido2_config : S → ℕ × Fido2Config
  storage_get_fido2_config s =
      let (err, b) = nvs.get_blob s (named "cfg") 8 in
      if nvs.open_readonly s == esp_ok
      then (if err == esp_ok
          then (esp_ok, bytes_config b)
          else (err, record zero_config { pin_retries = 8 }))
      else (esp_err_nvs_not_found, zero_config)

  unfoldable pub storage_set_fido2_config : S → Fido2Config → ℕ × S
  storage_set_fido2_config s c =
      write_and_commit s (λ t. nvs.set_blob t (named "cfg") (config_bytes c))

  unfoldable pub storage_fido2_has_pin : S → Bool
  storage_fido2_has_pin s =
      if nvs.open_readonly s == esp_ok
      then (nvs.get_blob s (named "pinh") 16).0 == esp_ok
      else false

  -- The error and the 16 bytes of the caller's array, which was zeroed before the call.
  unfoldable pub storage_get_fido2_pin_hash : S → ℕ × List ℕ
  storage_get_fido2_pin_hash s =
      let (err, b) = nvs.get_blob s (named "pinh") 16 in
      if nvs.open_readonly s == esp_ok
      then (err, if err == esp_ok then take 16 (b ++ replicate 16 0) else replicate 16 0)
      else (esp_err_nvs_not_found, replicate 16 0)

  -- The first 16 bytes of the hash are stored.
  unfoldable pub storage_set_fido2_pin_hash : S → List ℕ → ℕ × S
  storage_set_fido2_pin_hash s hash =
      write_and_commit s (λ t. nvs.set_blob t (named "pinh") (take 16 hash))

  pub storage_clear_fido2_pin_hash : S → ℕ × S
  storage_clear_fido2_pin_hash s =
      let (err, t) = nvs.erase_key s (named "pinh") in
      let err' = if err == esp_err_nvs_not_found then esp_ok else err in
      if nvs.open_readwrite s == esp_ok
      then (if err' == esp_ok then nvs.commit t else (err', t))
      else (nvs.open_readwrite s, s)

  -- The errors of the writes are ignored.
  unfoldable pub storage_fido2_inc_sign_counter : S → ℕ × S
  storage_fido2_inc_sign_counter s =
      let (err, v) = nvs.get_u32 s (named "sc") in
      let v' = ((if err == esp_ok then v else 0) + 1) % 2 ^ 32 in
      if nvs.open_readwrite s == esp_ok
      then (v', (nvs.commit (nvs.set_u32 s (named "sc") v').1).1)
      else (1, s)

  pub storage_fido2_reset_sign_counter : S → ℕ × S
  storage_fido2_reset_sign_counter s = write_and_commit s (λ t. nvs.set_u32 t (named "sc") 0)

  -- `key` is what the caller's array holds before.
  unfoldable pub storage_get_fido2_master_key : S → List ℕ → ℕ × List ℕ
  storage_get_fido2_master_key s key =
      let (err, b) = nvs.get_blob s (named "mkey") 32 in
      if nvs.open_readonly s == esp_ok
      then (err, if err == esp_ok then b ++ drop (length b) key else key)
      else (esp_err_nvs_not_found, key)

  pub storage_set_fido2_master_key : S → List ℕ → ℕ × S
  storage_set_fido2_master_key s key = write_and_commit s (λ t. nvs.set_blob t (named "mkey") key)
