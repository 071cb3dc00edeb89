-- ===== src/Authenticator/Manage.antt =====
-- Starting and resetting the authenticator in components/fido2/fido2.c (`fido2_init`,
-- `fido2_regen_master_key`, `fido2_factory_reset`, `cmd_reset`) and `cmd_get_info`.
pub mod Reset
use bluepass.Common.{
  ℕ, zero, suc, ◌+◌, Bool, true, false, List, [], ◌==◌, if◌then◌else◌, replicate, ascii,
}
use bluepass.Cbor.{ce_init, ce_map, ce_uint, ce_arr, ce_tstr, ce_bstr, ce_bool}
use bluepass.Storage.{
  Nvs, storage_get_fido2_config, storage_set_fido2_config, storage_clear_fido2_pin_hash,
  storage_fido2_reset_sign_counter, storage_set_fido2_master_key, storage_get_fido2_master_key,
  storage_fido2_has_pin,
}
use bluepass.Storage.Slots.{fido2_rk_max, storage_delete_fido2_rk}
use bluepass.ClientPin.{Crypto, PinState, pin_retries_max}
use bluepass.Credential.{bluepass_aaguid}
use bluepass.Authenticator.{Device, Env, Answer, answered, wait}

abbrev pub esp_err_no_mem : ℕ
esp_err_no_mem = 0x101

-- The body of the reply; the last option tells whether a PIN is set.
pub info_body : Bool → List ℕ
info_body pin_set =
    let versions = ce_tstr (ce_arr (ce_uint (ce_map (ce_init 256) 5) 0x01) 1) (ascii "FIDO_2_0") in
    let aaguid = ce_bstr (ce_uint versions 0x03) bluepass_aaguid in
    let options = ce_map (ce_uint aaguid 0x04) 5 in
    let rk = ce_bool (ce_tstr options (ascii "rk")) true in
    let up = ce_bool (ce_tstr rk (ascii "up")) true in
    let uv = ce_bool (ce_tstr up (ascii "uv")) false in
    let plat = ce_bool (ce_tstr uv (ascii "plat")) false in
    let client_pin = ce_bool (ce_tstr plat (ascii "clientPin")) pin_set in
    let size = ce_uint (ce_uint client_pin 0x05) 2048 in
    (ce_uint (ce_arr (ce_uint size 0x06) 1) 1).buf

module _ {S : Type 0} (nvs : Nvs S) where
  -- `new_key` is what `esp_fill_random` gave.
  pub fido2_regen_master_key : List ℕ → PinState S → ℕ × PinState S
  fido2_regen_master_key new_key f =
      let (err, flash) = storage_set_fido2_master_key nvs f.flash new_key in
      (err, record f { flash = flash; pin_token_valid = false })

  -- `for (int i = 0; i < FIDO2_RK_MAX; i++) storage_delete_fido2_rk(i)`
  pub delete_rks : ℕ → ℕ → S → S
  delete_rks zero i flash = flash
  delete_rks (suc rounds) i flash =
      delete_rks rounds (i + 1) (storage_delete_fido2_rk nvs i flash).1

  -- What the flash has when the keys are gone: the configuration keeps the rest of its fields.
  pub reset_flash : S → S
  reset_flash s =
      let s1 = delete_rks fido2_rk_max 0 s in
      let cfg = (storage_get_fido2_config nvs s1).1 in
      let s2 =
        (storage_set_fido2_config nvs s1
          (record cfg { pin_retries = pin_retries_max; rk_count = 0 })).1 in
      let s3 = (storage_clear_fido2_pin_hash nvs s2).1 in
      (storage_fido2_reset_sign_counter nvs s3).1

  pub fido2_factory_reset : List ℕ → PinState S → ℕ × PinState S
  fido2_factory_reset new_key f =
      fido2_regen_master_key new_key
        (record f { flash = reset_flash f.flash; pin_token_valid = false })

  pub cmd_reset : Crypto → Env → List ℕ → Device S → Answer S
  cmd_reset c env new_key d =
      let (confirmed, up) = wait nvs c d.pin env d.up in
      let waited = record d { up = up } in
      let wiped = (fido2_factory_reset new_key d.pin).1 in
      if confirmed
      then answered (record waited { pin = record wiped { pin_token_valid = false } }) 0 []
      else answered waited 0x3a []

  pub cmd_get_info : Device S → Answer S
  cmd_get_info d = answered d 0 (info_body (storage_fido2_has_pin nvs d.pin.flash))

  -- `created`: the queue and the semaphore could be allocated. The second result is `s_enabled`.
  -- The semaphore is created empty.
  pub fido2_init : Bool → List ℕ → Bool → Device S → ℕ × Bool × Device S
  fido2_init created new_key enabled d =
      let (err, cfg) = storage_get_fido2_config nvs d.pin.flash in
      let cfg' = record cfg { pin_retries = pin_retries_max } in
      let flash =
        if err == 0 then d.pin.flash else (storage_set_fido2_config nvs d.pin.flash cfg').1 in
      let f : PinState S = record (d.pin) {
        flash = flash;
        pin_key_valid = false;
        pin_token_valid = false;
      } in
      let f' =
        if (storage_get_fido2_master_key nvs flash (replicate 32 0)).0 == 0
        then f
        else (fido2_regen_master_key new_key f).1 in
      if created
      then (0, cfg.enabled, record { pin = f'; up = record { up_sem = false; up_pending = false } })
      else (esp_err_no_mem, enabled, d)
