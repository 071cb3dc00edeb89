-- ===== src/ClientPin.antt =====
-- The command authenticatorClientPIN of components/fido2/fido2.c (`cmd_client_pin`). Cryptography,
-- randomness and the flash are parameters. The early returns of the source are branches; a reply is
-- the status and the CBOR body that go to `ctap2_respond`.
pub mod Effects
pub mod Steps
pub mod Protocol
pub mod Retries
mod Tests
use bluepass.Common.{
  ℕ, zero, suc, ◌+◌, ◌-◌, ◌%◌, ◌^◌, Bool, true, false, not, ◌&&◌, ◌||◌, Option, none, some, List,
  [], ◌∷◌, ◌++◌, ltb, leb, ◌==◌, if◌then◌else◌, length, take, replicate, bytes_eq,
}
use bluepass.Cbor.{
  CborDec, Lookup, found, absent, too_deep, cd_init, cd_item, cd_skip, cd_map_uint, cd_bstr,
  ce_init, ce_map, ce_uint, ce_nint, ce_bstr, CborEnc,
}
use bluepass.Cose.{peer_point, ce_cose_ecdh_key}
use bluepass.Storage.{
  Nvs, Fido2Config, storage_get_fido2_config, storage_set_fido2_config, storage_fido2_has_pin,
  storage_get_fido2_pin_hash, storage_set_fido2_pin_hash,
}

-- mbedtls, as the code uses it. `ecdh` takes our scalar and the peer's 65-byte point, and fails
-- where the point cannot be read or the computation does not succeed.
pub record Crypto : Type 0 where
  pub sha256 : List ℕ → List ℕ
  pub hmac_sha256 : List ℕ → List ℕ → List ℕ
  pub aes_cbc_decrypt : List ℕ → List ℕ → List ℕ
  pub aes_cbc_encrypt : List ℕ → List ℕ → List ℕ
  pub ecdh : List ℕ → List ℕ → Option (List ℕ)

-- What the environment supplies to one command: a new key pair (scalar and the two coordinates),
-- 16 random bytes, and whether the allocations succeed.
pub record Chance : Type 0 where
  pub key_pair : Option (List ℕ × List ℕ × List ℕ)
  pub random_token : List ℕ
  pub md_setup_ok : Bool
  pub malloc_ok : Bool

-- The static state of fido2.c that the command reads and writes.
pub record PinState (S : Type 0) : Type 0 where
  pub flash : S
  pub pin_d : List ℕ
  pub pin_key_valid : Bool
  pub pin_token : List ℕ
  pub pin_token_valid : Bool

abbrev pub pin_retries_max : ℕ
pin_retries_max = 8

-- A reply, or a `cd_skip` that recurs too deep and takes the task's stack with it.
pub data Outcome (S : Type 0) : Type 0 where
  replied : PinState S → ℕ → List ℕ → Outcome S
  crashed : Outcome S

-- `if (!cd_map_uint(...)) { missing }`, then the rest.
abbrev pub need : {S : Type 0} → Lookup → Outcome S → (CborDec → Outcome S) → Outcome S
need absent missing k = missing
need too_deep missing k = crashed
need (found v) missing k = k v

-- `cd_bstr`, and the case that it gives NULL.
abbrev pub with_bstr : {S : Type 0} → CborDec → Outcome S → (List ℕ → ℕ → Outcome S) → Outcome S
with_bstr v null k = elim (cd_bstr v).0 [ none ↦ null | some (p, n) ↦ k p n ]

-- CTAP2_ERR_...
abbrev pub err_invalid_cbor : ℕ
err_invalid_cbor = 0x12

abbrev pub err_missing_parameter : ℕ
err_missing_parameter = 0x14

abbrev pub err_operation_denied : ℕ
err_operation_denied = 0x27

abbrev pub err_not_allowed : ℕ
err_not_allowed = 0x30

abbrev pub err_pin_invalid : ℕ
err_pin_invalid = 0x31

abbrev pub err_pin_blocked : ℕ
err_pin_blocked = 0x32

abbrev pub err_pin_auth_invalid : ℕ
err_pin_auth_invalid = 0x33

abbrev pub err_pin_not_set : ℕ
err_pin_not_set = 0x35

abbrev pub err_pin_policy_violation : ℕ
err_pin_policy_violation = 0x37

-- `strnlen`
abbrev pub strnlen : List ℕ → ℕ
strnlen [] = 0
strnlen (c ∷ cs) = let rest = strnlen cs in if c == 0 then 0 else suc rest

module _ {S : Type 0} (nvs : Nvs S) (c : Crypto) where
  -- The 16 bytes of pinHashEnc, decrypted, are the stored hash.
  abbrev pub knows_pin : PinState S → List ℕ → List ℕ → Bool
  knows_pin f secret phe =
      bytes_eq (c.aes_cbc_decrypt secret (take 16 phe)) (storage_get_fido2_pin_hash nvs f.flash).1

module _ {S : Type 0} (nvs : Nvs S) (c : Crypto) (ch : Chance) (fuel : ℕ) (req : List ℕ)
    (req_len : ℕ) where
  abbrev pub fail : PinState S → ℕ → Outcome S
  fail f status = replied f status []

  abbrev pub param : ℕ → Lookup
  param key = cd_map_uint fuel req req_len key

  pub get_retries : PinState S → Outcome S
  get_retries f =
      let cfg = (storage_get_fido2_config nvs f.flash).1 in
      replied f 0 (ce_uint (ce_uint (ce_map (ce_init 8) 1) 3) cfg.pin_retries).buf

  pub get_key_agreement : PinState S → Outcome S
  get_key_agreement f = elim ch.key_pair [
    | none ↦ fail (record f { pin_key_valid = false }) err_operation_denied
    | some (d, x, y) ↦
        replied (record f { pin_d = d; pin_key_valid = true }) 0
          (ce_cose_ecdh_key (ce_uint (ce_map (ce_init 128) 1) 1) x y).buf
  ]

  -- Behind the check of the old PIN: pinAuth, the new PIN, and its hash. `proof` is what is
  -- authenticated, and `cfg` the configuration in memory.
  pub store_new_pin : PinState S → Fido2Config → List ℕ → List ℕ → List ℕ → Bool → Outcome S
  store_new_pin f cfg secret npe proof change = need (param 4) (fail f err_missing_parameter) λ v.
      with_bstr v (fail f err_pin_auth_invalid) λ pap pap_len.
        let expected = c.hmac_sha256 secret proof in
        let pin_plain = c.aes_cbc_decrypt secret npe in
        let pin = take (strnlen pin_plain) pin_plain in
        let flash1 = (storage_set_fido2_pin_hash nvs f.flash (c.sha256 pin)).1 in
        let flash2 =
          (storage_set_fido2_config nvs flash1 (record cfg { pin_retries = pin_retries_max })).1 in
        if ltb pap_len 16
        then fail f err_pin_auth_invalid
        else if change && not ch.md_setup_ok
        then fail f err_operation_denied
        else if not (bytes_eq (take 16 expected) (take 16 pap))
        then fail f err_pin_auth_invalid
        else if not ch.malloc_ok
        then fail f err_operation_denied
        else if ltb (strnlen pin_plain) 4
        then fail f err_pin_policy_violation
        else replied (record f { flash = flash2; pin_token_valid = false }) 0 []

  -- A wrong guess at the PIN: one retry less, written to the flash before the reply.
  pub wrong_pin : PinState S → Fido2Config → Outcome S
  wrong_pin f cfg =
      let left = (cfg.pin_retries + 256 - 1) % 256 in
      let cfg' = record cfg { pin_retries = left } in
      fail (record f { flash = (storage_set_fido2_config nvs f.flash cfg').1 })
        (if left == 0 then err_pin_blocked else err_pin_invalid)

  pub change_pin : PinState S → Fido2Config → List ℕ → List ℕ → Outcome S
  change_pin f cfg secret npe =
      if cfg.pin_retries == 0
      then fail f err_pin_blocked
      else need (param 6) (fail f err_missing_parameter) λ v.
        with_bstr v (fail f err_invalid_cbor) λ phe phe_len.
          if not (phe_len == 16)
          then fail f err_invalid_cbor
          else if knows_pin nvs c f secret phe
          then store_new_pin f (record cfg { pin_retries = pin_retries_max }) secret npe
              (npe ++ take phe_len phe) true
          else wrong_pin f cfg

  pub set_or_change_pin : PinState S → Fido2Config → List ℕ → Bool → Outcome S
  set_or_change_pin f cfg secret change =
      if not change && storage_fido2_has_pin nvs f.flash
      then fail f err_not_allowed
      else need (param 5) (fail f err_missing_parameter) λ v.
        with_bstr v (fail f err_invalid_cbor) λ mem npe_len.
          let npe = take npe_len mem in
          if ltb npe_len 64 || ltb 256 npe_len || not (npe_len % 16 == 0)
          then fail f err_invalid_cbor
          else if change
          then change_pin f cfg secret npe
          else store_new_pin f cfg secret npe npe false

  pub get_pin_token : PinState S → Fido2Config → List ℕ → Outcome S
  get_pin_token f cfg secret =
      if not (storage_fido2_has_pin nvs f.flash)
      then fail f err_pin_not_set
      else if cfg.pin_retries == 0
      then fail f err_pin_blocked
      else need (param 6) (fail f err_missing_parameter) λ v.
        with_bstr v (fail f err_invalid_cbor) λ phe phe_len.
          let cfg' = record cfg { pin_retries = pin_retries_max } in
          let token = take 16 ch.random_token in
          let body =
            (ce_bstr (ce_uint (ce_map (ce_init 32) 1) 2) (c.aes_cbc_encrypt secret token)).buf in
          if ltb phe_len 16
          then fail f err_invalid_cbor
          else if knows_pin nvs c f secret phe
          then replied
              (record f {
                flash = (storage_set_fido2_config nvs f.flash cfg').1;
                pin_token = token;
                pin_token_valid = true;
              })
              0 body
          else wrong_pin f cfg

  -- The sub-commands that need the shared secret.
  pub with_secret : PinState S → ℕ → Outcome S
  with_secret f subcmd =
      let cfg = (storage_get_fido2_config nvs f.flash).1 in
      need (param 3) (fail f err_missing_parameter) λ v. elim (peer_point fuel v) [
        | none ↦ crashed
        | some (x, y) ↦ elim (c.ecdh f.pin_d (0x04 ∷ (x ++ y))) [
          | none ↦ fail f err_operation_denied
          | some shared ↦
              let secret = c.sha256 shared in
              if subcmd == 3
              then set_or_change_pin f cfg secret false
              else if subcmd == 4
              then set_or_change_pin f cfg secret true
              else if subcmd == 5
              then get_pin_token f cfg secret
              else fail f err_invalid_cbor
        ]
      ]

  pub cmd_client_pin : PinState S → Outcome S
  cmd_client_pin f = need (param 2) (fail f err_missing_parameter) λ v.
      let (it, v') = cd_item v in
      let subcmd = it.val % 256 in
      if v'.err || not (it.major_type == 0)
      then fail f err_invalid_cbor
      else if subcmd == 1
      then get_retries f
      else if subcmd == 2
      then get_key_agreement f
      else if not f.pin_key_valid
      then fail f err_pin_auth_invalid
      else with_secret f subcmd
