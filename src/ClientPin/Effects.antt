-- ===== src/ClientPin/Effects.antt =====
-- What one clientPIN command may do to the state, as a relation between the parameters of the request,
-- the state and the outcome.
use bluepass.Common.{
  ℕ, ◌+◌, ◌-◌, ◌%◌, ◌≤◌, ◌≡◌, ◌≢◌, ◌⊎◌, Bool, true, false, some, List, [], ◌∷◌, ◌++◌, ◌==◌, take,
  bytes_eq, if◌then◌else◌,
}
use bluepass.Cbor.{Lookup, found, absent, too_deep, CborDec, cd_item, cd_bstr, cd_map_uint}
use bluepass.Cose.{peer_point}
use bluepass.Storage.{
  Nvs, Fido2Config, storage_get_fido2_config, storage_set_fido2_config, storage_fido2_has_pin,
  storage_set_fido2_pin_hash,
}
use bluepass.ClientPin.{Crypto, PinState, Outcome, replied, crashed, knows_pin, strnlen}

-- The sub-command of a request, 0 where there is none.
abbrev pub subcommand : Lookup → ℕ
subcommand absent = 0
subcommand too_deep = 0
subcommand (found v) = (cd_item v).0.val % 256

-- The parameters of a request.
module _ (c : Crypto) (fuel : ℕ) (req : List ℕ) (req_len : ℕ) where
  -- Parameter `key` is a byte string: `n` bytes, which begin the memory `p`.
  abbrev pub IsBytes : ℕ → List ℕ → ℕ → Type 0
  IsBytes key p n =
      (v : CborDec) × (cd_map_uint fuel req req_len key ≡ found v) × ((cd_bstr v).0 ≡ some (p, n))

  -- The secret that is shared with the key of parameter 3.
  abbrev pub IsSecret : List ℕ → List ℕ → Type 0
  IsSecret pin_d secret =
      (v : CborDec) × (x : List ℕ) × (y : List ℕ) × (shared : List ℕ) × ((cd_map_uint fuel req
            req_len 3
          ≡ found v)
        × (peer_point fuel v ≡ some (x, y))
        × (c.ecdh pin_d (0x04 ∷ (x ++ y)) ≡ some shared)
        × (secret ≡ c.sha256 shared))

  -- The new PIN is the string that parameter 5 decrypts to under the secret; parameter 4 authenticates
  -- it, and `old` behind it, with the secret.
  pub record IsProven (secret old pin : List ℕ) : Type 0 where
    pub enc : List ℕ
    pub enc_len : ℕ
    pub auth : List ℕ
    pub auth_len : ℕ
    pub enc_given : IsBytes 5 enc enc_len
    pub auth_given : IsBytes 4 auth auth_len
    pub auth_long : 16 ≤ auth_len
    pub proven :
        bytes_eq (take 16 (c.hmac_sha256 secret (take enc_len enc ++ old))) (take 16 auth) ≡ true
    pub decrypted :
        let plain = c.aes_cbc_decrypt secret (take enc_len enc) in
        (pin ≡ take (strnlen plain) plain) × (4 ≤ strnlen plain)

module _ {S : Type 0} (nvs : Nvs S) (c : Crypto) where
  abbrev pub config : PinState S → Fido2Config
  config f = (storage_get_fido2_config nvs f.flash).1

  -- What the flash has as the number of guesses left.
  abbrev pub retries : PinState S → ℕ
  retries f = (config f).pin_retries

  abbrev pub with_retries : Fido2Config → ℕ → Fido2Config
  with_retries cfg n = record cfg { pin_retries = n }

  -- A new PIN: its hash is stored, all retries are given back, and the token is void.
  abbrev pub with_pin : PinState S → List ℕ → PinState S
  with_pin f pin = record f {
    flash =
        (storage_set_fido2_config nvs (storage_set_fido2_pin_hash nvs f.flash (c.sha256 pin)).1
          (with_retries (config f) 8)).1;
    pin_token_valid = false;
  }

  -- A guess at the PIN that counts: there are retries left, and parameter 6 decrypts under the secret
  -- of the request to the stored hash, or not.
  pub record IsGuess (fuel : ℕ) (req : List ℕ) (req_len : ℕ) (f : PinState S)
      (secret hash_enc : List ℕ) (right : Bool) : Type 0 where
    pub left : retries f ≢ 0
    pub hash_len : ℕ
    pub agreed : IsSecret c fuel req req_len f.pin_d secret
    pub hash_given : IsBytes c fuel req req_len 6 hash_enc hash_len
    pub hash_long : 16 ≤ hash_len
    pub matches : knows_pin nvs c f secret hash_enc ≡ right

  -- `PinStep fuel req req_len sub f o`: sub-command `sub` of the request in state `f` may have the
  -- outcome `o`.
  pub data PinStep (fuel : ℕ) (req : List ℕ) (req_len sub : ℕ) (f : PinState S)
      : Outcome S → Type 0 where
    overflows : PinStep fuel req req_len sub f crashed
    refuses :
        (status : ℕ)
        → status ≢ 0
        → status ≢ 0x31
        → PinStep fuel req req_len sub f (replied f status [])
    reports : (body : List ℕ) → sub ≡ 1 → PinStep fuel req req_len sub f (replied f 0 body)
    drops_key :
        sub ≡ 2
        → PinStep fuel req req_len sub f (replied (record f { pin_key_valid = false }) 0x27 [])
    renews_key :
        (d body : List ℕ)
        → sub ≡ 2
        → PinStep fuel req req_len sub f
            (replied (record f { pin_d = d; pin_key_valid = true }) 0 body)
    misses :
        (secret hash_enc : List ℕ)
        → (sub ≡ 4) ⊎ (sub ≡ 5)
        → IsGuess fuel req req_len f secret hash_enc false
        → PinStep fuel req req_len sub f (
            replied
              (record f {
                flash =
                    (storage_set_fido2_config nvs f.flash
                      (with_retries (config f) ((retries f + 256 - 1) % 256))).1;
              })
              (if ((retries f + 256 - 1) % 256) == 0 then 0x32 else 0x31)
              [])
    unlocks :
        (token body secret hash_enc : List ℕ)
        → sub ≡ 5
        → storage_fido2_has_pin nvs f.flash ≡ true
        → IsGuess fuel req req_len f secret hash_enc true
        → PinStep fuel req req_len sub f (
            replied
              (record f {
                flash = (storage_set_fido2_config nvs f.flash (with_retries (config f) 8)).1;
                pin_token = token;
                pin_token_valid = true;
              })
              0
              body)
    sets_pin :
        (pin secret : List ℕ)
        → sub ≡ 3
        → storage_fido2_has_pin nvs f.flash ≡ false
        → IsSecret c fuel req req_len f.pin_d secret
        → IsProven c fuel req req_len secret [] pin
        → PinStep fuel req req_len sub f (replied (with_pin f pin) 0 [])
    changes_pin :
        (pin secret hash_enc : List ℕ)
        → sub ≡ 4
        → IsGuess fuel req req_len f secret hash_enc true
        → IsProven c fuel req req_len secret (take 16 hash_enc) pin
        → PinStep fuel req req_len sub f (replied (with_pin f pin) 0 [])
