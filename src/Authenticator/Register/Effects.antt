-- ===== src/Authenticator/Register/Effects.antt =====
-- What authenticatorMakeCredential may do, as a relation that names no parsing.
use bluepass.Common.{
  ◌⊎◌, ℕ, ◌≡◌, ◌≢◌, true, false, none, some, List, [], ◌++◌, if◌then◌else◌, take, bit_or,
}
use bluepass.Cbor.{Lookup}
use bluepass.Storage.{Nvs, storage_get_fido2_master_key, storage_fido2_inc_sign_counter}
use bluepass.Storage.Slots.{fido2_rk_max, storage_set_fido2_rk}
use bluepass.ClientPin.{Crypto}
use bluepass.Credential.{
  Sealing, CredPlain, cred_encrypt, build_auth_data_make, rk_bytes, find_slot,
}
use bluepass.Authenticator.{
  Device, Env, Answer, answered, overflowed, with_flash, Parse, parsed, wait,
}
use bluepass.Authenticator.Register.{MakeRequest, UserEntry, resident, make_body}
use bluepass.Authenticator.Reading.{IsPinProof}

module _ {S : Type 0} (nvs : Nvs S) (c : Crypto) (k : Sealing) (env : Env) (d : Device S) where
  abbrev pub waited : Device S
  waited = record d { up = (wait nvs c d.pin env d.up).1 }

  -- The counter's new value, and the flash that holds it.
  abbrev pub counted : ℕ × S
  counted = storage_fido2_inc_sign_counter nvs d.pin.flash

  -- What is sealed in a new credential.
  abbrev pub sealed : List ℕ → MakeRequest → CredPlain
  sealed priv r = record {
    priv_key = take 32 priv;
    rp_id_hash = r.rp_id_hash;
    flags = bit_or (if r.rk then 0x01 else 0x00) (if r.uv then 0x02 else 0x00);
  }

  -- The flash behind a registration: the counter, and for a resident key one slot more.
  pub data Stored (r : MakeRequest) (cred_id : List ℕ) : S → Type 0 where
    server_side : r.rk ≡ false → Stored r cred_id counted.1
    on_device :
        (user : UserEntry) (slot : ℕ)
        → r.rk ≡ true
        → find_slot nvs counted.1 (resident r.rp_id_hash cred_id counted.0 user) fido2_rk_max 0 none
          ≡ some slot
        → Stored r cred_id
            (storage_set_fido2_rk nvs slot
              (rk_bytes (resident r.rp_id_hash cred_id counted.0 user))
              counted.1).1

  -- `MakeStep rp hash sent o`: for the relying party `rp`, the client data `hash` and the pinAuth
  -- `sent` of a request the outcome may be `o`.
  pub data MakeStep (rp hash : Parse (List ℕ)) (sent : Lookup) : Answer S → Type 0 where
    overflows : MakeStep rp hash sent overflowed
    refuses : (status : ℕ) → status ≢ 0 → MakeStep rp hash sent (answered d status [])
    lapses : (wait nvs c d.pin env d.up).0 ≡ false → MakeStep rp hash sent (answered waited 0x3a [])
    unsealed :
        (wait nvs c d.pin env d.up).0 ≡ true → MakeStep rp hash sent (answered waited 0x27 [])
    unstored :
        (status : ℕ)
        → (wait nvs c d.pin env d.up).0 ≡ true
        → status ≢ 0
        → MakeStep rp hash sent (answered (with_flash waited counted.1) status [])
    unsigned :
        (r : MakeRequest) (cred_id : List ℕ) (flash : S)
        → (wait nvs c d.pin env d.up).0 ≡ true
        → Stored r cred_id flash
        → MakeStep rp hash sent (answered (with_flash waited flash) 0x27 [])
    registers :
        (r : MakeRequest) (priv x y cred_id auth_data sig : List ℕ) (flash : S)
        → (wait nvs c d.pin env d.up).0 ≡ true
        → rp ≡ parsed r.rp_id_hash
        → hash ≡ parsed r.hash
        → ((r.uv ≡ false) ⊎ IsPinProof nvs c d.pin r.hash sent)
        → env.key_pair ≡ some (priv, x, y)
        → cred_encrypt k
            (storage_get_fido2_master_key nvs d.pin.flash env.stack).1
            (sealed priv r)
            env.nonce
          ≡ some cred_id
        → Stored r cred_id flash
        → auth_data
          ≡ build_auth_data_make 300 r.rp_id_hash (if r.uv then 5 else 1) counted.0 cred_id x y
        → k.ecdsa_sign priv (c.sha256 (auth_data ++ r.hash)) ≡ some sig
        → MakeStep rp hash sent (answered (with_flash waited flash) 0 (make_body auth_data sig))
