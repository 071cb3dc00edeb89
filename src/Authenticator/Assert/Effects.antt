-- ===== src/Authenticator/Assert/Effects.antt =====
-- What authenticatorGetAssertion may do, as a relation that names no parsing.
use bluepass.Common.{◌⊎◌, ℕ, ◌≡◌, ◌≢◌, true, false, some, List, [], ◌++◌, if◌then◌else◌}
use bluepass.Cbor.{Lookup}
use bluepass.Storage.{Nvs, storage_get_fido2_master_key, storage_fido2_inc_sign_counter}
use bluepass.ClientPin.{Crypto}
use bluepass.Credential.{Sealing, build_auth_data_get}
use bluepass.Credential.Resident.{IsOwn}
use bluepass.Authenticator.{
  Device, Env, Answer, answered, overflowed, with_flash, Parse, parsed, wait,
}
use bluepass.Authenticator.Assert.{AssertRequest, assert_body}
use bluepass.Authenticator.Reading.{IsPinProof}

module _ {S : Type 0} (nvs : Nvs S) (c : Crypto) (k : Sealing) (env : Env) (d : Device S) where
  abbrev pub waited : Device S
  waited = record d { up = (wait nvs c d.pin env d.up).1 }

  -- The counter's new value, and the flash that holds it.
  abbrev pub counted : ℕ × S
  counted = storage_fido2_inc_sign_counter nvs d.pin.flash

  -- The master key of the flash.
  abbrev pub master : List ℕ
  master = (storage_get_fido2_master_key nvs d.pin.flash env.stack).1

  -- `AssertStep rp hash sent o`: for the relying party `rp`, the client data `hash` and the pinAuth
  -- `sent` of a request the outcome may be `o`. A signature wants the user's confirmation, a
  -- credential of `rp`, and for the flag of verification, 4, a proof of the PIN.
  pub data AssertStep (rp hash : Parse (List ℕ)) (sent : Lookup) : Answer S → Type 0 where
    overflows : AssertStep rp hash sent overflowed
    refuses : (status : ℕ) → status ≢ 0 → AssertStep rp hash sent (answered d status [])
    lapses :
        (wait nvs c d.pin env d.up).0 ≡ false → AssertStep rp hash sent (answered waited 0x3a [])
    unsigned :
        (wait nvs c d.pin env d.up).0 ≡ true
        → AssertStep rp hash sent (answered (with_flash waited counted.1) 0x27 [])
    signs :
        (r : AssertRequest) (auth_data sig : List ℕ)
        → (wait nvs c d.pin env d.up).0 ≡ true
        → rp ≡ parsed r.rp_id_hash
        → hash ≡ parsed r.hash
        → IsOwn k master r.rp_id_hash (r.plain, r.cred_id)
        → ((r.uv ≡ false) ⊎ IsPinProof nvs c d.pin r.hash sent)
        → auth_data ≡ build_auth_data_get r.rp_id_hash (if r.uv then 5 else 1) counted.0
        → k.ecdsa_sign r.plain.priv_key (c.sha256 (auth_data ++ r.hash)) ≡ some sig
        → AssertStep rp hash sent
            (answered (with_flash waited counted.1) 0 (assert_body auth_data sig r.cred_id))
