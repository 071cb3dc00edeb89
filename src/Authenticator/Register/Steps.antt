-- ===== src/Authenticator/Register/Steps.antt =====
-- `cmd_make_credential` keeps to the relation of Register/Effects.antt.
use bluepass.Common.{
  ℕ, ◌≡◌, refl, Bool, true, false, Option, none, some, List, [], ◌++◌, if◌then◌else◌, ap, bit_or,
}
use bluepass.Cbor.{cd_map_uint}
use bluepass.Storage.{Nvs, storage_get_fido2_master_key}
use bluepass.ClientPin.{Crypto}
use bluepass.Credential.{Sealing, cred_encrypt, build_auth_data_make, flag_up, flag_uv}
use bluepass.Authenticator.{
  Device, Env, Answer, answered, overflowed, with_flash, Parse, parsed, refused, overrun,
  client_data_hash, wait,
}
use bluepass.Authenticator.Register.{
  MakeRequest, make_body, make_rp, parse_make, store_resident, make_flags, attest, enrol,
  make_confirmed, cmd_make_credential,
}
use bluepass.Authenticator.Reading.{Ensures}
use bluepass.Authenticator.Register.Effects.{
  waited, counted, sealed, Stored, server_side, MakeStep, overflows, refuses, lapses, unsealed,
  unstored, unsigned, registers,
}
use bluepass.Authenticator.Register.Request.{
  rp, hash, sent, IsRead, parse_make-IsRead, store_resident-Stored,
}

module _ {S : Type 0} (nvs : Nvs S) (c : Crypto) (k : Sealing) (env : Env) (fuel : ℕ) (req : List ℕ)
    (req_len : ℕ) (d : Device S) where
  abbrev Step : Answer S → Type 0
  Step =
      MakeStep nvs c k env d (rp nvs c k env fuel req req_len d)
        (hash nvs c k env fuel req req_len d) (sent nvs c k env fuel req req_len d)

  module _ (r : MakeRequest) (read : IsRead nvs c k env fuel req req_len d r)
      (confirmed : (wait nvs c d.pin env d.up).0 ≡ true) where
    attest-MakeStep :
        (priv x y cred_id : List ℕ) (flash : S)
        → env.key_pair ≡ some (priv, x, y)
        → cred_encrypt k
            (storage_get_fido2_master_key nvs d.pin.flash env.stack).1
            (sealed nvs c k env d priv r)
            env.nonce
          ≡ some cred_id
        → Stored nvs c k env d r cred_id flash
        → Step (
            attest nvs c k env fuel req req_len
              (with_flash (waited nvs c k env d) flash)
              r
              cred_id
              (counted nvs c k env d).0
              (priv, x, y))
    unfolding attest make_flags
    attest-MakeStep priv x y cred_id flash pair id stored =
        by_signature _ (flags_of r.uv) (k.ecdsa_sign priv _) refl
      where
        flags_of : (uv : Bool) → bit_or flag_up (if uv then flag_uv else 0) ≡ (if uv then 5 else 1)
        flags_of true = refl
        flags_of false = refl

        auth : ℕ → List ℕ
        auth flags =
            build_auth_data_make 300 r.rp_id_hash flags (counted nvs c k env d).0 cred_id x y

        by_signature :
            (flags : ℕ)
            → flags ≡ (if r.uv then 5 else 1)
            → (o : Option (List ℕ)) → k.ecdsa_sign priv (c.sha256 (auth flags ++ r.hash)) ≡ o
            → Step (elim o [
              | none ↦ answered (with_flash (waited nvs c k env d) flash) 0x27 []
              | some sig ↦
                  answered (with_flash (waited nvs c k env d) flash) 0 (make_body (auth flags) sig)
            ])
        by_signature flags e none s = unsigned r cred_id flash confirmed stored
        by_signature flags e (some sig) s =
            registers r priv x y cred_id (auth flags) sig flash confirmed read.0 read.1 read.2 pair
              id stored (ap auth e) s

    enrol-MakeStep :
        (priv x y cred_id : List ℕ)
        → env.key_pair ≡ some (priv, x, y)
        → cred_encrypt k
            (storage_get_fido2_master_key nvs d.pin.flash env.stack).1
            (sealed nvs c k env d priv r)
            env.nonce
          ≡ some cred_id
        → Step (enrol nvs c k env fuel req req_len (waited nvs c k env d) r cred_id (priv, x, y))
    unfolding enrol
    enrol-MakeStep priv x y cred_id pair id = by_rk r.rk refl
      where
        plain : S → Answer S
        plain flash =
            attest nvs c k env fuel req req_len (with_flash (waited nvs c k env d) flash) r cred_id
              (counted nvs c k env d).0 (priv, x, y)

        by_store :
            (m : Parse S)
            → Ensures (Stored nvs c k env d r cred_id) m
            → Step (elim m [
              | overrun ↦ overflowed
              | refused status ↦
                  answered (with_flash (waited nvs c k env d) (counted nvs c k env d).1) status []
              | parsed stored ↦ plain stored
            ])
        by_store overrun h = overflows
        by_store (refused status) h = unstored status confirmed h
        by_store (parsed stored) h = attest-MakeStep priv x y cred_id stored pair id h

        by_rk :
            (b : Bool)
            → r.rk ≡ b
            → Step (
                if b
                then elim (store_resident nvs c k env fuel req req_len
                    (counted nvs c k env d).1
                    r
                    cred_id
                    (counted nvs c k env d).0) [
                      | overrun ↦ overflowed
                      | refused status ↦
                          answered
                            (with_flash (waited nvs c k env d) (counted nvs c k env d).1)
                            status
                            []
                      | parsed stored ↦ plain stored
                    ]
                else plain (counted nvs c k env d).1)
        by_rk true e = by_store _ (store_resident-Stored nvs c k env fuel req req_len d r cred_id e)
        by_rk false e =
            attest-MakeStep priv x y cred_id (counted nvs c k env d).1 pair id (server_side e)

    make_confirmed-MakeStep :
        Step (make_confirmed nvs c k env fuel req req_len (waited nvs c k env d) r)
    unfolding make_confirmed
    make_confirmed-MakeStep = by_pair env.key_pair refl
      where
        encrypted : List ℕ → Option (List ℕ)
        encrypted priv =
            cred_encrypt k (storage_get_fido2_master_key nvs d.pin.flash env.stack).1
              (sealed nvs c k env d priv r) env.nonce

        by_id :
            (priv x y : List ℕ)
            → env.key_pair ≡ some (priv, x, y)
            → (o : Option (List ℕ)) → encrypted priv ≡ o
            → Step (elim o [
              | none ↦ answered (waited nvs c k env d) 0x27 []
              | some cred_id ↦
                  enrol nvs c k env fuel req req_len (waited nvs c k env d) r cred_id (priv, x, y)
            ])
        by_id priv x y e none i = unsealed confirmed
        by_id priv x y e (some cred_id) i = enrol-MakeStep priv x y cred_id e i

        by_pair :
            (o : Option (List ℕ × List ℕ × List ℕ))
            → env.key_pair ≡ o
            → Step (elim o [
              | none ↦ answered (waited nvs c k env d) 0x27 []
              | some (priv, x, y) ↦ elim (encrypted priv) [
                | none ↦ answered (waited nvs c k env d) 0x27 []
                | some cred_id ↦
                    enrol nvs c k env fuel req req_len (waited nvs c k env d) r cred_id (priv, x, y)
              ]
            ])
        by_pair none e = unsealed confirmed
        by_pair (some (priv, x, y)) e = by_id priv x y e (encrypted priv) refl

  -- Every outcome of `cmd_make_credential` is one that the relation allows: a refusal before the
  -- wait, which changes nothing; a wait without a confirmation, which makes no key and leaves the
  -- flash alone; behind a confirmation, a key or a seal that fails with the flash untouched, a
  -- resident key that finds no slot or a signature that fails; or a registration, whose credential
  -- id seals the new key for the relying party of the request, whose resident key goes to the slot
  -- that `find_slot` names, and which is signed by the new key over the client data and the counter
  -- that is stored, the flag of verification only with a proof of the PIN.
  pub cmd_make_credential-MakeStep :
      MakeStep nvs c k env d
        (make_rp nvs c k env fuel req req_len)
        (client_data_hash fuel req req_len 0x01)
        (cd_map_uint fuel req req_len 0x08)
        (cmd_make_credential nvs c k env fuel req req_len d)
  unfolding cmd_make_credential
  cmd_make_credential-MakeStep =
      by_request (parse_make nvs c k env fuel req req_len d)
        (parse_make-IsRead nvs c k env fuel req req_len d)
    where
      after_wait :
          (r : MakeRequest) (b : Bool)
          → IsRead nvs c k env fuel req req_len d r
          → (wait nvs c d.pin env d.up).0 ≡ b
          → Step (
              if b
              then make_confirmed nvs c k env fuel req req_len (waited nvs c k env d) r
              else answered (waited nvs c k env d) 0x3a [])
      after_wait r true read e = make_confirmed-MakeStep r read e
      after_wait r false read e = lapses e

      by_request :
          (m : Parse MakeRequest)
          → Ensures (IsRead nvs c k env fuel req req_len d) m
          → Step (elim m [
            | overrun ↦ overflowed
            | refused status ↦ answered d status []
            | parsed r ↦
                if (wait nvs c d.pin env d.up).0
                then make_confirmed nvs c k env fuel req req_len (waited nvs c k env d) r
                else answered (waited nvs c k env d) 0x3a []
          ])
      by_request overrun h = overflows
      by_request (refused status) h = refuses status h
      by_request (parsed r) h = after_wait r (wait nvs c d.pin env d.up).0 h refl
