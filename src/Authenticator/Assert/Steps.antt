-- ===== src/Authenticator/Assert/Steps.antt =====
-- `cmd_get_assertion` keeps to the relation of Assert/Effects.antt.
use bluepass.Common.{
  ◌⊎◌, ℕ, ◌≡◌, refl, Bool, true, false, Option, none, some, List, [], ◌++◌, ◌==◌, if◌then◌else◌,
  arith, ap, bit_or,
}
use bluepass.Cbor.{CborDec, Lookup, cd_map_uint, cd_tstr}
use bluepass.Storage.{Nvs, storage_get_fido2_master_key}
use bluepass.Storage.Slots.{fido2_rk_max}
use bluepass.ClientPin.{Crypto}
use bluepass.Credential.{Sealing, CredPlain, build_auth_data_get, find_resident, flag_up, flag_uv}
use bluepass.Credential.Resident.{IsOwn, OwnIfFound, find_resident-IsOwn}
use bluepass.Authenticator.{
  Device, Env, answered, overflowed, with_flash, Parse, parsed, refused, overrun, required,
  optional, non_null, client_data_hash, option_flag, user_verified, wait,
}
use bluepass.Authenticator.Assert.{
  AssertRequest, find_allowed, assert_body, assert_rp, find_credential, assert_uv_option,
  parse_assert, sign_assertion, cmd_get_assertion,
}
use bluepass.Authenticator.Assert.Own.{find_allowed-IsOwn}
use bluepass.Authenticator.Reading.{
  Ensures, Any, bind, self, required-Any, optional-Any, non_null-Ensures, if_Ensures,
  client_data_hash-Ensures, option_flag-Ensures, IsPinProof, user_verified-IsPinProof,
}
use bluepass.Authenticator.Assert.Effects.{
  waited, counted, master, AssertStep, overflows, refuses, lapses, unsigned, signs,
}

module _ {S : Type 0} (nvs : Nvs S) (c : Crypto) (k : Sealing) (env : Env) (fuel : ℕ) (req : List ℕ)
    (req_len : ℕ) where
  assert_rp-Ensures : Ensures Any (assert_rp nvs c k env fuel req req_len)
  unfolding assert_rp
  assert_rp-Ensures =
      let l = cd_map_uint fuel req req_len 0x01 in
      bind Any Any (required l) _ (required-Any l) λ v _.
        bind (λ r. (cd_tstr v).0 ≡ some r) Any (non_null 0x12 (cd_tstr v).0) _
          (non_null-Ensures 0x12 (cd_tstr v).0 (omega arith))
          λ s _. if_Ensures Any (s.1 == 0) _ _ (λ _. omega arith) (λ _. tt)

  find_credential-IsOwn :
      (flash : S) (rp_id_hash : List ℕ)
      → Ensures
          (IsOwn k (storage_get_fido2_master_key nvs flash env.stack).1 rp_id_hash)
          (find_credential nvs c k env fuel req req_len flash rp_id_hash)
  unfolding find_credential
  find_credential-IsOwn flash rp_id_hash =
      let m = (storage_get_fido2_master_key nvs flash env.stack).1 in
      let l = cd_map_uint fuel req req_len 0x03 in
      bind Any (IsOwn k m rp_id_hash) (optional l) _ (optional-Any l) λ list _.
        bind (OwnIfFound k m rp_id_hash) (IsOwn k m rp_id_hash)
          (find_allowed k m rp_id_hash fuel list) _ (find_allowed-IsOwn k m rp_id_hash fuel list)
          (allowed m)
    where
      stored :
          (m : List ℕ) (o : Option (CredPlain × List ℕ))
          → OwnIfFound k m rp_id_hash o
          → Ensures (IsOwn k m rp_id_hash) (elim o [ some hit ↦ parsed hit | none ↦ refused 0x2e ])
      stored m none own = omega arith
      stored m (some hit) own = own

      allowed :
          (m : List ℕ) (o : Option (CredPlain × List ℕ))
          → OwnIfFound k m rp_id_hash o
          → Ensures (IsOwn k m rp_id_hash) (elim o [
            | some hit ↦ parsed hit
            | none ↦ elim (find_resident nvs flash k m rp_id_hash fido2_rk_max 0) [
              | some hit ↦ parsed hit
              | none ↦ refused 0x2e
            ]
          ])
      allowed m (some hit) own = own
      allowed m none own =
          stored m (find_resident nvs flash k m rp_id_hash fido2_rk_max 0)
            (find_resident-IsOwn k m rp_id_hash nvs flash fido2_rk_max 0)

  assert_uv_option-Ensures : Ensures Any (assert_uv_option nvs c k env fuel req req_len)
  unfolding assert_uv_option
  assert_uv_option-Ensures =
      let l = cd_map_uint fuel req req_len 0x05 in
      bind Any Any (optional l) _ (optional-Any l) by_case
    where
      by_case :
          (o : Option CborDec)
          → Unit {0}
          → Ensures {A = Bool} Any
              (elim o [ none ↦ parsed false | some v ↦ option_flag fuel v "uv" ])
      by_case none u = tt
      by_case (some v) u = option_flag-Ensures fuel v "uv"

  module _ (d : Device S) where
    abbrev rp : Parse (List ℕ)
    rp = assert_rp nvs c k env fuel req req_len

    abbrev hash : Parse (List ℕ)
    hash = client_data_hash fuel req req_len 0x02

    abbrev sent : Lookup
    sent = cd_map_uint fuel req req_len 0x06

    -- What the request is known to be where it is not refused.
    abbrev IsRead : AssertRequest → Type 0
    IsRead r =
        (rp ≡ parsed r.rp_id_hash)
        × (hash ≡ parsed r.hash)
        × IsOwn k (master nvs c k env d) r.rp_id_hash (r.plain, r.cred_id)
        × ((r.uv ≡ false) ⊎ IsPinProof nvs c d.pin r.hash sent)

    parse_assert-IsRead : Ensures IsRead (parse_assert nvs c k env fuel req req_len d)
    unfolding parse_assert
    parse_assert-IsRead =
        bind (λ a. rp ≡ parsed a) IsRead rp _ (self rp assert_rp-Ensures)
          λ a is_rp.
            bind (λ h. hash ≡ parsed h) IsRead hash _
              (self hash (client_data_hash-Ensures fuel req req_len 0x02))
              λ h is_hash.
                bind (IsOwn k (master nvs c k env d) a) IsRead
                  (find_credential nvs c k env fuel req req_len d.pin.flash a) _
                  (find_credential-IsOwn d.pin.flash a)
                  λ hit own.
                    bind Any IsRead (assert_uv_option nvs c k env fuel req req_len) _
                      assert_uv_option-Ensures
                      λ opt_uv _.
                        bind (λ uv. (uv ≡ false) ⊎ IsPinProof nvs c d.pin h sent) IsRead
                          (user_verified nvs c d.pin h opt_uv sent) _
                          (user_verified-IsPinProof nvs c d.pin h opt_uv sent)
                          λ uv proof. (is_rp, is_hash, own, proof)

    sign_assertion-AssertStep :
        (r : AssertRequest)
        → IsRead r
        → (wait nvs c d.pin env d.up).0 ≡ true
        → AssertStep nvs c k env d rp hash sent
            (sign_assertion nvs c k env fuel req req_len (waited nvs c k env d) r)
    unfolding sign_assertion
    sign_assertion-AssertStep r read confirmed =
        by_signature _ (flags_of r.uv) (k.ecdsa_sign r.plain.priv_key _) refl
      where
        flags_of : (uv : Bool) → bit_or flag_up (if uv then flag_uv else 0) ≡ (if uv then 5 else 1)
        flags_of true = refl
        flags_of false = refl

        by_signature :
            (flags : ℕ)
            → flags ≡ (if r.uv then 5 else 1)
            → (o : Option (List ℕ))
            → k.ecdsa_sign r.plain.priv_key (
                c.sha256
                  (build_auth_data_get r.rp_id_hash flags (counted nvs c k env d).0 ++ r.hash))
              ≡ o
            → AssertStep nvs c k env d rp hash sent (elim o [
              | none ↦
                  answered (with_flash (waited nvs c k env d) (counted nvs c k env d).1) 0x27 []
              | some sig ↦
                  answered (with_flash (waited nvs c k env d) (counted nvs c k env d).1) 0 (
                    assert_body
                      (build_auth_data_get r.rp_id_hash flags (counted nvs c k env d).0)
                      sig
                      r.cred_id)
            ])
        by_signature flags e none s = unsigned confirmed
        by_signature flags e (some sig) s =
            signs r _ sig confirmed read.0 read.1 read.2 read.3
              (ap (λ n. build_auth_data_get r.rp_id_hash n (counted nvs c k env d).0) e) s

    -- Every outcome of `cmd_get_assertion` is one that the relation allows: a refusal before the
    -- wait, which changes nothing; a wait without a confirmation, which gives no signature and
    -- leaves the counter alone; behind a confirmation, a failed signature; or one by a key that was
    -- sealed for the relying party of the request, over its client data, the flag of presence, the
    -- flag of verification only with a proof of the PIN, and the counter that is stored.
    pub cmd_get_assertion-AssertStep :
        AssertStep nvs c k env d
          (assert_rp nvs c k env fuel req req_len)
          (client_data_hash fuel req req_len 0x02)
          (cd_map_uint fuel req req_len 0x06)
          (cmd_get_assertion nvs c k env fuel req req_len d)
    unfolding cmd_get_assertion
    cmd_get_assertion-AssertStep =
        by_request (parse_assert nvs c k env fuel req req_len d) parse_assert-IsRead
      where
        after_wait :
            (r : AssertRequest) (b : Bool)
            → IsRead r
            → (wait nvs c d.pin env d.up).0 ≡ b
            → AssertStep nvs c k env d rp hash sent (
                if b
                then sign_assertion nvs c k env fuel req req_len (waited nvs c k env d) r
                else answered (waited nvs c k env d) 0x3a [])
        after_wait r true read e = sign_assertion-AssertStep r read e
        after_wait r false read e = lapses e

        by_request :
            (m : Parse AssertRequest)
            → Ensures IsRead m
            → AssertStep nvs c k env d rp hash sent (elim m [
              | overrun ↦ overflowed
              | refused status ↦ answered d status []
              | parsed r ↦
                  if (wait nvs c d.pin env d.up).0
                  then sign_assertion nvs c k env fuel req req_len (waited nvs c k env d) r
                  else answered (waited nvs c k env d) 0x3a []
            ])
        by_request overrun h = overflows
        by_request (refused status) h = refuses status h
        by_request (parsed r) h = after_wait r (wait nvs c d.pin env d.up).0 h refl
