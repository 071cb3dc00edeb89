-- ===== src/Authenticator/Assert.antt =====
-- authenticatorGetAssertion of components/fido2/fido2.c (`cmd_get_assertion`).
pub mod Own
pub mod Effects
pub mod Steps
use bluepass.Common.{
  ℕ, zero, suc, bit_or, Bool, true, false, not, ◌&&◌, Option, none, some, List, [], ◌++◌, ◌==◌,
  if◌then◌else◌, take, bytes_eq, ascii,
}
use bluepass.Cbor.{
  CborDec, cd_item, cd_sub, cd_map_uint, cd_map_tstr, cd_bstr, cd_tstr, ce_init, ce_map, ce_uint,
  ce_bstr, ce_tstr,
}
use bluepass.Storage.{Nvs, storage_get_fido2_master_key, storage_fido2_inc_sign_counter}
use bluepass.Storage.Slots.{fido2_rk_max}
use bluepass.ClientPin.{Crypto}
use bluepass.Credential.{
  Sealing, CredPlain, cred_decrypt, cred_id_len, flag_up, flag_uv, build_auth_data_get,
  find_resident,
}
use bluepass.Authenticator.{
  Device, Env, Answer, answered, overflowed, with_flash, Parse, parsed, refused, overrun, ◌>>=◌,
  required, optional, non_null, skip_item, client_data_hash, option_flag, user_verified, wait,
}

-- What is read before the wait: what is signed with which credential.
pub record AssertRequest : Type 0 where
  pub hash : List ℕ
  pub rp_id_hash : List ℕ
  pub plain : CredPlain
  pub cred_id : List ℕ
  pub uv : Bool

-- An entry of the allow list that is a credential of this relying party.
unfoldable pub usable : Sealing → List ℕ → List ℕ → Option CborDec → Option (CredPlain × List ℕ)
usable k master_key rp_id_hash none = none
usable k master_key rp_id_hash (some v) = elim (cd_bstr v).0 [
  | none ↦ none
  | some (p, n) ↦ elim (n == cred_id_len) [
    | false ↦ none
    | true ↦ elim (cred_decrypt k master_key (take cred_id_len p)) [
      | none ↦ none
      | some plain ↦
          if bytes_eq plain.rp_id_hash rp_id_hash then some (plain, take cred_id_len p) else none
    ]
  ]
]

-- The loop over the allow list, until one is found. The entry found is skipped as well.
unfoldable pub allow_loop :
    Sealing → List ℕ → List ℕ → ℕ → ℕ → CborDec → Parse (Option (CredPlain × List ℕ))
allow_loop k master_key rp_id_hash fuel zero v = parsed none
allow_loop k master_key rp_id_hash fuel (suc n) v = elim v.err [
  | true ↦ parsed none
  | false ↦ optional (cd_map_tstr fuel (cd_sub v).buf (cd_sub v).len (ascii "id")) >>= λ o.
      skip_item fuel v >>= λ v'. elim (usable k master_key rp_id_hash o) [
        | some hit ↦ parsed (some hit)
        | none ↦ allow_loop k master_key rp_id_hash fuel n v'
      ]
]

unfoldable pub find_allowed :
    Sealing → List ℕ → List ℕ → ℕ → Option CborDec → Parse (Option (CredPlain × List ℕ))
find_allowed k master_key rp_id_hash fuel none = parsed none
find_allowed k master_key rp_id_hash fuel (some v) =
    let (arr, v') = cd_item v in
    if not v'.err && arr.major_type == 4
    then allow_loop k master_key rp_id_hash fuel arr.val v'
    else parsed none

-- The body of the reply: what is signed, the signature and the credential.
pub assert_body : List ℕ → List ℕ → List ℕ → List ℕ
assert_body auth_data sig cred_id =
    let signed = ce_bstr (ce_uint (ce_map (ce_init 256) 3) 2) auth_data in
    let descriptor = ce_map (ce_uint (ce_bstr (ce_uint signed 3) sig) 1) 2 in
    let kind = ce_tstr (ce_tstr descriptor (ascii "type")) (ascii "public-key") in
    (ce_bstr (ce_tstr kind (ascii "id")) cred_id).buf

module _ {S : Type 0} (nvs : Nvs S) (c : Crypto) (k : Sealing) (env : Env) (fuel : ℕ) (req : List ℕ)
    (req_len : ℕ) where
  unfoldable pub assert_rp : Parse (List ℕ)
  assert_rp = do
    v ← required (cd_map_uint fuel req req_len 0x01)
    s ← non_null 0x12 (cd_tstr v).0
    if s.1 == 0 then refused 0x12 else parsed (c.sha256 (take s.1 s.0))

  -- The allow list first, then the resident keys.
  unfoldable pub find_credential : S → List ℕ → Parse (CredPlain × List ℕ)
  find_credential flash rp_id_hash = do
    let master_key = (storage_get_fido2_master_key nvs flash env.stack).1
    list ← optional (cd_map_uint fuel req req_len 0x03)
    allowed ← find_allowed k master_key rp_id_hash fuel list
    elim allowed [
      | some hit ↦ parsed hit
      | none ↦ elim (find_resident nvs flash k master_key rp_id_hash fido2_rk_max 0) [
        | some hit ↦ parsed hit
        | none ↦ refused 0x2e
      ]
    ]

  unfoldable pub assert_uv_option : Parse Bool
  assert_uv_option = do
    o ← optional (cd_map_uint fuel req req_len 0x05)
    elim o [ none ↦ parsed false | some v ↦ option_flag fuel v "uv" ]

  -- Everything before the wait, in the source's order.
  unfoldable pub parse_assert : Device S → Parse AssertRequest
  parse_assert d = do
    rp_id_hash ← assert_rp
    hash ← client_data_hash fuel req req_len 0x02
    hit ← find_credential d.pin.flash rp_id_hash
    opt_uv ← assert_uv_option
    uv ← user_verified nvs c d.pin hash opt_uv (cd_map_uint fuel req req_len 0x06)
    parsed
        (record { hash = hash; rp_id_hash = rp_id_hash; plain = hit.0; cred_id = hit.1; uv = uv })

  -- Behind the wait: the counter, and the signature over the authenticator data and the hash.
  unfoldable pub sign_assertion : Device S → AssertRequest → Answer S
  sign_assertion d r =
      let (sign_count, flash) = storage_fido2_inc_sign_counter nvs d.pin.flash in
      let flags = bit_or flag_up (if r.uv then flag_uv else 0) in
      let auth_data = build_auth_data_get r.rp_id_hash flags sign_count in
      elim (k.ecdsa_sign r.plain.priv_key (c.sha256 (auth_data ++ r.hash))) [
        | none ↦ answered (with_flash d flash) 0x27 []
        | some sig ↦ answered (with_flash d flash) 0 (assert_body auth_data sig r.cred_id)
      ]

  unfoldable pub cmd_get_assertion : Device S → Answer S
  cmd_get_assertion d = elim (parse_assert d) [
    | overrun ↦ overflowed
    | refused status ↦ answered d status []
    | parsed r ↦
        let (confirmed, up) = wait nvs c d.pin env d.up in
        let waited = record d { up = up } in
        if confirmed then sign_assertion waited r else answered waited 0x3a []
  ]
