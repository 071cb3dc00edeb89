-- ===== src/Authenticator/Register.antt =====
-- authenticatorMakeCredential of components/fido2/fido2.c (`cmd_make_credential`).
pub mod Fields
pub mod Effects
pub mod Request
pub mod Steps
use bluepass.Common.{
  ℕ, zero, suc, bit_or, Bool, true, false, not, ◌&&◌, ◌||◌, Option, none, some, List, [], ◌++◌, ltb,
  leb, ◌==◌, if◌then◌else◌, take, replicate, ascii,
}
use Prim.Native.String.{String}
use bluepass.Cbor.{
  CborDec, cd_item, cd_sub, cd_map_uint, cd_map_tstr, cd_bstr, cd_tstr, ce_init, ce_map, ce_uint,
  ce_nint, ce_bstr, ce_tstr,
}
use bluepass.Storage.{
  Nvs, storage_get_fido2_config, storage_get_fido2_master_key, storage_fido2_inc_sign_counter,
}
use bluepass.Storage.Slots.{fido2_rk_max, storage_set_fido2_rk}
use bluepass.ClientPin.{Crypto}
use bluepass.Credential.{
  Sealing, CredPlain, cred_encrypt, flag_up, flag_uv, build_auth_data_make, Fido2Rk, rk_bytes,
  find_slot,
}
use bluepass.Authenticator.{
  Device, Env, Answer, answered, overflowed, with_flash, Parse, parsed, refused, overrun, ◌>>=◌,
  required, optional, non_null, skip_item, client_data_hash, option_flag, user_verified, wait,
}

-- What a request asks for, as far as it is read before the wait.
pub record MakeRequest : Type 0 where
  pub hash : List ℕ
  pub rp_id_hash : List ℕ
  pub rk : Bool
  pub uv : Bool

-- The user's entry as it is stored.
pub record UserEntry : Type 0 where
  pub user_id : List ℕ
  pub user_id_len : ℕ
  pub user_name : List ℕ
  pub display_name : List ℕ

-- `memcpy` of `n` bytes into a zeroed array.
abbrev pub copied : ℕ → ℕ → List ℕ → List ℕ
copied size n bytes = take size (take n bytes ++ replicate size 0)

-- The value -7.
unfoldable pub is_es256 : Option CborDec → Bool
is_es256 none = false
is_es256 (some a) = let (alg, a') = cd_item a in not a'.err && alg.major_type == 1 && alg.val == 6

-- The loop over pubKeyCredParams: whether one has `"alg": -7`.
unfoldable pub alg_loop : ℕ → ℕ → CborDec → Bool → Parse Bool
alg_loop fuel zero v has = parsed has
alg_loop fuel (suc n) v has = elim v.err [
  | true ↦ parsed has
  | false ↦ optional (cd_map_tstr fuel (cd_sub v).buf (cd_sub v).len (ascii "alg")) >>= λ o.
      skip_item fuel v >>= λ v'. alg_loop fuel n v' (has || is_es256 o)
]

unfoldable pub has_es256 : ℕ → Option CborDec → Parse Bool
has_es256 fuel none = parsed false
has_es256 fuel (some v) =
    let (arr, v') = cd_item v in
    if not v'.err && arr.major_type == 4 then alg_loop fuel arr.val v' false else parsed false

-- A text of the user map, cut to 31 bytes.
unfoldable pub user_text : ℕ → CborDec → String → Parse (List ℕ)
user_text fuel v key = do
  o ← optional (cd_map_tstr fuel v.buf v.len (ascii key))
  parsed (elim o [
    | none ↦ replicate 32 0
    | some t ↦ elim (cd_tstr t).0 [
      | none ↦ replicate 32 0
      | some (p, n) ↦ copied 32 (if ltb n 31 then n else 31) p
    ]
  ])

unfoldable pub user_handle : ℕ → CborDec → Parse (List ℕ × ℕ)
user_handle fuel v = do
  o ← optional (cd_map_tstr fuel v.buf v.len (ascii "id"))
  parsed (elim o [
    | none ↦ (replicate 64 0, 0)
    | some t ↦ elim (cd_bstr t).0 [
      | none ↦ (replicate 64 0, 0)
      | some (p, n) ↦ let len = if ltb n 64 then n else 64 in (copied 64 len p, len)
    ]
  ])

unfoldable pub user_entry : ℕ → Option CborDec → Parse UserEntry
user_entry fuel none = parsed (record {
  user_id = replicate 64 0;
  user_id_len = 0;
  user_name = replicate 32 0;
  display_name = replicate 32 0;
})
user_entry fuel (some v) = do
  handle ← user_handle fuel v
  name ← user_text fuel v "name"
  display ← user_text fuel v "displayName"
  parsed (record {
    user_id = handle.0;
    user_id_len = handle.1;
    user_name = name;
    display_name = display;
  })

abbrev pub resident : List ℕ → List ℕ → ℕ → UserEntry → Fido2Rk
resident rp_id_hash cred_id sign_count user = record {
  active = true;
  rp_id_hash = rp_id_hash;
  cred_id = cred_id;
  user_id = user.user_id;
  user_id_len = user.user_id_len;
  user_name = user.user_name;
  display_name = user.display_name;
  sign_count = sign_count;
}

-- The body of the reply: the format, what is signed and the attestation.
pub make_body : List ℕ → List ℕ → List ℕ
make_body auth_data sig =
    let fmt = ce_tstr (ce_uint (ce_map (ce_init 512) 3) 1) (ascii "packed") in
    let stmt = ce_map (ce_uint (ce_bstr (ce_uint fmt 2) auth_data) 3) 2 in
    let alg = ce_nint (ce_tstr stmt (ascii "alg")) 6 in
    (ce_bstr (ce_tstr alg (ascii "sig")) sig).buf

module _ {S : Type 0} (nvs : Nvs S) (c : Crypto) (k : Sealing) (env : Env) (fuel : ℕ) (req : List ℕ)
    (req_len : ℕ) where
  -- The relying party of the request, hashed.
  unfoldable pub make_rp : Parse (List ℕ)
  make_rp = do
    v ← required (cd_map_uint fuel req req_len 0x02)
    rp ← required (cd_map_tstr fuel v.buf v.len (ascii "id"))
    s ← non_null 0x12 (cd_tstr rp).0
    if s.1 == 0 || ltb 128 s.1 then refused 0x12 else parsed (c.sha256 (take s.1 s.0))

  -- The options rk and uv.
  unfoldable pub make_options : Parse (Bool × Bool)
  make_options = do
    o ← optional (cd_map_uint fuel req req_len 0x07)
    elim o [
      | none ↦ parsed (false, false)
      | some v ↦ option_flag fuel v "rk" >>= λ rk. option_flag fuel v "uv" >>= λ uv. parsed (rk, uv)
    ]

  -- Everything before the wait, in the source's order.
  unfoldable pub parse_make : Device S → Parse MakeRequest
  parse_make d = do
    hash ← client_data_hash fuel req req_len 0x01
    rp_id_hash ← make_rp
    params ← optional (cd_map_uint fuel req req_len 0x04)
    es256 ← has_es256 fuel params
    supported ← (if es256 then parsed true else refused 0x26)
    options ← make_options
    uv ← user_verified nvs c d.pin hash options.1 (cd_map_uint fuel req req_len 0x08)
    (if options.0 && leb fido2_rk_max (storage_get_fido2_config nvs d.pin.flash).1.rk_count
        then refused 0x28
        else parsed (record { hash = hash; rp_id_hash = rp_id_hash; rk = options.0; uv = uv }))

  -- The resident key goes to the slot of the same account, or to the first free one.
  unfoldable pub store_resident : S → MakeRequest → List ℕ → ℕ → Parse S
  store_resident flash r cred_id sign_count = do
    o ← optional (cd_map_uint fuel req req_len 0x03)
    user ← user_entry fuel o
    elim (find_slot nvs flash (resident r.rp_id_hash cred_id sign_count user) fido2_rk_max 0 none) [
      | none ↦ refused 0x28
      | some slot ↦
          parsed
            (storage_set_fido2_rk nvs slot
              (rk_bytes (resident r.rp_id_hash cred_id sign_count user)) flash).1
    ]

  pub make_flags : Bool → ℕ
  make_flags uv = bit_or flag_up (if uv then flag_uv else 0)

  -- From `build_auth_data_make` on: the attestation is a signature of the new key.
  unfoldable pub attest : Device S → MakeRequest → List ℕ → ℕ → List ℕ × List ℕ × List ℕ → Answer S
  attest d r cred_id sign_count (priv, x, y) =
      let auth_data =
        build_auth_data_make 300 r.rp_id_hash (make_flags r.uv) sign_count cred_id x y in
      elim (k.ecdsa_sign priv (c.sha256 (auth_data ++ r.hash))) [
        | none ↦ answered d 0x27 []
        | some sig ↦ answered d 0 (make_body auth_data sig)
      ]

  -- With a credential id: the counter, the resident key, the signature.
  unfoldable pub enrol : Device S → MakeRequest → List ℕ → List ℕ × List ℕ × List ℕ → Answer S
  enrol d r cred_id pair =
      let (sign_count, flash) = storage_fido2_inc_sign_counter nvs d.pin.flash in
      if r.rk
      then elim (store_resident flash r cred_id sign_count) [
        | overrun ↦ overflowed
        | refused status ↦ answered (with_flash d flash) status []
        | parsed stored ↦ attest (with_flash d stored) r cred_id sign_count pair
      ]
      else attest (with_flash d flash) r cred_id sign_count pair

  -- Behind the wait: the key pair and the credential id.
  unfoldable pub make_confirmed : Device S → MakeRequest → Answer S
  make_confirmed d r = elim env.key_pair [
    | none ↦ answered d 0x27 []
    | some (priv, x, y) ↦
        let plain : CredPlain = record {
          priv_key = take 32 priv;
          rp_id_hash = r.rp_id_hash;
          flags = bit_or (if r.rk then 0x01 else 0x00) (if r.uv then 0x02 else 0x00);
        } in
        elim (cred_encrypt k (storage_get_fido2_master_key nvs d.pin.flash env.stack).1 plain
          env.nonce) [ none ↦ answered d 0x27 [] | some cred_id ↦ enrol d r cred_id (priv, x, y) ]
  ]

  unfoldable pub cmd_make_credential : Device S → Answer S
  cmd_make_credential d = elim (parse_make d) [
    | overrun ↦ overflowed
    | refused status ↦ answered d status []
    | parsed r ↦
        let (confirmed, up) = wait nvs c d.pin env d.up in
        let waited = record d { up = up } in
        if confirmed then make_confirmed waited r else answered waited 0x3a []
  ]
