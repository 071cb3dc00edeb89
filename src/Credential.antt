-- ===== src/Credential.antt =====
-- Credentials in components/fido2/fido2.c: what a credential id is made of, the structures that are
-- signed, and the resident keys. AES-GCM of mbedtls and the signature are parameters.
pub mod RoundTrip
pub mod Resident
pub mod Stored
mod Tests
use bluepass.Common.{
  ℕ, zero, suc, ◌+◌, ◌-◌, ◌*◌, ◌/◌, ◌%◌, ◌^◌, bit_or, Bool, true, false, not, ◌&&◌, Option, none,
  some, List, [], ◌∷◌, ◌++◌, ltb, ◌==◌, if◌then◌else◌, get_or, take, drop, replicate, bytes_eq,
}
use bluepass.Cbor.{ce_init}
use bluepass.Cose.{ce_cose_key}
use bluepass.Storage.{Nvs}
use bluepass.Storage.Slots.{storage_get_fido2_rk}

abbrev pub cred_id_len : ℕ
cred_id_len = 108

abbrev pub cred_plain_len : ℕ
cred_plain_len = 80

-- BLUEPASS_AAGUID
abbrev pub bluepass_aaguid : List ℕ
bluepass_aaguid =
    0xb1 ∷ 0x6e ∷ 0x1f ∷ 0x39 ∷ 0x4c ∷ 0x3b ∷ 0x4f ∷ 0x2a ∷ 0x8b ∷ 0x1d ∷ 0x7e ∷ 0x6c ∷ 0x09 ∷ 0x5a
    ∷ 0x3d ∷ 0x2e ∷ []

-- mbedtls with the key of one command: AES-256-GCM and ECDSA over P-256. `gcm_setkey` and
-- `gcm_crypt` answer with an error code, 0 where all is well.
pub record Sealing : Type 0 where
  pub gcm_setkey : List ℕ → ℕ
  -- Key, nonce and plain text; the error, the cipher text and the tag.
  pub gcm_crypt : List ℕ → List ℕ → List ℕ → ℕ × List ℕ × List ℕ
  -- Key, nonce, tag and cipher text; the error and the plain text.
  pub gcm_decrypt : List ℕ → List ℕ → List ℕ → List ℕ → ℕ × List ℕ
  pub ecdsa_sign : List ℕ → List ℕ → Option (List ℕ)

-- `cred_plain_t`, whose padding is zeroed and never read.
pub record CredPlain : Type 0 where
  pub priv_key : List ℕ
  pub rp_id_hash : List ℕ
  pub flags : ℕ

abbrev pub plain_bytes : CredPlain → List ℕ
plain_bytes p = p.priv_key ++ (p.rp_id_hash ++ (p.flags ∷ replicate 15 0))

abbrev pub bytes_plain : List ℕ → CredPlain
bytes_plain b = record {
  priv_key = take 32 b;
  rp_id_hash = take 32 (drop 32 b);
  flags = get_or b 64 0;
}

module _ (k : Sealing) where
  -- The nonce is what `esp_fill_random` gave; `none` is false.
  unfoldable pub cred_encrypt : List ℕ → CredPlain → List ℕ → Option (List ℕ)
  cred_encrypt master_key plain nonce =
      let (ret, cipher, tag) = k.gcm_crypt master_key nonce (plain_bytes plain) in
      if k.gcm_setkey master_key == 0
      then (if ret == 0 then some (nonce ++ (cipher ++ tag)) else none)
      else none

  unfoldable pub cred_decrypt : List ℕ → List ℕ → Option CredPlain
  cred_decrypt master_key cred_id =
      let nonce = take 12 cred_id in
      let cipher = take cred_plain_len (drop 12 cred_id) in
      let tag = take 16 (drop (12 + cred_plain_len) cred_id) in
      let (ret, plain) = k.gcm_decrypt master_key nonce tag cipher in
      if k.gcm_setkey master_key == 0
      then (if ret == 0 then some (bytes_plain plain) else none)
      else none

abbrev pub flag_up : ℕ
flag_up = 0x01

abbrev pub flag_uv : ℕ
flag_uv = 0x04

abbrev pub flag_at : ℕ
flag_at = 0x40

-- The hash of the relying party, the flags and the four bytes of the counter.
abbrev auth_data_head : List ℕ → ℕ → ℕ → List ℕ → List ℕ
auth_data_head rp_id_hash flags sign_count rest =
    rp_id_hash
    ++ (flags
        ∷ (sign_count / 2 ^ 24 % 256)
        ∷ (sign_count / 2 ^ 16 % 256)
        ∷ (sign_count / 2 ^ 8 % 256)
        ∷ (sign_count % 256)
        ∷ rest)

-- The bytes that are written to `out`; there are none where `cap` is too small for the hash. The
-- part before the COSE key is 163 bytes long.
pub build_auth_data_make : ℕ → List ℕ → ℕ → ℕ → List ℕ → List ℕ → List ℕ → List ℕ
build_auth_data_make cap rp_id_hash flags sign_count cred_id pub_x pub_y =
    let cose = (ce_cose_key (ce_init (cap - 163)) pub_x pub_y).buf in
    if ltb cap 32
    then []
    else auth_data_head rp_id_hash (bit_or flags flag_at) sign_count
        (bluepass_aaguid ++ (0 ∷ cred_id_len ∷ (cred_id ++ cose)))

pub build_auth_data_get : List ℕ → ℕ → ℕ → List ℕ
build_auth_data_get rp_id_hash flags sign_count = auth_data_head rp_id_hash flags sign_count []

-- `fido2_rk_t`
pub record Fido2Rk : Type 0 where
  pub active : Bool
  pub rp_id_hash : List ℕ
  pub cred_id : List ℕ
  pub user_id : List ℕ
  pub user_id_len : ℕ
  pub user_name : List ℕ
  pub display_name : List ℕ
  pub sign_count : ℕ

-- The 276 bytes of the struct: two of padding, and the counter with its lowest byte first.
unfoldable pub rk_bytes : Fido2Rk → List ℕ
rk_bytes r =
    (if r.active then 1 else 0)
    ∷ (r.rp_id_hash
        ++ (r.cred_id
            ++ (r.user_id
                ++ (r.user_id_len
                    ∷ (r.user_name
                        ++ (r.display_name
                            ++ (0
                                ∷ 0
                                ∷ (r.sign_count % 256)
                                ∷ (r.sign_count / 2 ^ 8 % 256)
                                ∷ (r.sign_count / 2 ^ 16 % 256)
                                ∷ (r.sign_count / 2 ^ 24 % 256)
                                ∷ [])))))))

unfoldable pub bytes_rk : List ℕ → Fido2Rk
bytes_rk b = record {
  active = not (get_or b 0 0 == 0);
  rp_id_hash = take 32 (drop 1 b);
  cred_id = take 108 (drop 33 b);
  user_id = take 64 (drop 141 b);
  user_id_len = get_or b 205 0;
  user_name = take 32 (drop 206 b);
  display_name = take 32 (drop 238 b);
  sign_count =
      get_or b 272 0 + get_or b 273 0 * 2 ^ 8 + get_or b 274 0 * 2 ^ 16 + get_or b 275 0 * 2 ^ 24;
}

module _ {S : Type 0} (nvs : Nvs S) (flash : S) where
  -- `storage_get_fido2_rk(i, &rk) != ESP_OK || !rk.active`, negated.
  unfoldable pub occupied : ℕ → Option Fido2Rk
  occupied i =
      let (err, written) = storage_get_fido2_rk nvs i flash in
      if err == 0
      then elim written [
        | none ↦ none
        | some b ↦ let r = bytes_rk b in if r.active then some r else none
      ]
      else none

  -- `memcmp` of the hashes, and of as many bytes of the user ids as both have.
  unfoldable pub same_account : Fido2Rk → Fido2Rk → Bool
  same_account r new =
      bytes_eq r.rp_id_hash new.rp_id_hash
      && (r.user_id_len == new.user_id_len)
      && bytes_eq (take new.user_id_len r.user_id) (take new.user_id_len new.user_id)

  -- The loop over the slots `i`, …, of `cmd_make_credential`; `slot` is the free slot found so far.
  unfoldable pub find_slot : Fido2Rk → ℕ → ℕ → Option ℕ → Option ℕ
  find_slot new zero i slot = slot
  find_slot new (suc rounds) i slot =
      let free : Option ℕ = elim slot [ none ↦ some i | some s ↦ some s ] in
      elim (occupied i) [
        | none ↦ find_slot new rounds (i + 1) free
        | some r ↦ elim (same_account r new) [
          | true ↦ some i
          | false ↦ find_slot new rounds (i + 1) slot
        ]
      ]

  -- The loop over the resident keys of `cmd_get_assertion`: the first credential of this relying
  -- party, with its id.
  unfoldable pub find_resident : Sealing → List ℕ → List ℕ → ℕ → ℕ → Option (CredPlain × List ℕ)
  find_resident k master_key rp_id_hash zero i = none
  find_resident k master_key rp_id_hash (suc rounds) i =
      let rest = find_resident k master_key rp_id_hash rounds (i + 1) in
      elim (occupied i) [
        | none ↦ rest
        | some r ↦ elim (cred_decrypt k master_key r.cred_id) [
          | none ↦ rest
          | some p ↦
              if bytes_eq r.rp_id_hash rp_id_hash && bytes_eq p.rp_id_hash rp_id_hash
              then some (p, r.cred_id)
              else rest
        ]
      ]
