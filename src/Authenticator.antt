-- ===== src/Authenticator.antt =====
-- What authenticatorMakeCredential and authenticatorGetAssertion of components/fido2/fido2.c share:
-- how a request is read, the check of the PIN token, and the wait for the user. Their children are
-- the commands themselves and the dispatcher.
pub mod Register
pub mod Assert
pub mod Manage
pub mod Dispatch
pub mod Reading
mod Tests
use bluepass.Common.{
  ℕ, zero, suc, Bool, true, false, not, ◌&&◌, Option, none, some, List, [], ◌∷◌, ltb, ◌==◌,
  if◌then◌else◌, take, bytes_eq, ascii,
}
use Prim.Native.String.{String}
use bluepass.Cbor.{
  CborDec, Lookup, found, absent, too_deep, cd_item, cd_skip, cd_map_uint, cd_map_tstr, cd_bstr,
}
use bluepass.Storage.{Nvs, storage_fido2_has_pin}
use bluepass.ClientPin.{Crypto, PinState}
use bluepass.UserPresence.{Up, Press, wait_for_up}

-- The static state of fido2.c.
pub record Device (S : Type 0) : Type 0 where
  pub pin : PinState S
  pub up : Up

-- What the environment supplies to one command: the key presses during the wait, as in
-- UserPresence.antt, a new key pair (scalar and coordinates), twelve random bytes, and what the
-- array for the master key holds before it is read.
pub record Env : Type 0 where
  pub slices : List (List Press)
  pub late : List Press
  pub key_pair : Option (List ℕ × List ℕ × List ℕ)
  pub nonce : List ℕ
  pub stack : List ℕ

-- A reply with its status, or a `cd_skip` that recurs too deep and takes the task's stack with it.
pub data Answer (S : Type 0) : Type 0 where
  answered : Device S → ℕ → List ℕ → Answer S
  overflowed : Answer S

abbrev pub with_flash : {S : Type 0} → Device S → S → Device S
with_flash d s = record d { pin = record (d.pin) { flash = s } }

-- One step of reading a request: a value, a refusal with its status, or a stack that overflows.
pub data Parse (A : Type 0) : Type 0 where
  parsed : A → Parse A
  refused : ℕ → Parse A
  overrun : Parse A

infixl 5 ◌>>=◌
abbrev pub ◌>>=◌ : {A B : Type 0} → Parse A → (A → Parse B) → Parse B
parsed a >>= f = f a
refused status >>= f = refused status
overrun >>= f = overrun

-- `if (!cd_map_...) { CTAP2_ERR_MISSING_PARAMETER }`
pub required : Lookup → Parse CborDec
required absent = refused 0x14
required too_deep = overrun
required (found v) = parsed v

-- `if (cd_map_...) { ... }`
pub optional : Lookup → Parse (Option CborDec)
optional absent = parsed none
optional too_deep = overrun
optional (found v) = parsed (some v)

-- A string, where NULL is refused.
pub non_null : ℕ → Option (List ℕ × ℕ) → Parse (List ℕ × ℕ)
non_null status none = refused status
non_null status (some s) = parsed s

pub skip_item : ℕ → CborDec → Parse CborDec
skip_item fuel d = elim (cd_skip fuel d) [ none ↦ overrun | some e ↦ parsed e ]

-- The item behind the key is CBOR's `true`.
abbrev pub is_true : Option CborDec → Bool
is_true none = false
is_true (some v) = let (it, v') = cd_item v in not v'.err && it.major_type == 7 && it.val == 21

module _ (fuel : ℕ) (req : List ℕ) (req_len : ℕ) where
  -- clientDataHash, 32 bytes.
  pub client_data_hash : ℕ → Parse (List ℕ)
  client_data_hash key = do
    v ← required (cd_map_uint fuel req req_len key)
    s ← non_null 0x12 (cd_bstr v).0
    if s.1 == 32 then parsed (take 32 s.0) else refused 0x12

-- An option of the map `v`.
pub option_flag : ℕ → CborDec → String → Parse Bool
option_flag fuel v name = do
  o ← optional (cd_map_tstr fuel v.buf v.len (ascii name))
  parsed (is_true o)

module _ {S : Type 0} (nvs : Nvs S) (c : Crypto) (f : PinState S) where
  -- The parameter pinAuth: the HMAC of the hash under the PIN token, 16 bytes of it compared.
  pub check_pin_auth : List ℕ → CborDec → Parse Bool
  check_pin_auth hash v = if not f.pin_token_valid then refused 0x36 else do
    s ← non_null 0x33 (cd_bstr v).0
    (if ltb s.1 16
        then refused 0x33
        else if bytes_eq (take 16 (c.hmac_sha256 (take 16 f.pin_token) hash)) (take 16 s.0)
        then parsed true
        else refused 0x33)

  -- `uv_flag`: without pinAuth no verification, and where the option asks for it a refusal.
  pub user_verified : List ℕ → Bool → Lookup → Parse Bool
  user_verified hash opt_uv sent = do
    o ← optional sent
    elim o [
      | some v ↦ check_pin_auth hash v
      | none ↦
          if opt_uv
          then (if not (storage_fido2_has_pin nvs f.flash) then refused 0x35 else refused 0x36)
          else parsed false
    ]

  -- `wait_for_up`, with what happens meanwhile.
  pub wait : Env → Up → Bool × Up
  wait env up = wait_for_up nvs f.flash env.slices env.late up
