-- ===== src/Credential/Tests.antt =====
-- A cipher that hides nothing, and a resident key that is stored and found again.
use bluepass.Common.{
  ℕ, zero, suc, ◌≡◌, refl, sym, ◌∙◌, true, false, none, some, List, [], ◌∷◌, ◌++◌, take, replicate,
  arith, bytes_eq,
}
use mathlib.Core.Path.{subst}
use mathlib.Core.Option.{some-injective}
use bluepass.Storage.{numbered}
use bluepass.Storage.Working.{Flash, put, working, working-IsReliable}
use bluepass.Storage.Slots.{storage_set_fido2_rk, storage_get_fido2_rk, slot_get, read_zeroed}
use bluepass.Credential.{
  Sealing, CredPlain, cred_encrypt, Fido2Rk, rk_bytes, find_slot, find_resident, occupied,
  same_account, bytes_rk,
}
use bluepass.Credential.RoundTrip.{IsSealing, IsResident}
use bluepass.Credential.Stored.{IsFirst, find_resident-find_slot}

-- The cipher text is the plain text, and the tag is sixteen zeros.
abbrev clear : Sealing
clear = record {
  gcm_setkey = λ key. 0;
  gcm_crypt = λ key nonce plain. (0, plain, replicate 16 0);
  gcm_decrypt = λ key nonce tag cipher. (0, cipher);
  ecdsa_sign = λ priv hash. some (take 8 hash);
}

clear-IsSealing : IsSealing clear
clear-IsSealing = record {
  opens = λ key nonce plain cipher tag e. ground arith;
  cipher_size = λ key nonce plain cipher tag e. ground arith;
  tag_size = λ key nonce plain cipher tag e. ground arith;
}

abbrev secret : CredPlain
secret = record { priv_key = replicate 32 5; rp_id_hash = replicate 32 6; flags = 1 }

abbrev id : List ℕ
id =
    replicate 12 9 ++ (replicate 32 5 ++ (replicate 32 6 ++ (1 ∷ replicate 15 0))) ++ replicate 16 0

abbrev key : Fido2Rk
key = record {
  active = true;
  rp_id_hash = replicate 32 6;
  cred_id = id;
  user_id = 7 ∷ replicate 63 0;
  user_id_len = 1;
  user_name = replicate 32 0;
  display_name = replicate 32 0;
  sign_count = 4;
}

-- The first slot has a key of another relying party.
abbrev other : Fido2Rk
other = record key { rp_id_hash = replicate 32 8 }

abbrev flash : Flash
flash = put (λ k. none) (numbered "rk" 0) (some (rk_bytes other))

key-IsResident : IsResident key
key-IsResident = record {
  in_use = refl;
  hash_size = refl;
  cred_size = refl;
  user_size = refl;
  name_size = refl;
  display_size = refl;
  count_range = omega arith;
}

sealed : cred_encrypt clear [] secret (replicate 12 9) ≡ some id
unfolding cred_encrypt
sealed = refl

second_slot : find_slot working flash key 8 0 none ≡ some 1
unfolding find_slot occupied same_account storage_get_fido2_rk slot_get read_zeroed rk_bytes
    bytes_rk bytes_eq
second_slot = refl

first_slot : occupied working flash 0 ≡ some other
unfolding occupied storage_get_fido2_rk slot_get read_zeroed rk_bytes bytes_rk
first_slot = refl

differs : bytes_eq other.rp_id_hash key.rp_id_hash ≡ false
unfolding bytes_eq
differs = refl

alone : IsFirst working working-IsReliable flash key key-IsResident clear [] secret 1
alone zero r before e =
    subst (λ (x : Fido2Rk). bytes_eq x.rp_id_hash key.rp_id_hash ≡ false)
      (some-injective other r (sym first_slot ∙ e)) differs
alone (suc j) r before e = absurd (omega arith)

find_resident-find_slot_example :
    find_resident working
      (storage_set_fido2_rk working 1 (rk_bytes key) flash).1
      clear
      []
      (replicate 32 6)
      8
      0
    ≡ some (secret, id)
find_resident-find_slot_example =
    find_resident-find_slot working working-IsReliable flash key key-IsResident clear []
      (replicate 12 9) secret 1 clear-IsSealing (record { key_size = refl; hash_size = refl }) refl
      refl sealed second_slot alone
