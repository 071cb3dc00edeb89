-- ===== src/Authenticator/Tests.antt =====
-- A registration and the assertion that follows it, and the theorems at them.
use bluepass.Common.{
  ℕ, ◌≡◌, refl, true, false, none, some, List, [], ◌∷◌, ◌++◌, take, replicate, arith, bytes_eq,
}
use bluepass.Cbor.{
  cd_byte, cd_be, cd_arg, cd_item, cd_advance, cd_skip_loop, cd_skip, cd_sub, cd_map_uint_loop,
  cd_map_uint, cd_map_tstr_loop, cd_map_tstr, cd_str, cd_bstr, cd_tstr,
}
use bluepass.Storage.{
  named, write_and_commit, storage_get_fido2_config, storage_get_fido2_master_key,
  storage_fido2_inc_sign_counter, storage_fido2_has_pin,
}
use bluepass.Storage.Slots.{
  storage_get_fido2_rk, slot_get, read_zeroed, storage_set_fido2_rk, slot_set,
}
use bluepass.Storage.Working.{Flash, put, working, working-IsReliable}
use bluepass.ClientPin.{Crypto}
use bluepass.UserPresence.{confirm, deliver, wait_loop, wait_for_up, fido2_confirm_up}
use bluepass.Credential.{
  Sealing, cred_encrypt, cred_decrypt, rk_bytes, bytes_rk, occupied, same_account, find_slot,
  find_resident,
}
use bluepass.Authenticator.{
  Device, Env, Answer, answered, overflowed, required, optional, non_null, skip_item,
  client_data_hash, option_flag, user_verified, wait,
}
use bluepass.Authenticator.Register.{
  is_es256, alg_loop, has_es256, user_text, user_handle, user_entry, make_rp, make_options,
  parse_make, store_resident, attest, enrol, make_confirmed, cmd_make_credential,
}
use bluepass.Authenticator.Assert.{
  usable, allow_loop, find_allowed, assert_rp, find_credential, assert_uv_option, parse_assert,
  sign_assertion, cmd_get_assertion,
}
use bluepass.Authenticator.Assert.Effects.{AssertStep}
use bluepass.Authenticator.Assert.Steps.{cmd_get_assertion-AssertStep}
use bluepass.Authenticator.Manage.{fido2_factory_reset}
use bluepass.Authenticator.Manage.Reset.{IsEmptySlot, fido2_factory_reset_lem}
use bluepass.CtapHid.{CtaphidState, ctaphid_send_packet, fido2_task}
use bluepass.Authenticator.Dispatch.{Supply, sent, ctaphid_dispatch, perform_all}
use bluepass.Authenticator.Dispatch.Echo.{ping_echo}
use bluepass.Authenticator.Dispatch.Answers.{Answers, ctaphid_dispatch-Answers}
use bluepass.Authenticator.Register.Effects.{MakeStep}
use bluepass.Authenticator.Register.Steps.{cmd_make_credential-MakeStep}

-- A hash is the first 32 bytes, and encryption changes nothing.
abbrev plain_crypto : Crypto
plain_crypto = record {
  sha256 = λ m. take 32 (m ++ replicate 32 0);
  hmac_sha256 = λ k m. take 32 (m ++ replicate 32 0);
  aes_cbc_decrypt = λ k m. m;
  aes_cbc_encrypt = λ k m. m;
  ecdh = λ d p. some d;
}

abbrev clear : Sealing
clear = record {
  gcm_setkey = λ key. 0;
  gcm_crypt = λ key nonce plain. (0, plain, replicate 16 0);
  gcm_decrypt = λ key nonce tag cipher. (0, cipher);
  ecdsa_sign = λ priv hash. some (take 8 priv);
}

-- The user presses the button in the first tenth of a second.
abbrev env : Env
env = record {
  slices = (confirm ∷ []) ∷ [];
  late = [];
  key_pair = some (replicate 32 5, replicate 32 2, replicate 32 3);
  nonce = replicate 12 9;
  stack = replicate 32 0;
}

-- An enabled device without a PIN.
abbrev device : Device Flash
device = record {
  pin = record {
    flash = put (λ k. none) (named "cfg") (some (1 ∷ 0 ∷ 8 ∷ 0 ∷ 0 ∷ 0 ∷ 0 ∷ 0 ∷ []));
    pin_d = [];
    pin_key_valid = false;
    pin_token = replicate 16 0;
    pin_token_valid = false;
  };
  up = record { up_sem = false; up_pending = false };
}

-- `{1: hash, 2: {"id": "a"}, 4: [{"alg": -7}], 7: {"rk": true}}`
abbrev make : List ℕ
make =
    (0xa4 ∷ 1 ∷ 0x58 ∷ 0x20 ∷ replicate 32 1)
    ++ (2 ∷ 0xa1 ∷ 0x62 ∷ 0x69 ∷ 0x64 ∷ 0x61 ∷ 0x61 ∷ 4 ∷ 0x81 ∷ 0xa1 ∷ 0x63 ∷ 0x61 ∷ 0x6c ∷ 0x67
        ∷ 0x26 ∷ 7 ∷ 0xa1 ∷ 0x62 ∷ 0x72 ∷ 0x6b ∷ 0xf5 ∷ [])

-- `{1: "a", 2: hash}`
abbrev get : List ℕ
get = 0xa2 ∷ 1 ∷ 0x61 ∷ 0x61 ∷ 2 ∷ 0x58 ∷ 0x20 ∷ replicate 32 4

abbrev status : Answer Flash → ℕ
status overflowed = 0x100
status (answered d s body) = s

cmd_make_credential-MakeStep_example :
    MakeStep working plain_crypto clear env device
      (make_rp working plain_crypto clear env 4 make 57)
      (client_data_hash 4 make 57 1)
      (cd_map_uint 4 make 57 8)
      (cmd_make_credential working plain_crypto clear env 4 make 57 device)
cmd_make_credential-MakeStep_example =
    cmd_make_credential-MakeStep working plain_crypto clear env 4 make 57 device

-- Two results: the state that the first command leaves is the one that the second finds.
abbrev then_assert : Answer Flash → Answer Flash
then_assert overflowed = overflowed
then_assert (answered d s body) = cmd_get_assertion working plain_crypto clear env 4 get 39 d

registered :
    (status (cmd_make_credential working plain_crypto clear env 4 make 57 device) ≡ 0)
    × (status (cmd_get_assertion working plain_crypto clear env 4 get 39 device) ≡ 0x2e)
    × (status (then_assert (cmd_make_credential working plain_crypto clear env 4 make 57 device))
        ≡ 0)
unfolding cmd_make_credential parse_make client_data_hash make_rp make_options has_es256 alg_loop
    is_es256 option_flag user_verified wait wait_for_up wait_loop deliver fido2_confirm_up
    make_confirmed enrol attest store_resident user_entry user_handle user_text required optional
    non_null skip_item cd_byte cd_be cd_arg cd_item cd_advance cd_skip_loop cd_skip cd_sub
    cd_map_uint_loop cd_map_uint cd_map_tstr_loop cd_map_tstr cd_str cd_bstr cd_tstr
    write_and_commit storage_get_fido2_config storage_get_fido2_master_key
    storage_fido2_inc_sign_counter storage_fido2_has_pin storage_get_fido2_rk slot_get read_zeroed
    bytes_eq cred_encrypt occupied same_account find_slot bytes_rk rk_bytes storage_set_fido2_rk
    slot_set cmd_get_assertion parse_assert assert_rp find_credential find_allowed allow_loop usable
    assert_uv_option sign_assertion find_resident cred_decrypt
registered = (refl, refl, refl)

cmd_get_assertion-AssertStep_example :
    AssertStep working plain_crypto clear env device
      (assert_rp working plain_crypto clear env 4 get 39)
      (client_data_hash 4 get 39 2)
      (cd_map_uint 4 get 39 6)
      (cmd_get_assertion working plain_crypto clear env 4 get 39 device)
cmd_get_assertion-AssertStep_example =
    cmd_get_assertion-AssertStep working plain_crypto clear env 4 get 39 device

fido2_factory_reset_lem_example :
    let g = (fido2_factory_reset working (replicate 32 7) device.pin).1 in
    IsEmptySlot working working-IsReliable 3 g.flash
    × (storage_fido2_has_pin working g.flash ≡ false)
    × (g.pin_token_valid ≡ false)
    × (storage_get_fido2_config working g.flash ≡ (
      0,
      record ((storage_get_fido2_config working device.pin.flash).1) {
        pin_retries = 8;
        rk_count = 0;
      },
    ))
    × ((storage_fido2_inc_sign_counter working g.flash).0 ≡ 1)
    × (storage_get_fido2_master_key working g.flash (replicate 32 0) ≡ (0, replicate 32 7))
fido2_factory_reset_lem_example =
    fido2_factory_reset_lem working working-IsReliable device.pin (replicate 32 7) (replicate 32 0)
      3 (omega arith) refl refl

abbrev supply : Supply
supply = record {
  env = env;
  chance = record {
    key_pair = none;
    random_token = replicate 16 9;
    md_setup_ok = true;
    malloc_ok = true;
  };
  random_cid = 77;
  new_key = replicate 32 7;
  malloc_ok = true;
  registered = true;
}

ctaphid_dispatch-Answers_example :
    Answers supply 5 0x10
      (ctaphid_dispatch working plain_crypto clear 4 supply 5 0x10 (1 ∷ make) 58 device)
ctaphid_dispatch-Answers_example =
    ctaphid_dispatch-Answers working plain_crypto clear 4 supply 5 0x10 (1 ∷ make) 58 device

abbrev receiver : CtaphidState
receiver = record {
  cid = 0;
  cmd = 0;
  total_len = 0;
  recv_len = 0;
  next_seq = 0;
  buf = replicate 2048 0;
  active = false;
}

switched_on : (storage_get_fido2_config working device.pin.flash).1.enabled ≡ true
unfolding storage_get_fido2_config
switched_on = refl

ping_echo_example :
    let pkts = ctaphid_send_packet true 5 0x01 (replicate 70 8) in
    perform_all working plain_crypto clear 4 (λ i. supply) 0 (fido2_task receiver pkts).1 device
    ≡ sent device pkts
ping_echo_example =
    ping_echo working plain_crypto clear 4 (λ i. supply) receiver 5 (replicate 70 8) device refl
      switched_on (omega arith) (omega arith)
