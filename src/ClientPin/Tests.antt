-- ===== src/ClientPin/Tests.antt =====
-- Cryptography that hides nothing, requests of clientPIN, and the theorems at
-- them.
use bluepass.Common.{
  bytes_eq, ℕ, ◌+◌, ◌≤◌, ◌≡◌, refl, true, false, ◌++◌, List, [], ◌∷◌, arith, none, some, take,
  replicate,
}
use bluepass.Cbor.{
  cd_byte, cd_be, cd_arg, cd_item, cd_advance, cd_skip_loop, cd_skip, cd_sub, cd_map_uint_loop,
  cd_map_uint, cd_str, cd_bstr,
}
use bluepass.Cose.{peer_point, peer_loop}
use bluepass.Storage.{
  named, write_and_commit, storage_get_fido2_config, storage_set_fido2_config,
  storage_fido2_has_pin, storage_get_fido2_pin_hash,
}
use bluepass.Storage.Working.{put, Flash, working, working-IsReliable}
use bluepass.ClientPin.{
  Crypto, Chance, PinState, param, get_key_agreement, wrong_pin, get_pin_token, with_secret,
  cmd_client_pin,
}
use bluepass.ClientPin.Effects.{PinStep, subcommand, retries}
use bluepass.ClientPin.Protocol.{cmd_client_pin-PinStep}
use bluepass.ClientPin.Retries.{
  Keeps, Event, request, restart, any_reply, grants, wrong_guesses, run, cmd_client_pin_locked,
  wrong_guesses-run,
}

-- A hash is the first 32 bytes, encryption changes nothing, and the shared point is our scalar.
abbrev open_crypto : Crypto
open_crypto = record {
  sha256 = λ m. take 32 (m ++ replicate 32 0);
  hmac_sha256 = λ k m. take 32 (m ++ replicate 32 0);
  aes_cbc_decrypt = λ k m. m;
  aes_cbc_encrypt = λ k m. m;
  ecdh = λ d p. some d;
}

abbrev lucky : Chance
lucky = record {
  key_pair = some (1 ∷ [], replicate 32 2, replicate 32 3);
  random_token = replicate 16 9;
  md_setup_ok = true;
  malloc_ok = true;
}

-- A PIN whose hash is sixteen times 7, and `n` retries.
abbrev with_pin : ℕ → PinState Flash
with_pin n = record {
  flash =
      put (put (λ k. none) (named "pinh") (some (replicate 16 7))) (named "cfg")
        (some (1 ∷ 0 ∷ n ∷ 0 ∷ 0 ∷ 0 ∷ 0 ∷ 0 ∷ []));
  pin_d = 1 ∷ [];
  pin_key_valid = true;
  pin_token = replicate 16 0;
  pin_token_valid = false;
}

-- `{2: 5, 3: {}, 6: h}` for a PIN token, `h` the encrypted hash.
abbrev guess : ℕ → List ℕ
guess b = 0xa3 ∷ 2 ∷ 5 ∷ 3 ∷ 0xa0 ∷ 6 ∷ 0x50 ∷ replicate 16 b

abbrev ask : ℕ → Event
ask b = request lucky (guess b) 23

-- Two wrong guesses, a restart, a guess without a key agreement, a key agreement and a guess.
abbrev attack : List Event
attack = ask 1 ∷ ask 2 ∷ restart ∷ ask 3 ∷ request lucky (0xa1 ∷ 2 ∷ 2 ∷ []) 3 ∷ ask 4 ∷ []

attack_replies :
    (run working open_crypto 4 attack (with_pin 8)).0
    ≡ (5, 0x31) ∷ (5, 0x31) ∷ (5, 0x33) ∷ (2, 0) ∷ (5, 0x31) ∷ []
unfolding run cmd_client_pin with_secret get_pin_token wrong_pin get_key_agreement peer_point
    peer_loop cd_byte cd_be cd_arg cd_item cd_advance cd_skip_loop cd_skip cd_sub cd_map_uint_loop
    cd_map_uint cd_str cd_bstr write_and_commit storage_get_fido2_config storage_set_fido2_config
    storage_fido2_has_pin storage_get_fido2_pin_hash bytes_eq
attack_replies = refl

cmd_client_pin-PinStep_example :
    PinStep working open_crypto 4
      (guess 7)
      23
      (subcommand (param working open_crypto lucky 4 (guess 7) 23 2))
      (with_pin 8)
      (cmd_client_pin working open_crypto lucky 4 (guess 7) 23 (with_pin 8))
cmd_client_pin-PinStep_example =
    cmd_client_pin-PinStep working open_crypto lucky 4 (guess 7) 23 (with_pin 8)

has_pin : storage_fido2_has_pin working (with_pin 0).flash ≡ true
unfolding storage_fido2_has_pin
has_pin = refl

none_left : retries working open_crypto (with_pin 0) ≡ 0
unfolding storage_get_fido2_config
none_left = refl

-- The guess is the right one, and is refused.
cmd_client_pin_locked_example :
    Keeps (with_pin 0) (cmd_client_pin working open_crypto lucky 4 (guess 7) 23 (with_pin 0))
cmd_client_pin_locked_example =
    cmd_client_pin_locked working open_crypto lucky 4 (guess 7) 23 (with_pin 0) has_pin none_left

eight_left : retries working open_crypto (with_pin 8) ≤ 8
unfolding storage_get_fido2_config
eight_left = omega arith

nothing_granted : any_reply grants (run working open_crypto 4 attack (with_pin 8)).0 ≡ false
nothing_granted = rw attack_replies refl

wrong_guesses-run_example :
    wrong_guesses (run working open_crypto 4 attack (with_pin 8)).0
      + retries working open_crypto (run working open_crypto 4 attack (with_pin 8)).1
    ≤ retries working open_crypto (with_pin 8)
wrong_guesses-run_example =
    wrong_guesses-run working open_crypto working-IsReliable 4 attack (with_pin 8) eight_left
      nothing_granted
