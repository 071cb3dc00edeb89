-- ===== src/Authenticator/Dispatch.antt =====
-- A whole message in components/fido2/fido2.c: `ctaphid_dispatch`, the replies of `ctap2_respond`
-- and `ctaphid_error`, and the task that feeds packets in.
pub mod Answers
pub mod Echo
use bluepass.Common.{
  ℕ, ◌+◌, ◌-◌, ◌/◌, ◌%◌, ◌^◌, bit_or, Bool, not, ◌&&◌, ◌||◌, List, [], ◌∷◌, ◌++◌, ltb, ◌==◌,
  if◌then◌else◌, length, get_or, take, drop,
}
use bluepass.Storage.{Nvs, storage_get_fido2_config}
use bluepass.CtapHid.{ctaphid_send_packet, Action, error_reply, dispatch}
use bluepass.ClientPin.{Crypto, Chance, Outcome, replied, crashed, cmd_client_pin}
use bluepass.Credential.{Sealing}
use bluepass.Authenticator.{Device, Env, Answer, answered, overflowed}
use bluepass.Authenticator.Register.{cmd_make_credential}
use bluepass.Authenticator.Assert.{cmd_get_assertion}
use bluepass.Authenticator.Manage.{cmd_get_info, cmd_reset}

-- What the environment supplies to one message: to its command, four random bytes as a number, a
-- random master key, whether the reply can be allocated, and whether `s_tx_cb` is set.
pub record Supply : Type 0 where
  pub env : Env
  pub chance : Chance
  pub random_cid : ℕ
  pub new_key : List ℕ
  pub malloc_ok : Bool
  pub registered : Bool

-- The packets that go to the host, or a stack that overflows.
pub data Reply (S : Type 0) : Type 0 where
  sent : Device S → List (List ℕ) → Reply S
  lost : Reply S

-- What one message sends goes before what the next one does.
pub sent_before : {S : Type 0} → List (List ℕ) → Reply S → Reply S
sent_before pkts lost = lost
sent_before pkts (sent d rest) = sent d (pkts ++ rest)

pub and_then : {S : Type 0} → Reply S → (Device S → Reply S) → Reply S
and_then lost next = lost
and_then (sent d pkts) next = sent_before pkts (next d)

abbrev pub cid_broadcast : ℕ
cid_broadcast = 0xffff_ffff

pub ctaphid_error : Supply → ℕ → ℕ → List (List ℕ)
ctaphid_error e cid code = ctaphid_send_packet e.registered cid 0x3f (code ∷ [])

-- The length is cast to a `uint16_t`.
pub ctap2_respond : Supply → ℕ → ℕ → List ℕ → List (List ℕ)
ctap2_respond e cid status body =
    if e.malloc_ok
    then ctaphid_send_packet e.registered cid 0x10
        (take ((1 + length body) % 2 ^ 16) (status ∷ body))
    else ctaphid_error e cid 0x27

-- CTAPHID_INIT: a new channel for the broadcast channel, and the 17 bytes of the answer.
pub allocated_cid : Supply → ℕ → ℕ
allocated_cid e cid =
    if cid == cid_broadcast
    then (if e.random_cid == 0 || e.random_cid == cid_broadcast then 1 else e.random_cid)
    else cid

pub init_response : List ℕ → ℕ → List ℕ
init_response data_ new_cid =
    take 8 data_
    ++ ((new_cid / 2 ^ 24 % 256)
        ∷ (new_cid / 2 ^ 16 % 256)
        ∷ (new_cid / 2 ^ 8 % 256)
        ∷ (new_cid % 256)
        ∷ 2
        ∷ 2
        ∷ 0
        ∷ 0
        ∷ bit_or 0x04 0x08
        ∷ [])

pub handle_init : Supply → ℕ → List ℕ → ℕ → List (List ℕ)
handle_init e cid data_ len =
    let new_cid = allocated_cid e cid in
    let resp_cid = if cid == cid_broadcast then cid_broadcast else new_cid in
    if ltb len 8
    then ctaphid_error e cid 0x03
    else ctaphid_send_packet e.registered resp_cid 0x06 (init_response data_ new_cid)

module _ {S : Type 0} (e : Supply) (cid : ℕ) where
  pub answer_reply : Answer S → Reply S
  answer_reply overflowed = lost
  answer_reply (answered d status body) = sent d (ctap2_respond e cid status body)

  pub outcome_reply : Device S → Outcome S → Reply S
  outcome_reply d crashed = lost
  outcome_reply d (replied f status body) =
      sent (record d { pin = f }) (ctap2_respond e cid status body)

module _ {S : Type 0} (nvs : Nvs S) (c : Crypto) (k : Sealing) (fuel : ℕ) where
  -- The commands of CTAPHID_CBOR; `req` is the message behind the command byte.
  pub ctap2_command : Supply → ℕ → ℕ → List ℕ → ℕ → Device S → Reply S
  ctap2_command e cid ctap_cmd req req_len d =
      if ctap_cmd == 0x04
      then answer_reply e cid (cmd_get_info nvs d)
      else if ctap_cmd == 0x01
      then answer_reply e cid (cmd_make_credential nvs c k e.env fuel req req_len d)
      else if ctap_cmd == 0x02
      then answer_reply e cid (cmd_get_assertion nvs c k e.env fuel req req_len d)
      else if ctap_cmd == 0x06
      then outcome_reply e cid d (cmd_client_pin nvs c e.chance fuel req req_len d.pin)
      else if ctap_cmd == 0x07
      then answer_reply e cid (cmd_reset nvs c e.env e.new_key d)
      else answer_reply e cid (answered d 0x01 [])

  pub ctaphid_dispatch : Supply → ℕ → ℕ → List ℕ → ℕ → Device S → Reply S
  ctaphid_dispatch e cid cmd data_ len d =
      if cmd == 0x06
      then sent d (handle_init e cid data_ len)
      else if not (storage_get_fido2_config nvs d.pin.flash).1.enabled
      then sent d (ctaphid_error e cid 0x27)
      else if cmd == 0x11
      then sent d []
      else if cmd == 0x01
      then sent d (ctaphid_send_packet e.registered cid 0x01 (take len data_))
      else if (cmd == 0x10) && ltb 0 len
      then ctap2_command e cid (get_or data_ 0 0) (drop 1 data_) (len - 1) d
      else sent d (ctaphid_error e cid 0x01)

  -- One action of `ctaphid_process_packet`.
  pub perform : Supply → Action → Device S → Reply S
  perform e (error_reply cid code) d = sent d (ctaphid_error e cid code)
  perform e (dispatch cid cmd data_ len) d = ctaphid_dispatch e cid cmd data_ len d

  -- The actions of `fido2_task` one after another; `es i` is what the `i`th of them is supplied with.
  pub perform_all : (ℕ → Supply) → ℕ → List Action → Device S → Reply S
  perform_all es i [] d = sent d []
  perform_all es i (a ∷ more) d = and_then (perform (es i) a d) (perform_all es (i + 1) more)
