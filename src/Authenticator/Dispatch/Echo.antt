-- ===== src/Authenticator/Dispatch/Echo.antt =====
-- A ping from the host's packets to the packets of the answer, through components/fido2/fido2.c.
use bluepass.Common.{
  ℕ, ◌^◌, ◌≤◌, ◌<◌, ◌≡◌, refl, true, List, [], ◌∷◌, ◌++◌, length, drop, take-append, append-nil,
  arith,
}
use bluepass.Storage.{Nvs, storage_get_fido2_config}
use bluepass.CtapHid.{
  CtaphidState, Action, dispatch, ctaphid_buf_len, ctaphid_send_packet, fido2_task,
}
use bluepass.CtapHid.Reassembly.{fido2_task-send_packet}
use bluepass.ClientPin.{Crypto}
use bluepass.Credential.{Sealing}
use bluepass.Authenticator.{Device}
use bluepass.Authenticator.Dispatch.{
  Supply, sent, ctaphid_dispatch, perform, perform_all, and_then, sent_before,
}

module _ {S : Type 0} (nvs : Nvs S) (c : Crypto) (k : Sealing) (fuel : ℕ) where
  ping_answer :
      (e : Supply) (cid : ℕ) (message rest : List ℕ) (d : Device S)
      → e.registered ≡ true
      → (storage_get_fido2_config nvs d.pin.flash).1.enabled ≡ true
      → ctaphid_dispatch nvs c k fuel e cid 0x01 (message ++ rest) (length message) d
        ≡ sent d (ctaphid_send_packet true cid 0x01 message)
  unfolding ctaphid_dispatch
  ping_answer e cid message rest d on enabled = rw (on, enabled, take-append message rest) refl

  one_action :
      (es : ℕ → Supply) (a : Action) (d d' : Device S) (pkts : List (List ℕ))
      → perform nvs c k fuel (es 0) a d ≡ sent d' pkts
      → perform_all nvs c k fuel es 0 (a ∷ []) d ≡ sent d' pkts
  unfolding perform_all and_then sent_before
  one_action es a d d' pkts h = rw (h, append-nil pkts) refl

  -- A ping of at most 2048 bytes comes back: where FIDO2 is switched on and packets can be sent, the
  -- packets of the host, in whatever state they find the receiver, are answered with just the same
  -- packets, and nothing of the device changes.
  pub ping_echo :
      (es : ℕ → Supply) (h : CtaphidState) (cid : ℕ) (message : List ℕ) (d : Device S)
      → (es 0).registered ≡ true
      → (storage_get_fido2_config nvs d.pin.flash).1.enabled ≡ true
      → cid < 2 ^ 32
      → length message ≤ ctaphid_buf_len
      → let pkts = ctaphid_send_packet true cid 0x01 message in
        perform_all nvs c k fuel es 0 (fido2_task h pkts).1 d ≡ sent d pkts
  unfolding perform
  ping_echo es h cid message d on enabled small short =
      let whole = message ++ drop (length message) h.buf in
      rw (fido2_task-send_packet h cid 0x01 message small (omega arith) short).0 (
        one_action es (dispatch cid 0x01 whole (length message)) d d _
          (ping_answer (es 0) cid message (drop (length message) h.buf) d on enabled))
