-- ===== src/Authenticator/Dispatch/Answers.antt =====
-- Every message is answered, on the channel that it came from.
use bluepass.Common.{
  ℕ, ◌-◌, ◌≡◌, ◌≢◌, ◌⊎◌, inl, inr, refl, Bool, true, false, not, ◌&&◌, List, [], ◌∷◌, All, ltb,
  ◌==◌, if◌then◌else◌, get_or, take, drop, arith, if_either, if_split,
}
use bluepass.Storage.{Nvs, storage_get_fido2_config}
use bluepass.CtapHid.{ctaphid_send_packet}
use bluepass.CtapHid.Channel.{IsOnChannel, send_packet-IsOnChannel, send_packet-ne-nil}
use bluepass.ClientPin.{Crypto, Outcome, replied, crashed}
use bluepass.Credential.{Sealing}
use bluepass.Authenticator.{Device, Answer, answered, overflowed}
use bluepass.Authenticator.Dispatch.{
  Supply, Reply, sent, lost, ctaphid_error, ctap2_respond, cid_broadcast, allocated_cid,
  handle_init, answer_reply, outcome_reply, ctap2_command, ctaphid_dispatch,
}

-- What goes out is whole packets on the channel, at least one if they can be sent at all.
abbrev pub IsAnswer : Supply → ℕ → List (List ℕ) → Type 0
IsAnswer e cid pkts = All (IsOnChannel cid) pkts × ((e.registered ≡ false) ⊎ (pkts ≢ []))

abbrev pub Answers : {S : Type 0} → Supply → ℕ → ℕ → Reply S → Type 0
Answers e cid cmd (sent d pkts) =
    All (IsOnChannel cid) pkts × ((e.registered ≡ false) ⊎ (cmd ≡ 0x11) ⊎ (pkts ≢ []))
Answers e cid cmd lost = Unit {0}

send_packet-IsAnswer :
    (e : Supply) (cid cmd : ℕ) (data_ : List ℕ)
    → IsAnswer e cid (ctaphid_send_packet e.registered cid cmd data_)
send_packet-IsAnswer e cid cmd data_ =
    (send_packet-IsOnChannel e.registered cid cmd data_, registered_cases e.registered)
  where
    registered_cases : (b : Bool) → (b ≡ false) ⊎ (ctaphid_send_packet b cid cmd data_ ≢ [])
    registered_cases true = inr (send_packet-ne-nil cid cmd data_)
    registered_cases false = inl refl

error-IsAnswer : (e : Supply) (cid code : ℕ) → IsAnswer e cid (ctaphid_error e cid code)
unfolding ctaphid_error
error-IsAnswer e cid code = send_packet-IsAnswer e cid 0x3f (code ∷ [])

respond-IsAnswer :
    (e : Supply) (cid status : ℕ) (body : List ℕ) → IsAnswer e cid (ctap2_respond e cid status body)
unfolding ctap2_respond
respond-IsAnswer e cid status body =
    if_either (IsAnswer e cid) e.malloc_ok _ _ (send_packet-IsAnswer e cid 0x10 _)
      (error-IsAnswer e cid 0x27)

-- The answer to CTAPHID_INIT goes to the channel of the request, the broadcast channel included.
init-IsAnswer :
    (e : Supply) (cid : ℕ) (data_ : List ℕ) (len : ℕ) → IsAnswer e cid (handle_init e cid data_ len)
unfolding handle_init allocated_cid
init-IsAnswer e cid data_ len =
    if_either (IsAnswer e cid) (ltb len 8) _ _ (error-IsAnswer e cid 0x03)
      (rw same (send_packet-IsAnswer e cid 0x06 _))
  where
    same : (if cid == cid_broadcast then cid_broadcast else allocated_cid e cid) ≡ cid
    same = ground arith

module _ {S : Type 0} (e : Supply) (cid cmd : ℕ) where
  answers :
      (d : Device S) {pkts : List (List ℕ)} → IsAnswer e cid pkts → Answers e cid cmd (sent d pkts)
  answers d h = (h.0, elim h.1 [ inl off ↦ inl off | inr some_packet ↦ inr (inr some_packet) ])

  answer-Answers : (a : Answer S) → Answers e cid cmd (answer_reply e cid a)
  unfolding answer_reply
  answer-Answers overflowed = tt
  answer-Answers (answered d status body) = answers d (respond-IsAnswer e cid status body)

  outcome-Answers : (d : Device S) (o : Outcome S) → Answers e cid cmd (outcome_reply e cid d o)
  unfolding outcome_reply
  outcome-Answers d crashed = tt
  outcome-Answers d (replied f status body) =
      answers (record d { pin = f }) (respond-IsAnswer e cid status body)

module _ {S : Type 0} (nvs : Nvs S) (c : Crypto) (k : Sealing) (fuel : ℕ) where
  command-Answers :
      (e : Supply) (cid cmd ctap_cmd : ℕ) (req : List ℕ) (req_len : ℕ) (d : Device S)
      → Answers e cid cmd (ctap2_command nvs c k fuel e cid ctap_cmd req req_len d)
  unfolding ctap2_command
  command-Answers e cid cmd ctap_cmd req req_len d =
      let P : Reply S → Type 0 = Answers e cid cmd in
      if_either P (ctap_cmd == 0x04) _ _ (answer-Answers e cid cmd _) (
        if_either P (ctap_cmd == 0x01) _ _ (answer-Answers e cid cmd _) (
          if_either P (ctap_cmd == 0x02) _ _ (answer-Answers e cid cmd _) (
            if_either P (ctap_cmd == 0x06) _ _ (outcome-Answers e cid cmd d _) (
              if_either P (ctap_cmd == 0x07) _ _ (answer-Answers e cid cmd _)
                (answer-Answers e cid cmd (answered d 0x01 []))))))

  -- Whatever the message is and in whatever state the device is, what goes back are whole packets
  -- on the channel of the request; and where packets can be sent at all there is one at least,
  -- unless the message is CTAPHID_CANCEL or a `cd_skip` overflows the stack.
  pub ctaphid_dispatch-Answers :
      (e : Supply) (cid cmd : ℕ) (data_ : List ℕ) (len : ℕ) (d : Device S)
      → Answers e cid cmd (ctaphid_dispatch nvs c k fuel e cid cmd data_ len d)
  unfolding ctaphid_dispatch
  ctaphid_dispatch-Answers e cid cmd data_ len d =
      let P : Reply S → Type 0 = Answers e cid cmd in
      if_either P (cmd == 0x06) _ _ (answers e cid cmd d (init-IsAnswer e cid data_ len)) (
        if_either P (not (storage_get_fido2_config nvs d.pin.flash).1.enabled) _ _
          (answers e cid cmd d (error-IsAnswer e cid 0x27))
          (if_split P (cmd == 0x11) _ _ (λ t. (tt, inr (inl (ground arith))))
            λ _.
              if_either P (cmd == 0x01) _ _
                (answers e cid cmd d (send_packet-IsAnswer e cid 0x01 (take len data_)))
                (if_either P ((cmd == 0x10) && ltb 0 len) _ _
                  (command-Answers e cid cmd (get_or data_ 0 0) (drop 1 data_) (len - 1) d)
                  (answers e cid cmd d (error-IsAnswer e cid 0x01)))))
