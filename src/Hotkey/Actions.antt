-- ===== src/Hotkey/Actions.antt =====
-- What the actions of components/hotkey/hotkey.c that are not hotkeys have in common.
use bluepass.Common.{ℕ, ◌≡◌, refl, Option, none, some, List, [], ◌++◌, map, true, false, if_either}
use bluepass.Storage.{Nvs}
use bluepass.HidReport.{HidReport}
use bluepass.Webhook.{webhook_dispatch}
use bluepass.Mqtt.{Call, mqtt_mgr_out_dispatch}
use bluepass.Hotkey.{
  HotkeySlot, Act, client, World, Moment, notify_event, pass_on, fire_substitution,
  kb_combo_matches, run_action, is_all_zero, first_match, in_engine, fire_or_pass, act_or_fire,
  take_report,
}

-- Calls of the MQTT client and the event of a substitution leave the engine, which stays as it is.
pub data IsAction {S : Type 0} (t : Moment) (r : HidReport) (w : World S)
    : Option (World S × List Act) → Type 0 where
  idle : IsAction t r w none
  acted :
      (w' : World S) (calls : List Call)
      → w'.engine ≡ w.engine
      → IsAction t r w (some (w', map client calls ++ notify_event t r true false w.engine))

module _ {S : Type 0} (nvs : Nvs S) (hmac_sha1 : List ℕ → List ℕ → Option (List ℕ)) where
  pub run_action-IsAction :
      (t : Moment) (r : HidReport) (w : World S) → IsAction t r w (run_action nvs hmac_sha1 t r w)
  unfolding run_action
  run_action-IsAction t r w =
      let e = w.engine in
      let P = IsAction t r w in
      let calls = (mqtt_mgr_out_dispatch r w.mqtt).1 in
      if_either P (kb_combo_matches r e.jig_on_mod e.jig_on_kc) _ _ (acted _ [] refl) (
        if_either P (kb_combo_matches r e.jig_off_mod e.jig_off_kc) _ _ (acted _ [] refl) (
          if_either P (webhook_dispatch r w.webhook).0 _ _ (acted _ [] refl)
            (if_either P (mqtt_mgr_out_dispatch r w.mqtt).0 _ _ (acted w calls refl) idle)))

  -- Whatever holds of a report that is passed on, of every slot that fires and of every action holds
  -- of a report that is taken.
  pub take_report_cases :
      (P : World S × List Act → Type 0) (t : Moment) (r : HidReport) (w : World S)
      → P (in_engine nvs hmac_sha1 w (pass_on t r w.engine))
      → ((s : HotkeySlot)
          → P (in_engine nvs hmac_sha1 w (fire_substitution hmac_sha1 t r s w.engine)))
      → ((w' : World S) (calls : List Call)
          → w'.engine ≡ w.engine
          → P (w', map client calls ++ notify_event t r true false w.engine))
      → P (take_report nvs hmac_sha1 t r w)
  unfolding take_report act_or_fire fire_or_pass
  take_report_cases P t r w passed fired told =
      if_either P (is_all_zero r) _ _ passed
        (acted_or (run_action nvs hmac_sha1 t r w) (run_action-IsAction t r w))
    where
      slot_or : (m : Option HotkeySlot) → P (fire_or_pass nvs hmac_sha1 t r w m)
      slot_or (some s) = fired s
      slot_or none = passed

      acted_or :
          (a : Option (World S × List Act))
          → IsAction t r w a
          → P (act_or_fire nvs hmac_sha1 t r w a)
      acted_or (some done) (acted w' calls same) = told w' calls same
      acted_or none idle = slot_or (first_match r w.engine.slots)
