-- ===== src/Hotkey/Reports.antt =====
-- What `hotkey_engine_process` of components/hotkey/hotkey.c does with a report.
use bluepass.Common.{
  ℕ, ◌/◌, ◌≡◌, refl, ◌∙◌, ◌⊎◌, inl, inr, Bool, true, false, Option, List, [], ◌∷◌, ◌++◌, map, ◌==◌,
  if◌then◌else◌, arith, Bool-cases,
}
use bluepass.Storage.{Nvs}
use bluepass.HidReport.{HidReport}
use bluepass.Mqtt.{Call}
use bluepass.Hotkey.Actions.{take_report_cases}
use bluepass.Hotkey.{
  HotkeySlot, KeyEvent, Act, send_report, send_consumer, send_release, type_string, event, client,
  Engine, World, Moment, notify_event, release_consumer, pass_on, fire_substitution, is_dropped,
  take_report, hotkey_engine_process, slot_job,
}

-- What of it goes to the host.
abbrev pub to_host : List Act → List Act
to_host [] = []
to_host (send_report k ∷ acts) = send_report k ∷ to_host acts
to_host (send_consumer u ∷ acts) = send_consumer u ∷ to_host acts
to_host (send_release ∷ acts) = send_release ∷ to_host acts
to_host (type_string text mode ∷ acts) = type_string text mode ∷ to_host acts
to_host (event e ∷ acts) = to_host acts
to_host (client c ∷ acts) = to_host acts

-- What of it goes to the key log.
abbrev pub logged : List Act → List KeyEvent
logged [] = []
logged (send_report k ∷ acts) = logged acts
logged (send_consumer u ∷ acts) = logged acts
logged (send_release ∷ acts) = logged acts
logged (type_string text mode ∷ acts) = logged acts
logged (event e ∷ acts) = e ∷ logged acts
logged (client c ∷ acts) = logged acts

abbrev pub key_event : Moment → HidReport → Bool → Bool → KeyEvent
key_event t r substituted is_failed = record {
  timestamp_ms = t.event_us / 1000;
  report = r;
  substituted = substituted;
  is_failed = is_failed;
}

-- The report itself; a report of keys lets go of a consumer key that is held.
abbrev pub forwarded : HidReport → Bool → List Act
forwarded r held =
    if r.consumer_code == 0
    then send_report r.keyboard ∷ (if held then send_consumer 0 ∷ [] else [])
    else send_consumer r.consumer_code ∷ []

-- One event; either nothing else reaches the host and it says so, or the report does.
abbrev pub IsHandled : Moment → HidReport → Bool → List Act → Type 0
IsHandled t r held acts =
    ((to_host acts ≡ [])
      × ((logged acts ≡ key_event t r true false ∷ [])
          ⊎ (logged acts ≡ key_event t r true true ∷ [])))
    ⊎ ((to_host acts ≡ forwarded r held) × (logged acts ≡ key_event t r false false ∷ []))

calls_apart :
    (calls : List Call) (acts : List Act)
    → (to_host (map client calls ++ acts) ≡ to_host acts)
      × (logged (map client calls ++ acts) ≡ logged acts)
calls_apart [] acts = (refl, refl)
calls_apart (c ∷ calls) acts = calls_apart calls acts

module _ (t : Moment) (r : HidReport) (e : Engine) (on : e.has_out ≡ true)
    (log : e.has_event_cb ≡ true) where
  pass_on-IsHandled : IsHandled t r e.had_consumer (pass_on t r e).1
  unfolding pass_on release_consumer notify_event
  pass_on-IsHandled = inr (ground (arith, on, log), ground (arith, on, log))

  fire-IsHandled :
      (hmac_sha1 : List ℕ → List ℕ → Option (List ℕ)) (s : HotkeySlot)
      → IsHandled t r e.had_consumer (fire_substitution hmac_sha1 t r s e).1
  unfolding fire_substitution notify_event
  fire-IsHandled hmac_sha1 s = elim (Bool-cases (slot_job hmac_sha1 t r s).1) [
    | inl bad ↦ inl (rw log refl, inr (rw (log, bad) refl))
    | inr fine ↦ inl (rw log refl, inl (rw (log, fine) refl))
  ]

  told-IsHandled :
      (held : Bool) (calls : List Call)
      → IsHandled t r held (map client calls ++ notify_event t r true false e)
  unfolding notify_event
  told-IsHandled held calls =
      let apart = calls_apart calls (notify_event t r true false e) in
      inl (apart.0 ∙ rw log refl, inl (apart.1 ∙ rw log refl))

module _ {S : Type 0} (nvs : Nvs S) (hmac_sha1 : List ℕ → List ℕ → Option (List ℕ)) (t : Moment)
    (r : HidReport) where
  take_report-IsHandled :
      (w : World S)
      → w.engine.has_out ≡ true
      → w.engine.has_event_cb ≡ true
      → IsHandled t r w.engine.had_consumer (take_report nvs hmac_sha1 t r w).1
  take_report-IsHandled w on log =
      let e = w.engine in
      let P : World S × List Act → Type 0 = λ x. IsHandled t r e.had_consumer x.1 in
      take_report_cases nvs hmac_sha1 P t r w (pass_on-IsHandled t r e on log)
        (fire-IsHandled t r e on log hmac_sha1)
        (λ w' calls same. told-IsHandled t r e on log e.had_consumer calls)

  -- A report that is not dropped, with outputs and a key log, is logged once. Either it goes to the
  -- host as it is, and a consumer key that was held is let go of if it is a report of keys; or
  -- nothing goes to the host, and the log says that it was substituted. A report that is dropped
  -- changes nothing and is not logged.
  pub hotkey_engine_process-IsHandled :
      (w : World S)
      → w.engine.has_out ≡ true
      → w.engine.has_event_cb ≡ true
      → if is_dropped t r w.engine
        then hotkey_engine_process nvs hmac_sha1 t r w ≡ (w, [])
        else IsHandled t r w.engine.had_consumer (hotkey_engine_process nvs hmac_sha1 t r w).1
  unfolding hotkey_engine_process
  hotkey_engine_process-IsHandled w on log = elim (Bool-cases (is_dropped t r w.engine)) [
    | inl dropped ↦ rw dropped refl
    | inr taken ↦ rw taken (take_report-IsHandled _ on log)
  ]
