-- ===== src/Hotkey/Host.antt =====
-- What components/hotkey/hotkey.c remembers of the consumer key that the host sees as held.
pub mod Runs
use bluepass.Common.{
  ℕ, ◌+◌, ◌-◌, ◌≤◌, ◌≡◌, refl, sym, ◌∙◌, ap, Bool, true, false, not, ◌&&◌, ◌||◌, Option, none, some,
  List, [], ◌∷◌, ◌++◌, map, ltb, ◌==◌, if◌then◌else◌, length, length-append, arith, Bool-cases,
  if_either, inl, inr,
}
use bluepass.Storage.{Nvs}
use bluepass.HidReport.{HidReport}
use bluepass.Mqtt.{Call, mqtt_mgr_out_dispatch}
use bluepass.Webhook.{webhook_dispatch}
use bluepass.Hotkey.{
  HotkeySlot, Act, send_report, send_consumer, send_release, type_string, event, client, Engine,
  World, Moment, Job, type_queue_len, notify_event, release_consumer, pass_on, enqueue, slot_job,
  fire_substitution, kb_combo_matches, run_action, is_dropped, first_match, is_all_zero,
  act_or_fire, fire_or_pass, take_report, hotkey_engine_process, typing_begin, typing_end,
  hotkey_engine_reload,
}

-- The consumer key that the host sees as held, where it saw `u` before.
abbrev pub held : List Act → ℕ → ℕ
held [] u = u
held (send_consumer v ∷ acts) u = held acts v
held (send_report k ∷ acts) u = held acts u
held (send_release ∷ acts) u = held acts u
held (type_string text mode ∷ acts) u = held acts u
held (event e ∷ acts) u = held acts u
held (client c ∷ acts) u = held acts u

-- The outputs are set, the engine knows whether the host sees a consumer key, and the queue of the
-- texts fits.
pub record IsTracked (e : Engine) (u : ℕ) : Type 0 where
  pub on : e.has_out ≡ true
  pub knows : e.had_consumer ≡ not (u == 0)
  pub fits : length e.type_queue ≤ type_queue_len

-- The engine after a step, with what left it.
abbrev pub Tracks : Engine × List Act → ℕ → Type 0
Tracks (e, acts) u = IsTracked e (held acts u)

pub log_held :
    (t : Moment) (r : HidReport) (b f : Bool) (e : Engine) (u : ℕ)
    → held (notify_event t r b f e) u ≡ u
unfolding notify_event
log_held t r b f e u = elim (Bool-cases e.has_event_cb) [ inl h ↦ rw h refl | inr h ↦ rw h refl ]

pub calls_held :
    (calls : List Call) (acts : List Act) (u : ℕ) → held (map client calls ++ acts) u ≡ held acts u
calls_held [] acts u = refl
calls_held (c ∷ calls) acts u = calls_held calls acts u

pub pass_on-Tracks :
    (t : Moment) (r : HidReport) (e : Engine) (u : ℕ) → IsTracked e u → Tracks (pass_on t r e) u
unfolding pass_on release_consumer
pass_on-Tracks t r e u v = record {
  on = ground (arith, v.on);
  knows = ground (
    arith,
    v.on,
    v.knows,
    log_held t r false false e u,
    log_held t r false false e 0,
    log_held t r false false e r.consumer_code,
  );
  fits = ground (arith, v.fits);
}

pub fire-Tracks :
    (hmac_sha1 : List ℕ → List ℕ → Option (List ℕ)) (t : Moment) (r : HidReport) (s : HotkeySlot)
    (e : Engine) (u : ℕ)
    → IsTracked e u
    → Tracks (fire_substitution hmac_sha1 t r s e) u
unfolding fire_substitution enqueue
fire-Tracks hmac_sha1 t r s e u v = record {
  on = v.on;
  knows =
      v.knows ∙ sym (ap (λ x. not (x == 0)) (log_held t r true (slot_job hmac_sha1 t r s).1 e u));
  fits = queued (slot_job hmac_sha1 t r s).0;
}
  where
    queued :
        (job : Option Job)
        → length (elim job [ none ↦ e.type_queue | some j ↦ enqueue j e.type_queue ]) ≤ 4
    queued none = v.fits
    queued (some j) = ground (arith, v.fits, length-append e.type_queue (j ∷ []))

pub begin-Tracks : (e : Engine) (u : ℕ) → IsTracked e u → Tracks (typing_begin e) u
unfolding typing_begin
begin-Tracks e u v = record {
  on = ground (arith, v.on);
  knows = ground (arith, v.on, v.knows);
  fits = ground (arith, v.fits);
}

pub end-Tracks : (e : Engine) (u : ℕ) → IsTracked e u → Tracks (typing_end e) u
unfolding typing_end
end-Tracks e u v = record {
  on = ground (arith, v.on);
  knows = ground (arith, v.on, v.knows);
  fits = ground (arith, v.fits);
}

pub pass_held :
    (t : Moment) (r : HidReport) (e : Engine) (u : ℕ)
    → IsTracked e u
    → held (pass_on t r e).1 u ≡ r.consumer_code
unfolding pass_on release_consumer
pass_held t r e u v = ground (
  arith,
  v.on,
  v.knows,
  log_held t r false false e u,
  log_held t r false false e 0,
  log_held t r false false e r.consumer_code,
)
