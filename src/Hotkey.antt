-- ===== src/Hotkey.antt =====
-- components/hotkey/hotkey.c: the engine that takes each report of the keyboard and passes it on,
-- fires a hotkey, or starts an action; and the task that types. What leaves the engine is a list:
-- the calls of the output functions, the events of the key log, and the calls of the MQTT client.
pub mod Actions
pub mod Reports
pub mod Host
pub mod Typing
mod Tests
use bluepass.Common.{
  ℕ, zero, suc, ◌+◌, ◌-◌, ◌*◌, ◌/◌, ◌%◌, ◌^◌, Bool, true, false, not, ◌&&◌, ◌||◌, Option, none,
  some, List, [], ◌∷◌, ◌++◌, map, ltb, ◌==◌, if◌then◌else◌, length, get_or, take, drop, replicate,
}
use bluepass.Storage.{Nvs}
use bluepass.Storage.Settings.{
  storage_get_jiggler_config, storage_set_jiggler_config, jiggler_config_size,
}
use bluepass.Storage.Slots.{storage_get_hotkey_slot, hotkey_slots_max}
use bluepass.HidReport.{KeyboardReport, HidReport, contains_key, same_report, c_string}
use bluepass.Totp.{ok, invalid_arg, invalid_state, failed, totp_generate}
use bluepass.Jiggler.{Jig, jiggler_toggle, jiggler_enable, jiggler_disable, jiggler_is_enabled}
use bluepass.Webhook.{Webhook, webhook_dispatch}
use bluepass.Mqtt.{Mqtt, Call, mqtt_mgr_out_dispatch}

-- `hotkey_slot_t` without its label. `payload` is the memory from that field on.
pub record HotkeySlot : Type 0 where
  pub modifiers : ℕ
  pub keycode : ℕ
  pub consumer_code : ℕ
  pub slot_type : ℕ
  pub payload : List ℕ
  pub active : Bool
  pub match_mode : ℕ
  pub replace_mode : ℕ
  pub send_mode : ℕ

pub bytes_slot : List ℕ → HotkeySlot
bytes_slot b = record {
  modifiers = get_or b 0 0;
  keycode = get_or b 1 0;
  consumer_code = get_or b 2 0 + get_or b 3 0 * 2 ^ 8;
  slot_type = get_or b 4 0 + get_or b 5 0 * 2 ^ 8 + get_or b 6 0 * 2 ^ 16 + get_or b 7 0 * 2 ^ 24;
  payload = drop 8 b;
  active = not (get_or b 168 0 == 0);
  match_mode = get_or b 169 0;
  replace_mode = get_or b 170 0;
  send_mode = get_or b 171 0;
}

-- `type_job_t`; the text is a C string.
pub record Job : Type 0 where
  pub text : List ℕ
  pub restore_mods : ℕ
  pub send_mode : ℕ

-- `key_event_t`
pub record KeyEvent : Type 0 where
  pub timestamp_ms : ℕ
  pub report : HidReport
  pub substituted : Bool
  pub is_failed : Bool

-- What leaves the engine.
pub data Act : Type 0 where
  send_report : KeyboardReport → Act
  send_consumer : ℕ → Act
  send_release : Act
  type_string : List ℕ → ℕ → Act
  event : KeyEvent → Act
  client : Call → Act

-- The static state. `has_out` and `has_event_cb`: the functions are set, of the outputs all.
-- `typing` is `s_typing`, with the job that the task holds.
pub record Engine : Type 0 where
  pub slots : List HotkeySlot
  pub had_consumer : Bool
  pub has_out : Bool
  pub has_event_cb : Bool
  pub last_report : HidReport
  pub last_report_us : ℕ
  pub jig_on_mod : ℕ
  pub jig_on_kc : ℕ
  pub jig_off_mod : ℕ
  pub jig_off_kc : ℕ
  pub type_queue : List Job
  pub typing : Option Job

-- The engine and what it calls, with the flash of the jiggler's settings.
pub record World (S : Type 0) : Type 0 where
  pub engine : Engine
  pub jig : Jig
  pub webhook : Webhook
  pub mqtt : Mqtt
  pub flash : S

-- The clock: the time in µs as `hotkey_engine_process` and `notify_event` read it, and in s as TOTP
-- does; and what `esp_timer_start_periodic` answers.
pub record Moment : Type 0 where
  pub now : ℕ
  pub event_us : ℕ
  pub unix_time : ℕ
  pub start_err : ℕ

abbrev pub type_queue_len : ℕ
type_queue_len = 4

abbrev pub job_text_size : ℕ
job_text_size = 136

pub hotkey_engine_set_output : Engine → Engine
hotkey_engine_set_output e = record e { has_out = true }

pub hotkey_engine_set_event_cb : Bool → Engine → Engine
hotkey_engine_set_event_cb registered e = record e { has_event_cb = registered }

-- `if (s_out.send_…) s_out.send_…(…)`
abbrev pub out : Engine → Act → List Act
out e a = if e.has_out then a ∷ [] else []

-- The task takes a job out of the queue and sets `s_typing`.
pub typing_begin : Engine → Engine × List Act
typing_begin e = elim e.typing [
  | some job ↦ (e, [])
  | none ↦ elim e.type_queue [
    | [] ↦ (e, [])
    | job ∷ rest ↦ (record e { type_queue = rest; typing = some job }, out e send_release)
  ]
]

-- The task types, and resets `s_typing`.
pub typing_end : Engine → Engine × List Act
typing_end e = elim e.typing [
  | none ↦ (e, [])
  | some job ↦
      let mods : KeyboardReport = record {
        modifier = job.restore_mods;
        reserved = 0;
        keycode = replicate 6 0;
      } in
      (
        record e { typing = none },
        out e (type_string job.text job.send_mode)
            ++ (if job.restore_mods == 0 then [] else out e (send_report mods)),
      )
]

module _ {S : Type 0} (nvs : Nvs S) where
  -- The slots that can be read and are active, from the `i`th on.
  pub active_slots : S → ℕ → ℕ → List HotkeySlot
  active_slots s zero i = []
  active_slots s (suc rounds) i =
      let rest = active_slots s rounds (i + 1) in
      let (err, written) = storage_get_hotkey_slot nvs i s in
      let keep : List ℕ → List HotkeySlot =
        λ b. if (err == 0) && (bytes_slot b).active then bytes_slot b ∷ rest else rest in
      elim written [ none ↦ rest | some b ↦ keep b ]

  -- `slots` and `flash` are the flash of the hotkeys and of the jiggler.
  pub hotkey_engine_reload : S → S → Engine → Engine
  hotkey_engine_reload slots flash e =
      let zeros = replicate jiggler_config_size 0 in
      let (err, cfg) = storage_get_jiggler_config nvs flash zeros in
      let loaded = record e { slots = active_slots slots hotkey_slots_max 0 } in
      if err == 0
      then record loaded {
        jig_on_mod = get_or cfg 8 0;
        jig_on_kc = get_or cfg 9 0;
        jig_off_mod = get_or cfg 10 0;
        jig_off_kc = get_or cfg 11 0;
      }
      else loaded

  -- `created`: the queue could be allocated.
  pub hotkey_engine_init : Bool → S → S → Engine → ℕ × Engine
  hotkey_engine_init created slots flash e =
      if created
      then (0, hotkey_engine_reload slots flash (record e { type_queue = [] }))
      else (0x101, e)

  -- The settings are read, and `enabled` is stored.
  pub store_enabled : Bool → S → S
  store_enabled enabled flash =
      let (err, cfg) = storage_get_jiggler_config nvs flash (replicate jiggler_config_size 0) in
      let cfg' = (if enabled then 1 else 0) ∷ drop 1 cfg in
      if err == 0 then (storage_set_jiggler_config nvs flash cfg').1 else flash

pub kb_combo_matches : HidReport → ℕ → ℕ → Bool
kb_combo_matches r mod_ kc =
    not (kc == 0)
    && (r.consumer_code == 0)
    && (r.keyboard.modifier == mod_)
    && contains_key kc r.keyboard.keycode

pub report_matches : HidReport → HotkeySlot → Bool
report_matches r s =
    let keys =
      not ((s.match_mode == 0) && not (r.keyboard.modifier == s.modifiers))
      && contains_key s.keycode r.keyboard.keycode in
    if not (s.consumer_code == 0) then r.consumer_code == s.consumer_code else keys

-- `for (int i = 0; i < 6; i++) if (keycode[i]) return false;`
pub no_key : List ℕ → Bool
no_key [] = true
no_key (k ∷ ks) = (k == 0) && no_key ks

pub is_all_zero : HidReport → Bool
is_all_zero r = (r.consumer_code == 0) && (r.keyboard.modifier == 0) && no_key r.keyboard.keycode

pub notify_event : Moment → HidReport → Bool → Bool → Engine → List Act
notify_event t r substituted is_failed e =
    let ev : KeyEvent = record {
      timestamp_ms = t.event_us / 1000;
      report = r;
      substituted = substituted;
      is_failed = is_failed;
    } in
    if e.has_event_cb then event ev ∷ [] else []

-- `xQueueSend` that does not wait.
pub enqueue : Job → List Job → List Job
enqueue job queue = if ltb (length queue) type_queue_len then queue ++ (job ∷ []) else queue

-- `%06` of a number below a million.
pub six_digits : ℕ → List ℕ
six_digits n =
    (48 + n / 100000 % 10)
    ∷ (48 + n / 10000 % 10)
    ∷ (48 + n / 1000 % 10)
    ∷ (48 + n / 100 % 10)
    ∷ (48 + n / 10 % 10)
    ∷ (48 + n % 10)
    ∷ []

module _ (hmac_sha1 : List ℕ → List ℕ → Option (List ℕ)) where
  -- The job of a slot, if it has one, and whether it failed.
  pub slot_job : Moment → HidReport → HotkeySlot → Option Job × Bool
  slot_job t r s =
      let mods = if s.replace_mode == 1 then r.keyboard.modifier else 0 in
      let mode = if s.slot_type == 1 then s.send_mode else 0 in
      let text = take (job_text_size - 1) (c_string s.payload) in
      let job : List ℕ → ℕ → Job =
        λ text mode. record { text = text; restore_mods = mods; send_mode = mode } in
      let code = totp_generate hmac_sha1 (c_string s.payload) t.unix_time in
      if s.slot_type == 0 || s.slot_type == 1
      then (some (job text mode), false)
      else if s.slot_type == 2
      then elim code [
        | ok n ↦ (some (job (six_digits n) 0), false)
        | invalid_arg ↦ (none, true)
        | invalid_state ↦ (none, true)
        | failed ↦ (none, true)
      ]
      else (none, false)

  pub fire_substitution : Moment → HidReport → HotkeySlot → Engine → Engine × List Act
  fire_substitution t r s e =
      let (job, is_failed) = slot_job t r s in
      let queue : List Job = elim job [ none ↦ e.type_queue | some j ↦ enqueue j e.type_queue ] in
      (record e { type_queue = queue }, notify_event t r true is_failed e)

-- The first slot that a report is for.
pub first_match : HidReport → List HotkeySlot → Option HotkeySlot
first_match r [] = none
first_match r (s ∷ ss) = let rest = first_match r ss in if report_matches r s then some s else rest

-- No consumer key is held any more.
pub release_consumer : Engine → Engine × List Act
release_consumer e =
    if e.had_consumer then (record e { had_consumer = false }, out e (send_consumer 0)) else (e, [])

-- A report that nothing takes goes to the host.
pub pass_on : Moment → HidReport → Engine → Engine × List Act
pass_on t r e =
    let (e1, release) = release_consumer e in
    let log = notify_event t r false false e in
    if r.consumer_code == 0
    then (e1, out e (send_report r.keyboard) ++ (release ++ log))
    else (record e { had_consumer = true }, out e (send_consumer r.consumer_code) ++ log)

-- A report is dropped while a substitution is typed, and where it repeats the last one within
-- 100 ms.
pub is_dropped : Moment → HidReport → Engine → Bool
is_dropped t r e =
    elim e.typing [ none ↦ false | some job ↦ true ]
    || (not (e.last_report_us == 0)
        && ltb (t.now - e.last_report_us) 100000
        && same_report r e.last_report)

module _ {S : Type 0} (nvs : Nvs S) (hmac_sha1 : List ℕ → List ℕ → Option (List ℕ)) where
  -- The actions that are not hotkeys, in the order of their checks; `none` where there is none.
  pub run_action : Moment → HidReport → World S → Option (World S × List Act)
  run_action t r w =
      let e = w.engine in
      let toggled =
        (if e.jig_off_kc == 0
          then jiggler_toggle t.start_err w.jig
          else jiggler_enable t.start_err w.jig).1 in
      let (hooked, hooks) = webhook_dispatch r w.webhook in
      let (published, calls) = mqtt_mgr_out_dispatch r w.mqtt in
      let log = notify_event t r true false e in
      if kb_combo_matches r e.jig_on_mod e.jig_on_kc
      then some (
        record w { jig = toggled; flash = store_enabled nvs (jiggler_is_enabled toggled) w.flash },
        log,
      )
      else if kb_combo_matches r e.jig_off_mod e.jig_off_kc
      then some (
        record w { jig = (jiggler_disable w.jig).1; flash = store_enabled nvs false w.flash },
        log,
      )
      else if hooked
      then some (record w { webhook = hooks }, log)
      else if published
      then some (w, map client calls ++ log)
      else none

  abbrev pub in_engine : World S → Engine × List Act → World S × List Act
  in_engine w (e, acts) = (record w { engine = e }, acts)

  -- The slot that fires, if there is one.
  pub fire_or_pass : Moment → HidReport → World S → Option HotkeySlot → World S × List Act
  fire_or_pass t r w (some s) = in_engine w (fire_substitution hmac_sha1 t r s w.engine)
  fire_or_pass t r w none = in_engine w (pass_on t r w.engine)

  pub act_or_fire : Moment → HidReport → World S → Option (World S × List Act) → World S × List Act
  act_or_fire t r w (some done) = done
  act_or_fire t r w none = fire_or_pass t r w (first_match r w.engine.slots)

  -- A report that is not dropped.
  pub take_report : Moment → HidReport → World S → World S × List Act
  take_report t r w =
      if is_all_zero r
      then in_engine w (pass_on t r w.engine)
      else act_or_fire t r w (run_action t r w)

  pub hotkey_engine_process : Moment → HidReport → World S → World S × List Act
  hotkey_engine_process t r w =
      let e = record w.engine { last_report = r; last_report_us = t.now } in
      if is_dropped t r w.engine then (w, []) else take_report t r (record w { engine = e })
