-- ===== src/Hotkey/Tests.antt =====
-- An engine with one text slot, that types nothing yet; the slot is for Ctrl and F1.
use bluepass.Common.{
  ◌≡◌, refl, true, false, Option, none, List, ℕ, [], ◌∷◌, ◌++◌, ◌==◌, if◌then◌else◌, replicate,
  ascii, arith,
}
use bluepass.Storage.Working.{Flash, working}
use bluepass.HidReport.{HidReport, single_key, released}
use bluepass.Hotkey.{
  HotkeySlot, Job, send_report, send_release, type_string, World, Moment, report_matches,
  is_dropped, is_all_zero, no_key, typing_begin, typing_end, hotkey_engine_process,
}
use bluepass.Hotkey.Reports.{IsHandled, hotkey_engine_process-IsHandled}
use bluepass.Hotkey.Typing.{typed, typed-uninterrupted}
use bluepass.Hotkey.Host.{IsTracked}
use bluepass.Hotkey.Host.Runs.{reported, began, ended, happen_all, happen_all-IsTracked}

abbrev no_hmac : List ℕ → List ℕ → Option (List ℕ)
no_hmac key message = none

abbrev empty : Flash
empty = λ k. none

abbrev slot : HotkeySlot
slot = record {
  modifiers = 1;
  keycode = 58;
  consumer_code = 0;
  slot_type = 1;
  payload = ascii "hi" ++ (0 ∷ []);
  active = true;
  match_mode = 0;
  replace_mode = 0;
  send_mode = 0;
}

abbrev job : Job
job = record { text = ascii "hi"; restore_mods = 1; send_mode = 0 }

abbrev combo : HidReport
combo = record { keyboard = single_key 1 58; consumer_code = 0 }

abbrev up : HidReport
up = record { keyboard = released; consumer_code = 0 }

abbrev volume : HidReport
volume = record { keyboard = released; consumer_code = 0xe9 }

abbrev at : ℕ → Moment
at now = record { now = now; event_us = now; unix_time = 0; start_err = 0 }

abbrev waiting : World Flash
waiting = record {
  engine = record {
    slots = slot ∷ [];
    had_consumer = true;
    has_out = true;
    has_event_cb = true;
    last_report = up;
    last_report_us = 0;
    jig_on_mod = 0;
    jig_on_kc = 0;
    jig_off_mod = 0;
    jig_off_kc = 0;
    type_queue = job ∷ [];
    typing = none;
  };
  jig = record {
    timer = none;
    keycode = 0;
    modifiers = 0;
    interval_ms = 0;
    enabled = false;
    has_state_cb = false;
    told = false;
  };
  webhook = record { enabled = false; slots = []; queue = [] };
  mqtt = record { client = false; connected = false; broker = []; out_slots = []; in_slots = [] };
  flash = empty;
}

hotkey_engine_process-IsHandled_example :
    if is_dropped (at 5) combo waiting.engine
    then hotkey_engine_process working no_hmac (at 5) combo waiting ≡ (waiting, [])
    else IsHandled (at 5) combo true (hotkey_engine_process working no_hmac (at 5) combo waiting).1
hotkey_engine_process-IsHandled_example =
    hotkey_engine_process-IsHandled working no_hmac (at 5) combo waiting refl refl

typed-uninterrupted_example : typed working no_hmac ((at 5, combo) ∷ (at 9, up) ∷ []) waiting ≡ (
  record waiting { engine = record waiting.engine { type_queue = []; typing = none } },
  send_release
      ∷ type_string (ascii "hi") 0
      ∷ (if 1 == 0
          then []
          else send_report (record { modifier = 1; reserved = 0; keycode = replicate 6 0 }) ∷ []),
)
typed-uninterrupted_example =
    typed-uninterrupted working no_hmac ((at 5, combo) ∷ (at 9, up) ∷ []) waiting job [] refl refl
      refl

waiting-IsTracked : IsTracked waiting.engine 0xe9
waiting-IsTracked = record { on = refl; knows = refl; fits = omega arith }

happen_all-IsTracked_example :
    let (w, u) =
      happen_all working no_hmac (reported (at 5) combo ∷ began ∷ ended ∷ []) (waiting, 0xe9) in
    IsTracked w.engine u
happen_all-IsTracked_example =
    happen_all-IsTracked working no_hmac (reported (at 5) combo ∷ began ∷ ended ∷ []) waiting 0xe9
      waiting-IsTracked

still_open :
    is_dropped (at 9) up (happen_all working no_hmac (began ∷ ended ∷ []) (waiting, 0xe9)).0.engine
    ≡ false
unfolding is_dropped typing_begin typing_end
still_open = refl

no_keys : is_all_zero up ≡ true
unfolding is_all_zero no_key
no_keys = refl

-- A slot without a key fires at every report of its modifiers with a free place.
free_place_fires : report_matches combo (record slot { keycode = 0 }) ≡ true
unfolding report_matches bluepass.HidReport.contains_key
free_place_fires = refl
