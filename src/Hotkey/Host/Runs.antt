-- ===== src/Hotkey/Host/Runs.antt =====
-- Whole runs of the engine of components/hotkey/hotkey.c.
use bluepass.Common.{
  ℕ, ◌≡◌, sym, ◌∙◌, ap, true, false, not, Option, List, [], ◌∷◌, ◌++◌, map, ◌==◌, arith, if_either,
}
use bluepass.Storage.{Nvs}
use bluepass.HidReport.{HidReport}
use bluepass.Mqtt.{Call}
use bluepass.Hotkey.{
  Act, client, Engine, World, Moment, notify_event, is_dropped, is_all_zero, take_report,
  hotkey_engine_process, typing_begin, typing_end, hotkey_engine_reload,
}
use bluepass.Hotkey.Actions.{take_report_cases}
use bluepass.Hotkey.Host.{
  held, IsTracked, Tracks, log_held, calls_held, pass_on-Tracks, fire-Tracks, begin-Tracks,
  end-Tracks, pass_held,
}

-- What happens to the engine: a report, the two steps of the typing task, new settings.
pub data Happening (S : Type 0) : Type 0 where
  reported : Moment → HidReport → Happening S
  began : Happening S
  ended : Happening S
  reloaded : S → S → Happening S

module _ {S : Type 0} (nvs : Nvs S) (hmac_sha1 : List ℕ → List ℕ → Option (List ℕ)) where
  -- What is left of the world, and what leaves it.
  abbrev pub happen : Happening S → World S → World S × List Act
  happen (reported t r) w = hotkey_engine_process nvs hmac_sha1 t r w
  happen began w = let (e, acts) = typing_begin w.engine in (record w { engine = e }, acts)
  happen ended w = let (e, acts) = typing_end w.engine in (record w { engine = e }, acts)
  happen (reloaded slots flash) w =
      (record w { engine = hotkey_engine_reload nvs slots flash w.engine }, [])

  abbrev pub happen_all : List (Happening S) → World S × ℕ → World S × ℕ
  happen_all [] x = x
  happen_all (h ∷ hs) (w, u) = let (w', acts) = happen h w in happen_all hs (w', held acts u)

  module _ (t : Moment) (r : HidReport) (w : World S) (u : ℕ) (v : IsTracked w.engine u) where
    told-Tracks :
        (calls : List Call)
        → Tracks (w.engine, map client calls ++ notify_event t r true false w.engine) u
    told-Tracks calls = record {
      on = v.on;
      knows =
          v.knows
          ∙ sym
              (ap (λ x. not (x == 0)) (calls_held calls _ u ∙ log_held t r true false w.engine u));
      fits = v.fits;
    }

    take_report-Tracks :
        let (w', acts) = take_report nvs hmac_sha1 t r w in Tracks (w'.engine, acts) u
    take_report-Tracks =
        let P : World S × List Act → Type 0 = λ x. Tracks (x.0.engine, x.1) u in
        take_report_cases nvs hmac_sha1 P t r w (pass_on-Tracks t r w.engine u v)
          (λ s. fire-Tracks hmac_sha1 t r s w.engine u v)
          (λ w' calls same. rw same (told-Tracks calls))

  process-Tracks :
      (t : Moment) (r : HidReport) (w : World S) (u : ℕ)
      → IsTracked w.engine u
      → let (w', acts) = hotkey_engine_process nvs hmac_sha1 t r w in Tracks (w'.engine, acts) u
  unfolding hotkey_engine_process
  process-Tracks t r w u v =
      let e = record w.engine { last_report = r; last_report_us = t.now } in
      let P : World S × List Act → Type 0 = λ x. Tracks (x.0.engine, x.1) u in
      if_either P (is_dropped t r w.engine) _ _ v (
        take_report-Tracks t r (record w { engine = e }) u
          (record { on = v.on; knows = v.knows; fits = v.fits }))

  reload-IsTracked :
      (slots flash : S) (e : Engine) (u : ℕ)
      → IsTracked e u
      → IsTracked (hotkey_engine_reload nvs slots flash e) u
  unfolding hotkey_engine_reload
  reload-IsTracked slots flash e u v = record {
    on = ground (arith, v.on);
    knows = ground (arith, v.knows);
    fits = ground (arith, v.fits);
  }

  -- From an engine with outputs that knows whether the host sees a consumer key as held and has at
  -- most four texts in its queue, over any sequence of reports, steps of the typing task and new
  -- settings, `s_had_consumer` stays whether the host sees one, and the queue has at most four.
  pub happen_all-IsTracked :
      (hs : List (Happening S)) (w : World S) (u : ℕ)
      → IsTracked w.engine u
      → let (w', u') = happen_all hs (w, u) in IsTracked w'.engine u'
  happen_all-IsTracked [] w u v = v
  happen_all-IsTracked (reported t r ∷ hs) w u v =
      happen_all-IsTracked hs _ _ (process-Tracks t r w u v)
  happen_all-IsTracked (began ∷ hs) w u v = happen_all-IsTracked hs _ _ (begin-Tracks w.engine u v)
  happen_all-IsTracked (ended ∷ hs) w u v = happen_all-IsTracked hs _ _ (end-Tracks w.engine u v)
  happen_all-IsTracked (reloaded slots flash ∷ hs) w u v =
      happen_all-IsTracked hs _ _ (reload-IsTracked slots flash w.engine u v)

  process_held :
      (t : Moment) (r : HidReport) (w : World S) (u : ℕ)
      → IsTracked w.engine u
      → is_dropped t r w.engine ≡ false
      → is_all_zero r ≡ true
      → held (hotkey_engine_process nvs hmac_sha1 t r w).1 u ≡ 0
  unfolding hotkey_engine_process take_report is_all_zero
  process_held t r w u v taken zeros =
      let e = record w.engine { last_report = r; last_report_us = t.now } in
      rw taken (
        rw zeros (
          pass_held t r e u (record { on = v.on; knows = v.knows; fits = v.fits })
          ∙ ground (arith, zeros)))

  -- Whatever happened to an engine with outputs that knew what the host sees, behind a report without keys that is not
  -- dropped the host sees no consumer key as held.
  process-lets_go :
      (hs : List (Happening S)) (start : World S) (u : ℕ) (t : Moment) (r : HidReport)
      → IsTracked start.engine u
      → is_dropped t r (happen_all hs (start, u)).0.engine ≡ false
      → is_all_zero r ≡ true
      → let (w, u') = happen_all hs (start, u) in
        held (hotkey_engine_process nvs hmac_sha1 t r w).1 u' ≡ 0
  process-lets_go hs start u t r v taken zeros =
      process_held t r _ _ (happen_all-IsTracked hs start u v) taken zeros
