-- ===== src/Hotkey/Typing.antt =====
-- A substitution that components/hotkey/hotkey.c types, with the reports that come in meanwhile.
use bluepass.Common.{
  ℕ, ◌≡◌, refl, true, Option, none, some, List, [], ◌∷◌, ◌++◌, ◌==◌, if◌then◌else◌, replicate,
  arith,
}
use bluepass.Storage.{Nvs}
use bluepass.HidReport.{HidReport}
use bluepass.Hotkey.{
  Act, send_report, send_release, type_string, Engine, World, Moment, Job, typing_begin, typing_end,
  is_dropped, hotkey_engine_process,
}

module _ {S : Type 0} (nvs : Nvs S) (hmac_sha1 : List ℕ → List ℕ → Option (List ℕ)) where
  -- Reports that come in one after the other.
  abbrev pub process_all : List (Moment × HidReport) → World S → World S × List Act
  process_all [] w = (w, [])
  process_all ((t, r) ∷ more) w =
      let (w1, acts) = hotkey_engine_process nvs hmac_sha1 t r w in
      let (w2, rest) = process_all more w1 in (w2, acts ++ rest)

  -- The task takes a job, reports come in, and the task types it.
  abbrev pub typed : List (Moment × HidReport) → World S → World S × List Act
  typed reports w =
      let (e1, acts1) = typing_begin w.engine in
      let (w2, acts2) = process_all reports (record w { engine = e1 }) in
      let (e3, acts3) = typing_end w2.engine in
      (record w2 { engine = e3 }, acts1 ++ (acts2 ++ acts3))

  one_dropped :
      (t : Moment) (r : HidReport) (w : World S) (job : Job)
      → w.engine.typing ≡ some job
      → hotkey_engine_process nvs hmac_sha1 t r w ≡ (w, [])
  unfolding hotkey_engine_process is_dropped
  one_dropped t r w job busy = rw (busy_drops w.engine busy) refl
    where
      busy_drops : (e : Engine) → e.typing ≡ some job → is_dropped t r e ≡ true
      busy_drops e h = rw h refl

  all_dropped :
      (reports : List (Moment × HidReport)) (w : World S) (job : Job)
      → w.engine.typing ≡ some job
      → process_all reports w ≡ (w, [])
  all_dropped [] w job busy = refl
  all_dropped ((t, r) ∷ more) w job busy =
      rw (one_dropped t r w job busy) (all_dropped more w job busy)

  begin_lem :
      (e : Engine) (job : Job) (queue : List Job)
      → e.has_out ≡ true
      → e.typing ≡ none
      → e.type_queue ≡ job ∷ queue
      → typing_begin e ≡ (record e { type_queue = queue; typing = some job }, send_release ∷ [])
  unfolding typing_begin
  begin_lem e job queue on idle waiting = rw (idle, waiting, on) refl

  -- With outputs, nothing being typed and a job that waits: whatever reports come in between, the
  -- host gets the release of the trigger, the text of the
  -- oldest job and the modifiers that the job restores, in this order and with nothing between; the
  -- reports change nothing, and the engine is left without that job.
  pub typed-uninterrupted :
      (reports : List (Moment × HidReport)) (w : World S) (job : Job) (queue : List Job)
      → w.engine.has_out ≡ true
      → w.engine.typing ≡ none
      → w.engine.type_queue ≡ job ∷ queue
      → typed reports w ≡ (
        record w { engine = record w.engine { type_queue = queue; typing = none } },
        send_release
            ∷ type_string job.text job.send_mode
            ∷ (if job.restore_mods == 0
                then []
                else send_report
                    (record { modifier = job.restore_mods; reserved = 0; keycode = replicate 6 0 })
                  ∷ []),
      )
  unfolding typing_end
  typed-uninterrupted reports w job queue on idle waiting =
      let e1 = record w.engine { type_queue = queue; typing = some job } in
      rw (begin_lem w.engine job queue on idle waiting)
        (rw (all_dropped reports (record w { engine = e1 }) job refl) (ground (arith, on)))
