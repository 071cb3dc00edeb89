-- ===== src/Main/Start/Tests.antt =====
-- A start with empty flash.
use bluepass.Common.{◌≡◌, refl, true, false, none, some}
use bluepass.Storage.Settings.{storage_get_connection_mode}
use bluepass.Storage.Working.{Flash, working}
use bluepass.Main.Start.{app_main, start}
use bluepass.Main.Start.Wiring.{nothing_runs, all_started, IsWired, app_main-IsWired}

abbrev empty : Flash
empty = λ k. none

app_main-IsWired_example :
    let (calls, runs) =
      start
        (λ c. 0)
        (app_main
          (storage_get_connection_mode working empty).1
          (some (104, 0, 60000, true))
          false) in
    (runs ≡ true) × IsWired true false (all_started calls nothing_runs)
app_main-IsWired_example =
    app_main-IsWired working empty (λ c. 0) (some (104, 0, 60000, true)) false (λ c. refl)
