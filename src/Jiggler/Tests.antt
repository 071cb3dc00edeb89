-- ===== src/Jiggler/Tests.antt =====
-- A jiggler that is switched on, configured while its timer fails, and switched over.
use bluepass.Common.{List, [], ◌∷◌, refl, true, false, none}
use bluepass.Jiggler.{Jig, jiggler_init, jiggler_set_state_cb}
use bluepass.Jiggler.Sync.{
  IsSynced, JigCall, enable, disable, toggle, configure, all_called, jiggler-IsSynced,
}

abbrev fresh : Jig
fresh = record {
  timer = none;
  keycode = 0;
  modifiers = 0;
  interval_ms = 0;
  enabled = false;
  has_state_cb = false;
  told = false;
}

abbrev stopped : Jig
stopped = record {
  timer = none;
  keycode = 104;
  modifiers = 0;
  interval_ms = 60000;
  enabled = false;
  has_state_cb = false;
  told = false;
}

stopped-IsSynced : IsSynced stopped
stopped-IsSynced = record { runs = refl; knows = λ h. refl; silent = λ h. refl }

abbrev calls : List JigCall
calls = enable 0 ∷ configure 1 5 2 1000 ∷ toggle 0 ∷ disable ∷ []

jiggler-IsSynced_example :
    IsSynced (all_called calls (jiggler_set_state_cb true (jiggler_init 104 0 fresh).1))
    × IsSynced (jiggler_set_state_cb true stopped)
jiggler-IsSynced_example =
    jiggler-IsSynced 104 0 true true calls fresh stopped refl refl refl stopped-IsSynced
