-- ===== src/Jiggler/Sync.antt =====
-- The timer and the callback of components/jiggler/jiggler.c against the flag `enabled`.
use bluepass.Common.{
  ℕ, Bool, true, refl, List, [], ◌∷◌, ◌*◌, ◌≡◌, false, none, some, ◌==◌, if_either, if◌then◌else◌,
  ◌&&◌, arith,
}
use bluepass.Jiggler.{
  jiggler_init, Jig, jiggler_enable, jiggler_disable, jiggler_configure, jiggler_toggle,
  jiggler_set_state_cb,
}

-- The timer runs exactly while the jiggler is enabled, with its interval in microseconds, and the
-- callback, where there is one, was told so; where there is none, nobody thinks that it runs.
pub record IsSynced (j : Jig) : Type 0 where
  pub runs : j.timer ≡ (if j.enabled then some (j.interval_ms * 1000) else none)
  pub knows : j.has_state_cb ≡ true → j.told ≡ j.enabled
  pub silent : j.has_state_cb ≡ false → j.told ≡ false

disable-IsSynced : (j : Jig) → IsSynced j → IsSynced (jiggler_disable j).1
unfolding jiggler_disable
disable-IsSynced j v = record {
  runs = ground (arith, v.runs);
  knows = ground (arith, v.knows, v.silent);
  silent = ground (arith, v.knows, v.silent);
}

enable-IsSynced : (err : ℕ) (j : Jig) → IsSynced j → IsSynced (jiggler_enable err j).1
unfolding jiggler_enable
enable-IsSynced err j v = record {
  runs = ground (arith, v.runs);
  knows = ground (arith, v.knows, v.silent);
  silent = ground (arith, v.knows, v.silent);
}

configure-IsSynced :
    (err keycode modifiers interval_ms : ℕ) (j : Jig)
    → IsSynced j
    → IsSynced (jiggler_configure err keycode modifiers interval_ms j).1
unfolding jiggler_configure jiggler_enable jiggler_disable
configure-IsSynced err keycode modifiers interval_ms j v = record {
  runs = ground (arith, v.runs);
  knows = ground (arith, v.knows, v.silent);
  silent = ground (arith, v.knows, v.silent);
}

-- What the other parts of the firmware call, with what `esp_timer_start_periodic` answers.
pub data JigCall : Type 0 where
  enable : ℕ → JigCall
  disable : JigCall
  toggle : ℕ → JigCall
  configure : ℕ → ℕ → ℕ → ℕ → JigCall

pub called : JigCall → Jig → Jig
called (enable err) j = (jiggler_enable err j).1
called disable j = (jiggler_disable j).1
called (toggle err) j = (jiggler_toggle err j).1
called (configure err keycode modifiers interval_ms) j =
    (jiggler_configure err keycode modifiers interval_ms j).1

pub all_called : List JigCall → Jig → Jig
all_called [] j = j
all_called (c ∷ cs) j = all_called cs (called c j)

called-IsSynced : (c : JigCall) (j : Jig) → IsSynced j → IsSynced (called c j)
unfolding called jiggler_toggle
called-IsSynced (enable err) j v = enable-IsSynced err j v
called-IsSynced disable j v = disable-IsSynced j v
called-IsSynced (toggle err) j v =
    if_either {A = ℕ × Jig} (λ r. IsSynced r.1) j.enabled _ _ (disable-IsSynced j v)
      (enable-IsSynced err j v)
called-IsSynced (configure err keycode modifiers interval_ms) j v =
    configure-IsSynced err keycode modifiers interval_ms j v

all_called-IsSynced : (cs : List JigCall) (j : Jig) → IsSynced j → IsSynced (all_called cs j)
unfolding all_called
all_called-IsSynced [] j v = v
all_called-IsSynced (c ∷ cs) j v = all_called-IsSynced cs (called c j) (called-IsSynced c j v)

register-IsSynced :
    (registered : Bool) (j : Jig)
    → j.enabled ≡ false
    → IsSynced j
    → IsSynced (jiggler_set_state_cb registered j)
unfolding jiggler_set_state_cb
register-IsSynced registered j off v = record {
  runs = v.runs;
  knows = ground (arith, off, v.knows, v.silent);
  silent = ground (arith, off, v.knows, v.silent);
}

-- The callback is registered behind the start, as `app_main` does, with the timer idle and the callback
-- told nothing yet. Then through any sequence of calls that switch the jiggler on, off or over or
-- configure it, whether the timer can be started or not, the timer runs exactly while the jiggler is
-- enabled, with its interval, and the callback was told last whether it is. Registering a callback anew
-- keeps this on a jiggler that is off.
pub jiggler-IsSynced :
    (f15 err : ℕ) (registered anew : Bool) (calls : List JigCall) (start stopped : Jig)
    → start.timer ≡ none
    → start.told ≡ false
    → stopped.enabled ≡ false
    → IsSynced stopped
    → IsSynced (all_called calls (jiggler_set_state_cb registered (jiggler_init f15 err start).1))
      × IsSynced (jiggler_set_state_cb anew stopped)
unfolding jiggler_init
jiggler-IsSynced f15 err registered anew calls start stopped idle untold off v = (
  all_called-IsSynced calls (jiggler_set_state_cb registered (jiggler_init f15 err start).1) (
      register-IsSynced registered (jiggler_init f15 err start).1 refl
        (record { runs = idle; knows = λ h. untold; silent = λ h. untold })),
  register-IsSynced anew stopped off v,
)

-- A new configuration of a running jiggler runs at once with the new interval; it is off only where
-- it was off or the timer cannot be started again.
jiggler_configure_lem :
    (err keycode modifiers interval_ms : ℕ) (j : Jig)
    → IsSynced j
    → ((jiggler_configure err keycode modifiers interval_ms j).1.enabled ≡ (j.enabled && err == 0))
      × ((jiggler_configure err keycode modifiers interval_ms j).1.timer
          ≡ (if j.enabled && err == 0 then some (interval_ms * 1000) else none))
unfolding jiggler_configure jiggler_enable jiggler_disable
jiggler_configure_lem err keycode modifiers interval_ms j v = ground (arith, v.runs)
