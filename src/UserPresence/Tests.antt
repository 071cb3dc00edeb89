-- ===== src/UserPresence/Tests.antt =====
-- Waits for the user with a configured key.
use bluepass.Common.{◌≡◌, refl, true, false, ◌||◌, [], ◌∷◌, some, none}
use bluepass.Storage.{named}
use bluepass.Storage.Working.{Flash, put, working}
use bluepass.UserPresence.{Up, key, confirm, wait_for_up}
use bluepass.UserPresence.Confirmation.{any_confirms, any_slice, wait_for_up_iff, wait_for_up_stale}

-- The key 0x45 with the modifiers 2 confirms.
abbrev flash : Flash
flash = put (λ k. none) (named "cfg") (some (1 ∷ 0 ∷ 8 ∷ 2 ∷ 0x45 ∷ 0 ∷ 0 ∷ 0 ∷ []))

abbrev idle : Up
idle = record { up_sem = false; up_pending = false }

-- A key with the wrong modifiers, then the right one, and the button behind the last take.
wait_for_up_iff_example :
    wait_for_up working flash ((key 0 0x45 ∷ []) ∷ (key 2 0x45 ∷ []) ∷ []) (confirm ∷ []) idle ≡ (
      false || any_slice working flash ((key 0 0x45 ∷ []) ∷ (key 2 0x45 ∷ []) ∷ []),
      record { up_sem = any_confirms working flash (confirm ∷ []); up_pending = false },
    )
wait_for_up_iff_example =
    wait_for_up_iff working flash (key 0 0x45 ∷ []) ((key 2 0x45 ∷ []) ∷ []) (confirm ∷ []) idle

-- The user presses the button once, too late; the wait is given up, and the next one succeeds.
wait_for_up_stale_example :
    (wait_for_up working flash
      ([] ∷ [])
      []
      (wait_for_up working flash ([] ∷ []) (confirm ∷ []) idle).1).0
    ≡ true
wait_for_up_stale_example = wait_for_up_stale working flash [] [] (confirm ∷ []) idle refl
