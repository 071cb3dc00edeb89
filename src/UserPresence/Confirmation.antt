-- ===== src/UserPresence/Confirmation.antt =====
-- When `wait_for_up` of components/fido2/fido2.c takes the user to be present.
use bluepass.Common.{ℕ, ◌≡◌, refl, Bool, true, false, not, ◌&&◌, ◌||◌, List, [], ◌∷◌, ◌==◌, arith}
use bluepass.Storage.{Nvs, storage_get_fido2_config}
use bluepass.UserPresence.{
  Up, Press, key, confirm, fido2_confirm_up, fido2_intercept_key, deliver, wait_loop, wait_for_up,
}

module _ {S : Type 0} (nvs : Nvs S) (flash : S) where
  -- A press that confirms: the button, or the configured key with its modifiers, where a
  -- configuration without modifiers takes any.
  abbrev pub confirms : Press → Bool
  confirms confirm = true
  confirms (key modifiers keycode) =
      let cfg = (storage_get_fido2_config nvs flash).1 in
      not (keycode == 0)
      && (cfg.confirm_keycode == keycode
          && (cfg.confirm_modifiers == 0 || cfg.confirm_modifiers == modifiers))

  abbrev pub any_confirms : List Press → Bool
  any_confirms [] = false
  any_confirms (p ∷ ps) = confirms p || any_confirms ps

  abbrev pub any_slice : List (List Press) → Bool
  any_slice [] = false
  any_slice (ps ∷ more) = any_confirms ps || any_slice more

  abbrev waiting : Bool → Up
  waiting sem = record { up_sem = sem; up_pending = true }

  intercepted :
      (modifiers keycode : ℕ) (sem : Bool)
      → (fido2_intercept_key nvs flash modifiers keycode (waiting sem)).1
        ≡ waiting (sem || confirms (key modifiers keycode))
  unfolding fido2_intercept_key fido2_confirm_up
  intercepted modifiers keycode sem = ground arith

  delivered :
      (ps : List Press) (sem : Bool)
      → deliver nvs flash ps (waiting sem) ≡ waiting (sem || any_confirms ps)
  unfolding deliver fido2_confirm_up
  delivered [] sem = ground arith
  delivered (confirm ∷ ps) sem = ground (arith, delivered ps true)
  delivered (key modifiers keycode ∷ ps) sem =
      rw (intercepted modifiers keycode sem)
        (ground (arith, delivered ps (sem || confirms (key modifiers keycode))))

  looped :
      (ps : List Press) (more : List (List Press)) (sem : Bool)
      → wait_loop nvs flash (ps ∷ more) (waiting sem)
        ≡ (sem || any_slice (ps ∷ more), waiting false)
  unfolding wait_loop
  looped ps [] sem = ground (arith, delivered ps sem)
  looped ps (qs ∷ more) sem =
      ground (arith, delivered ps sem, looped qs more (sem || any_confirms ps))

  -- A wait of at least one slice is confirmed if and only if a press confirms before the deadline or
  -- the semaphore was given already, and it leaves the semaphore given if and only if a press
  -- confirms behind the last take.
  pub wait_for_up_iff :
      (ps : List Press) (more : List (List Press)) (late : List Press) (u : Up)
      → wait_for_up nvs flash (ps ∷ more) late u ≡ (
        u.up_sem || any_slice (ps ∷ more),
        record { up_sem = any_confirms late; up_pending = false },
      )
  unfolding wait_for_up
  wait_for_up_iff ps more late u = rw (looped ps more u.up_sem) (rw (delivered late false) refl)

  -- A press behind the last take of one wait confirms the next, in which nobody presses anything.
  pub wait_for_up_stale :
      (ps : List Press) (more : List (List Press)) (late : List Press) (u : Up)
      → any_confirms late ≡ true
      → (wait_for_up nvs flash ([] ∷ []) [] (wait_for_up nvs flash (ps ∷ more) late u).1).0 ≡ true
  wait_for_up_stale ps more late u pressed =
      rw
        (
          wait_for_up_iff ps more late u,
          wait_for_up_iff [] [] [] (record { up_sem = any_confirms late; up_pending = false }),
          pressed,
        )
        refl
