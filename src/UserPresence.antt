-- ===== src/UserPresence.antt =====
-- User presence in components/fido2/fido2.c: `wait_for_up` in the FIDO2 task, and what other tasks
-- do meanwhile through `fido2_confirm_up` and `fido2_intercept_key`. Keep-alive messages and the
-- state shown by the LED are left out.
mod Confirmation
mod Tests
use bluepass.Common.{ℕ, Bool, true, false, not, ◌&&◌, ◌||◌, List, [], ◌∷◌, ◌==◌, if◌then◌else◌}
use bluepass.Storage.{Nvs, storage_get_fido2_config}

-- The binary semaphore `s_up_sem` and `s_up_pending`.
pub record Up : Type 0 where
  pub up_sem : Bool
  pub up_pending : Bool

-- What another task does: a key on its way to the host, with its modifiers, or a confirmation from
-- the button or the web page.
pub data Press : Type 0 where
  key : ℕ → ℕ → Press
  confirm : Press

-- A binary semaphore that is given twice stays given.
unfoldable pub fido2_confirm_up : Up → Up
fido2_confirm_up u = if u.up_pending then record u { up_sem = true } else u

module _ {S : Type 0} (nvs : Nvs S) (flash : S) where
  pub fido2_intercept_key : ℕ → ℕ → Up → Bool × Up
  fido2_intercept_key modifiers keycode u =
      let cfg = (storage_get_fido2_config nvs flash).1 in
      if not u.up_pending || keycode == 0
      then (false, u)
      else if cfg.confirm_keycode == 0
      then (false, u)
      else if not (cfg.confirm_keycode == keycode)
      then (false, u)
      else if not (cfg.confirm_modifiers == 0) && not (cfg.confirm_modifiers == modifiers)
      then (false, u)
      else (true, fido2_confirm_up u)

  -- What other tasks do, one after the other.
  unfoldable pub deliver : List Press → Up → Up
  deliver [] u = u
  deliver (confirm ∷ ps) u = deliver ps (fido2_confirm_up u)
  deliver (key modifiers keycode ∷ ps) u = deliver ps (fido2_intercept_key modifiers keycode u).1

  -- The loop of `wait_for_up`: a list entry is one call of `xSemaphoreTake`, with what happens
  -- since the call before it; after the last entry the deadline has passed.
  unfoldable pub wait_loop : List (List Press) → Up → Bool × Up
  wait_loop [] u = (false, u)
  wait_loop (ps ∷ more) u =
      let u1 = deliver ps u in
      let rest = wait_loop more u1 in
      if u1.up_sem then (true, record u1 { up_sem = false }) else rest

  -- `late` is what happens behind the last take and before `s_up_pending` is cleared.
  unfoldable pub wait_for_up : List (List Press) → List Press → Up → Bool × Up
  wait_for_up slices late u =
      let (confirmed, u1) = wait_loop slices (record u { up_pending = true }) in
      (confirmed, record (deliver late u1) { up_pending = false })
