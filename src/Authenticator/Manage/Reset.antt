-- ===== src/Authenticator/Manage/Reset.antt =====
-- What a factory reset of components/fido2/fido2.c leaves in a flash that works.
use bluepass.Common.{
  ℕ, zero, suc, ◌+◌, ◌⊎◌, ◌≤◌, ◌<◌, ◌≡◌, refl, ap, ◌∙◌, true, false, List, ◌==◌, length, replicate,
  arith, Bool-cases, inl, inr, length-replicate,
}
use bluepass.Storage.{
  Nvs, esp_err_nvs_not_found, storage_get_fido2_config, storage_set_fido2_config,
  storage_fido2_has_pin, storage_clear_fido2_pin_hash, storage_fido2_reset_sign_counter,
  storage_fido2_inc_sign_counter, storage_get_fido2_master_key,
}
use bluepass.Storage.Laws.{IsReliable, get_config-set}
use bluepass.Storage.Slots.{
  fido2_rk_max, fido2_rk_size, storage_delete_fido2_rk, storage_get_fido2_rk,
}
use bluepass.Storage.Slots.Arrays.{fido2_rk_array}
use bluepass.Storage.Slots.Frames.{
  config-delete_rk, rk-set_config, rk-clear_pin, config-clear_pin, has_pin-clear_pin,
  rk-reset_counter, config-reset_counter, has_pin-reset_counter, rk-set_master, config-set_master,
  has_pin-set_master, master-set_master, counter-set_master,
}
use bluepass.ClientPin.{PinState, pin_retries_max}
use bluepass.Authenticator.Manage.{
  fido2_regen_master_key, delete_rks, reset_flash, fido2_factory_reset,
}

module _ {S : Type 0} (nvs : Nvs S) (works : IsReliable nvs) where
  config-delete_rks :
      (rounds i : ℕ) (s : S)
      → storage_get_fido2_config nvs (delete_rks nvs rounds i s) ≡ storage_get_fido2_config nvs s
  unfolding delete_rks
  config-delete_rks zero i s = refl
  config-delete_rks (suc rounds) i s =
      config-delete_rks rounds (i + 1) (storage_delete_fido2_rk nvs i s).1
      ∙ config-delete_rk nvs works s i

  -- The error of a read from an empty slot.
  abbrev pub IsEmptySlot : ℕ → S → Type 0
  IsEmptySlot j s = (storage_get_fido2_rk nvs j s).0 ≡ esp_err_nvs_not_found

  delete_rk-empty :
      (s : S) (i j : ℕ)
      → j < fido2_rk_max
      → (i ≡ j) ⊎ IsEmptySlot j s
      → IsEmptySlot j (storage_delete_fido2_rk nvs i s).1
  delete_rk-empty s i j small h = ground (
    arith,
    (fido2_rk_array nvs works s i j (replicate fido2_rk_size 0)
        (length-replicate {A = ℕ} fido2_rk_size 0) small).1,
  )

  delete_rks-empty :
      (rounds i : ℕ) (s : S) (j : ℕ)
      → j < fido2_rk_max
      → j < i + rounds
      → (i ≤ j) ⊎ IsEmptySlot j s
      → IsEmptySlot j (delete_rks nvs rounds i s)
  unfolding delete_rks
  delete_rks-empty zero i s j small high (inl low) = absurd (omega arith)
  delete_rks-empty zero i s j small high (inr done) = done
  delete_rks-empty (suc rounds) i s j small high h =
      delete_rks-empty rounds (i + 1) (storage_delete_fido2_rk nvs i s).1 j small (omega arith)
        (next h (Bool-cases (i == j)))
    where
      next :
          (i ≤ j) ⊎ IsEmptySlot j s
          → ((i == j) ≡ true) ⊎ ((i == j) ≡ false)
          → (i + 1 ≤ j) ⊎ IsEmptySlot j (storage_delete_fido2_rk nvs i s).1
      next (inr done) b = inr (delete_rk-empty s i j small (inr done))
      next (inl low) (inl same) = inr (delete_rk-empty s i j small (inl (ground arith)))
      next (inl low) (inr other) = inl (ground arith)

  -- On a flash that works, a factory reset empties every slot of resident keys, forgets the PIN and
  -- the token, gives back all retries, keeps the rest of the configuration, and starts over with the
  -- counter and with the random master key that it was given.
  pub fido2_factory_reset_lem :
      (f : PinState S) (new_key stack : List ℕ) (j : ℕ)
      → j < fido2_rk_max
      → length new_key ≡ 32
      → length stack ≡ 32
      → let g = (fido2_factory_reset nvs new_key f).1 in
        IsEmptySlot j g.flash
        × (storage_fido2_has_pin nvs g.flash ≡ false)
        × (g.pin_token_valid ≡ false)
        × (storage_get_fido2_config nvs g.flash ≡ (
          0,
          record ((storage_get_fido2_config nvs f.flash).1) { pin_retries = 8; rk_count = 0 },
        ))
        × ((storage_fido2_inc_sign_counter nvs g.flash).0 ≡ 1)
        × (storage_get_fido2_master_key nvs g.flash stack ≡ (0, new_key))
  unfolding fido2_factory_reset fido2_regen_master_key reset_flash
  fido2_factory_reset_lem f new_key stack j small size room =
      let s1 = delete_rks nvs fido2_rk_max 0 f.flash in
      let cfg = record ((storage_get_fido2_config nvs s1).1) {
        pin_retries = pin_retries_max;
        rk_count = 0;
      } in
      let s2 = (storage_set_fido2_config nvs s1 cfg).1 in
      let s3 = (storage_clear_fido2_pin_hash nvs s2).1 in
      let s4 = (storage_fido2_reset_sign_counter nvs s3).1 in
      (
        rw
            (
              rk-set_master nvs works s4 new_key j,
              rk-reset_counter nvs works s3 j,
              rk-clear_pin nvs works s2 j,
              rk-set_config nvs works s1 cfg j,
            )
            (delete_rks-empty fido2_rk_max 0 f.flash j small (omega arith) (inl (omega arith))),
        has_pin-set_master nvs works s4 new_key
            ∙ (has_pin-reset_counter nvs works s3 ∙ has_pin-clear_pin nvs works s2),
        refl,
        config-set_master nvs works s4 new_key
            ∙ (config-reset_counter nvs works s3
                ∙ (config-clear_pin nvs works s2
                    ∙ (get_config-set nvs works s1 cfg
                        ∙ ap (λ r. (0, record (r.1) { pin_retries = 8; rk_count = 0 }))
                            (config-delete_rks fido2_rk_max 0 f.flash)))),
        counter-set_master nvs works s3 new_key,
        master-set_master nvs works s4 new_key stack size room,
      )
