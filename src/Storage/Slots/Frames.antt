-- ===== src/Storage/Slots/Frames.antt =====
-- What the operations on the fido2 namespace in components/storage/storage.c leave alone, on a flash
-- that works: each touches its own key.
use bluepass.Common.{ℕ, ◌≡◌, ◌≢◌, refl, ap, ◌∙◌, false, List, length, drop_all, arith, append-nil}
use text.Mathlib.TextEquality.{eq_iff}
use bluepass.Storage.{
  Nvs, NvsKey, named, numbered, Fido2Config, config_bytes, write_and_commit,
  storage_get_fido2_config, storage_set_fido2_config, storage_fido2_has_pin,
  storage_clear_fido2_pin_hash, storage_fido2_reset_sign_counter, storage_fido2_inc_sign_counter,
  storage_set_fido2_master_key, storage_get_fido2_master_key,
}
use bluepass.Storage.Laws.{IsReliable, written}
use bluepass.Storage.Slots.{
  erase_and_commit, slot_delete, slot_get, read_zeroed, fido2_rk_size, storage_delete_fido2_rk,
  storage_get_fido2_rk,
}
use bluepass.Storage.Slots.Arrays.{erased}

module _ {S : Type 0} (nvs : Nvs S) (works : IsReliable nvs) where
  open works use {
    opens_readonly, opens_readwrite, sets_u32, get_blob-commit, get_blob-set, get_blob-set_ne,
    erases, get_blob-erase, get_blob-erase_ne, get_u32-set, get_u32-commit, get_u32-set_blob_ne,
    get_blob-set_u32_ne,
  }

  -- Two states of the flash that agree on a blob.
  abbrev Agree : S → S → NvsKey → Type 0
  Agree s t k = (n : ℕ) → nvs.get_blob s k n ≡ nvs.get_blob t k n

  config-Agree :
      (s t : S)
      → Agree s t (named "cfg")
      → storage_get_fido2_config nvs s ≡ storage_get_fido2_config nvs t
  unfolding storage_get_fido2_config
  config-Agree s t h = ground (arith, h 8, opens_readonly s, opens_readonly t)

  pin-Agree :
      (s t : S)
      → Agree s t (named "pinh")
      → storage_fido2_has_pin nvs s ≡ storage_fido2_has_pin nvs t
  unfolding storage_fido2_has_pin
  pin-Agree s t h = ground (arith, h 16, opens_readonly s, opens_readonly t)

  rk-Agree :
      (s t : S) (j : ℕ)
      → Agree s t (numbered "rk" j)
      → storage_get_fido2_rk nvs j s ≡ storage_get_fido2_rk nvs j t
  unfolding storage_get_fido2_rk slot_get read_zeroed
  rk-Agree s t j h = ground (arith, h fido2_rk_size, opens_readonly s, opens_readonly t)

  -- What each operation leaves of a key that is not its own.
  blob_written :
      (s : S) (k j : NvsKey) (b : List ℕ)
      → k ≢ j
      → Agree (write_and_commit nvs s (λ t. nvs.set_blob t k b)).1 s j
  blob_written s k j b ne n =
      rw (written nvs works s k b, get_blob-commit (nvs.set_blob s k b).1 j n)
        (get_blob-set_ne s k j b n ne)

  blob_erased : (s : S) (k j : NvsKey) → k ≢ j → Agree (erase_and_commit nvs s k).1 s j
  blob_erased s k j ne n =
      rw (erased nvs works s k, get_blob-commit (nvs.erase_key s k).1 j n)
        (get_blob-erase_ne s k j n ne)

  cleared : (s : S) → storage_clear_fido2_pin_hash nvs s ≡ erase_and_commit nvs s (named "pinh")
  unfolding storage_clear_fido2_pin_hash erase_and_commit
  cleared s = refl

  counter_set :
      (s : S) → storage_fido2_reset_sign_counter nvs s ≡ nvs.commit (nvs.set_u32 s (named "sc") 0).1
  unfolding storage_fido2_reset_sign_counter write_and_commit
  counter_set s = ground (arith, opens_readwrite s, sets_u32 s (named "sc") 0)

  blob-reset_counter :
      (s : S) (j : NvsKey) → named "sc" ≢ j → Agree (storage_fido2_reset_sign_counter nvs s).1 s j
  blob-reset_counter s j ne n =
      rw (counter_set s, get_blob-commit (nvs.set_u32 s (named "sc") 0).1 j n)
        (get_blob-set_u32_ne s (named "sc") j 0 n ne)

  blob-delete_rk :
      (s : S) (i : ℕ) (j : NvsKey)
      → numbered "rk" i ≢ j
      → Agree (storage_delete_fido2_rk nvs i s).1 s j
  unfolding storage_delete_fido2_rk slot_delete
  blob-delete_rk s i j ne n = ground (arith, blob_erased s (numbered "rk" i) j ne n)

  -- Deleting a resident key.
  pub config-delete_rk :
      (s : S) (i : ℕ)
      → storage_get_fido2_config nvs (storage_delete_fido2_rk nvs i s).1
        ≡ storage_get_fido2_config nvs s
  config-delete_rk s i = config-Agree _ s (blob-delete_rk s i (named "cfg") (ground arith))

  -- Storing the configuration.
  pub rk-set_config :
      (s : S) (c : Fido2Config) (j : ℕ)
      → storage_get_fido2_rk nvs j (storage_set_fido2_config nvs s c).1
        ≡ storage_get_fido2_rk nvs j s
  unfolding storage_set_fido2_config
  rk-set_config s c j =
      rk-Agree _ s j
        (blob_written s (named "cfg") (numbered "rk" j) (config_bytes c) (ground arith))

  -- Forgetting the PIN.
  pub rk-clear_pin :
      (s : S) (j : ℕ)
      → storage_get_fido2_rk nvs j (storage_clear_fido2_pin_hash nvs s).1
        ≡ storage_get_fido2_rk nvs j s
  rk-clear_pin s j =
      rw (cleared s)
        (rk-Agree _ s j (blob_erased s (named "pinh") (numbered "rk" j) (ground arith)))

  pub config-clear_pin :
      (s : S)
      → storage_get_fido2_config nvs (storage_clear_fido2_pin_hash nvs s).1
        ≡ storage_get_fido2_config nvs s
  config-clear_pin s = rw (cleared s) (
      config-Agree _ s
        (blob_erased s (named "pinh") (named "cfg") (ground (arith, eq_iff "pinh" "cfg"))))

  pub has_pin-clear_pin :
      (s : S) → storage_fido2_has_pin nvs (storage_clear_fido2_pin_hash nvs s).1 ≡ false
  unfolding storage_fido2_has_pin
  has_pin-clear_pin s =
      let t = (nvs.erase_key s (named "pinh")).1 in
      rw (cleared s, erased nvs works s (named "pinh"))
        (ground (
          arith,
          opens_readonly (nvs.commit t).1,
          get_blob-commit t (named "pinh") 16,
          get_blob-erase s (named "pinh") 16,
        ))

  -- Setting the counter back.
  pub rk-reset_counter :
      (s : S) (j : ℕ)
      → storage_get_fido2_rk nvs j (storage_fido2_reset_sign_counter nvs s).1
        ≡ storage_get_fido2_rk nvs j s
  rk-reset_counter s j = rk-Agree _ s j (blob-reset_counter s (numbered "rk" j) (ground arith))

  pub config-reset_counter :
      (s : S)
      → storage_get_fido2_config nvs (storage_fido2_reset_sign_counter nvs s).1
        ≡ storage_get_fido2_config nvs s
  config-reset_counter s =
      config-Agree _ s (blob-reset_counter s (named "cfg") (ground (arith, eq_iff "sc" "cfg")))

  pub has_pin-reset_counter :
      (s : S)
      → storage_fido2_has_pin nvs (storage_fido2_reset_sign_counter nvs s).1
        ≡ storage_fido2_has_pin nvs s
  has_pin-reset_counter s =
      pin-Agree _ s (blob-reset_counter s (named "pinh") (ground (arith, eq_iff "sc" "pinh")))

  -- Storing the master key.
  module _ (s : S) (key : List ℕ) where
    abbrev keyed : S
    keyed = (storage_set_fido2_master_key nvs s key).1

    blob-set_master : (j : NvsKey) → named "mkey" ≢ j → Agree keyed s j
    unfolding storage_set_fido2_master_key
    blob-set_master j ne = blob_written s (named "mkey") j key ne

    pub rk-set_master : (j : ℕ) → storage_get_fido2_rk nvs j keyed ≡ storage_get_fido2_rk nvs j s
    rk-set_master j = rk-Agree keyed s j (blob-set_master (numbered "rk" j) (ground arith))

    pub config-set_master : storage_get_fido2_config nvs keyed ≡ storage_get_fido2_config nvs s
    config-set_master =
        config-Agree keyed s (blob-set_master (named "cfg") (ground (arith, eq_iff "mkey" "cfg")))

    pub has_pin-set_master : storage_fido2_has_pin nvs keyed ≡ storage_fido2_has_pin nvs s
    has_pin-set_master =
        pin-Agree keyed s (blob-set_master (named "pinh") (ground (arith, eq_iff "mkey" "pinh")))

    pub master-set_master :
        (stack : List ℕ)
        → length key ≡ 32
        → length stack ≡ 32
        → storage_get_fido2_master_key nvs keyed stack ≡ (0, key)
    unfolding storage_set_fido2_master_key storage_get_fido2_master_key
    master-set_master stack size room =
        let t = (nvs.set_blob s (named "mkey") key).1 in
        let at_commit : storage_get_fido2_master_key nvs (nvs.commit t).1 stack ≡ (0, key) =
          ground (
            arith,
            opens_readonly (nvs.commit t).1,
            get_blob-commit t (named "mkey") 32,
            get_blob-set s (named "mkey") key 32 (omega arith),
            drop_all (length key) stack (omega arith),
            append-nil key,
          ) in
        ap (λ r. storage_get_fido2_master_key nvs (r.1) stack)
          (written nvs works s (named "mkey") key)
        ∙ at_commit

    -- The next signature behind a reset of the counter and a new master key is the first.
    pub counter-set_master :
        (storage_fido2_inc_sign_counter nvs
          (storage_set_fido2_master_key nvs (storage_fido2_reset_sign_counter nvs s).1 key).1).0
        ≡ 1
    unfolding storage_set_fido2_master_key storage_fido2_inc_sign_counter
    counter-set_master =
        let u = (nvs.set_u32 s (named "sc") 0).1 in
        let t = (nvs.set_blob (nvs.commit u).1 (named "mkey") key).1 in
        rw (counter_set s) (
          rw (written nvs works (nvs.commit u).1 (named "mkey") key) (
            ground (
              arith,
              opens_readwrite (nvs.commit t).1,
              get_u32-commit t (named "sc"),
              get_u32-set_blob_ne (nvs.commit u).1 (named "mkey") (named "sc") key
                  (ground (arith, eq_iff "mkey" "sc")),
              get_u32-commit u (named "sc"),
              get_u32-set s (named "sc") 0 (omega arith),
            )))
