-- ===== src/Storage/Slots/Arrays.antt =====
-- The slots of components/storage/storage.c on a flash that works are arrays: what a write or a
-- deletion does to each slot of the same kind, and to those of another.
use bluepass.Common.{
  ℕ, ◌<◌, ◌≡◌, ◌≢◌, refl, ap, sym, some, List, ◌==◌, if◌then◌else◌, length, replicate, arith,
  take-append,
}
use Prim.Native.String.{String}
use text.Mathlib.TextEquality.{eq_iff}
use bluepass.Storage.{Nvs, NvsKey, numbered, write_and_commit, esp_err_nvs_not_found}
use bluepass.Storage.Laws.{IsReliable, written}
use bluepass.Storage.Slots.{
  read_zeroed, erase_and_commit, slot_get, slot_set, slot_delete, mqtt_slot_get, mqtt_slot_set,
  mqtt_slot_del, storage_get_mqtt_out_slot, storage_get_mqtt_in_slot, storage_set_mqtt_out_slot,
  storage_delete_mqtt_out_slot, webhook_slots_max, webhook_slot_size, mqtt_slots_max,
  mqtt_slot_size, fido2_rk_max, fido2_rk_size, storage_get_fido2_rk, storage_set_fido2_rk,
  storage_delete_fido2_rk, storage_get_webhook_slot, storage_set_webhook_slot,
  storage_delete_webhook_slot,
}

module _ {S : Type 0} (nvs : Nvs S) (works : IsReliable nvs) where
  open works use {
    opens_readonly, opens_readwrite, sets_blob, commits, get_blob-commit, get_blob-set,
    get_blob-set_ne, erases, get_blob-erase, get_blob-erase_ne,
  }

  pub read_set :
      (s : S) (k : NvsKey) (b : List ℕ) (closed : ℕ)
      → read_zeroed nvs (write_and_commit nvs s (λ t. nvs.set_blob t k b)).1 k (length b) closed
        ≡ (0, some b)
  unfolding read_zeroed
  read_set s k b closed =
      let t = (nvs.set_blob s k b).1 in
      rw
        (
          written nvs works s k b,
          opens_readonly (nvs.commit t).1,
          get_blob-commit t k (length b),
          get_blob-set s k b (length b) (omega arith),
        )
        (ap (λ r. (0, some r)) (take-append b (replicate (length b) 0)))

  pub read_set_ne :
      (s : S) (k j : NvsKey) (b : List ℕ) (n closed : ℕ)
      → k ≢ j
      → read_zeroed nvs (write_and_commit nvs s (λ t. nvs.set_blob t k b)).1 j n closed
        ≡ read_zeroed nvs s j n closed
  unfolding read_zeroed
  read_set_ne s k j b n closed ne =
      let t = (nvs.set_blob s k b).1 in
      rw
        (
          written nvs works s k b,
          opens_readonly (nvs.commit t).1,
          opens_readonly s,
          get_blob-commit t j n,
          get_blob-set_ne s k j b n ne,
        )
        refl

  pub erased : (s : S) (k : NvsKey) → erase_and_commit nvs s k ≡ nvs.commit (nvs.erase_key s k).1
  unfolding erase_and_commit
  erased s k = ground (arith, opens_readwrite s, erases s k)

  pub read_erase :
      (s : S) (k : NvsKey) (n closed : ℕ)
      → read_zeroed nvs (erase_and_commit nvs s k).1 k n closed
        ≡ (esp_err_nvs_not_found, some (replicate n 0))
  unfolding read_zeroed
  read_erase s k n closed =
      let t = (nvs.erase_key s k).1 in
      rw (erased s k, opens_readonly (nvs.commit t).1, get_blob-commit t k n, get_blob-erase s k n)
        refl

  pub read_erase_ne :
      (s : S) (k j : NvsKey) (n closed : ℕ)
      → k ≢ j
      → read_zeroed nvs (erase_and_commit nvs s k).1 j n closed ≡ read_zeroed nvs s j n closed
  unfolding read_zeroed
  read_erase_ne s k j n closed ne =
      let t = (nvs.erase_key s k).1 in
      rw
        (
          erased s k,
          opens_readonly (nvs.commit t).1,
          opens_readonly s,
          get_blob-commit t j n,
          get_blob-erase_ne s k j n ne,
        )
        refl

  slot_get-slot_set :
      (limit : ℕ) (prefix : String) (closed i j : ℕ) (b : List ℕ) (s : S)
      → j < limit
      → slot_get nvs limit prefix (length b) closed j (slot_set nvs limit prefix i b s).1
        ≡ (if i == j then (0, some b) else slot_get nvs limit prefix (length b) closed j s)
  unfolding slot_get slot_set
  slot_get-slot_set limit prefix closed i j b s small = ground (
    arith,
    read_set s (numbered prefix i) b closed,
    read_set_ne s (numbered prefix i) (numbered prefix j) b (length b) closed,
  )

  slot_get-slot_delete :
      (limit : ℕ) (prefix : String) (size closed i j : ℕ) (s : S)
      → j < limit
      → slot_get nvs limit prefix size closed j (slot_delete nvs limit prefix i s).1 ≡ (
          if i == j
          then (esp_err_nvs_not_found, some (replicate size 0))
          else slot_get nvs limit prefix size closed j s)
  unfolding slot_get slot_delete
  slot_get-slot_delete limit prefix size closed i j s small = ground (
    arith,
    read_erase s (numbered prefix i) size closed,
    read_erase_ne s (numbered prefix i) (numbered prefix j) size closed,
  )

  apart : (i j : ℕ) → numbered "o" i ≢ numbered "i" j
  apart i j = ground (arith, eq_iff "o" "i")

  -- The resident keys are an array of eight: a read gives what was written last to that slot, or
  -- nothing but zeros after a deletion, and the other slots keep what they had.
  pub fido2_rk_array :
      (s : S) (i j : ℕ) (rk : List ℕ)
      → length rk ≡ fido2_rk_size
      → j < fido2_rk_max
      → (storage_get_fido2_rk nvs j (storage_set_fido2_rk nvs i rk s).1
          ≡ (if i == j then (0, some rk) else storage_get_fido2_rk nvs j s))
        × (storage_get_fido2_rk nvs j (storage_delete_fido2_rk nvs i s).1 ≡ (
            if i == j
            then (esp_err_nvs_not_found, some (replicate fido2_rk_size 0))
            else storage_get_fido2_rk nvs j s))
  unfolding storage_get_fido2_rk storage_set_fido2_rk storage_delete_fido2_rk
  fido2_rk_array s i j rk size small = (
    rw (sym size) (slot_get-slot_set fido2_rk_max "rk" esp_err_nvs_not_found i j rk s small),
    slot_get-slot_delete fido2_rk_max "rk" fido2_rk_size esp_err_nvs_not_found i j s small,
  )

  -- The same of the four webhook slots.
  webhook_slot_array :
      (s : S) (i j : ℕ) (slot : List ℕ)
      → length slot ≡ webhook_slot_size
      → j < webhook_slots_max
      → (storage_get_webhook_slot nvs j (storage_set_webhook_slot nvs i slot s).1
          ≡ (if i == j then (0, some slot) else storage_get_webhook_slot nvs j s))
        × (storage_get_webhook_slot nvs j (storage_delete_webhook_slot nvs i s).1 ≡ (
            if i == j
            then (esp_err_nvs_not_found, some (replicate webhook_slot_size 0))
            else storage_get_webhook_slot nvs j s))
  unfolding storage_get_webhook_slot storage_set_webhook_slot storage_delete_webhook_slot
  webhook_slot_array s i j slot size small = (
    rw (sym size) (slot_get-slot_set webhook_slots_max "w" esp_err_nvs_not_found i j slot s small),
    slot_get-slot_delete webhook_slots_max "w" webhook_slot_size esp_err_nvs_not_found i j s small,
  )

  -- The outgoing and the incoming MQTT slots share one namespace and are two arrays all the same:
  -- what happens to an outgoing slot is seen there alone.
  mqtt_slot_arrays :
      (s : S) (i j : ℕ) (slot : List ℕ)
      → length slot ≡ mqtt_slot_size
      → j < mqtt_slots_max
      → (storage_get_mqtt_out_slot nvs j (storage_set_mqtt_out_slot nvs i slot s).1
          ≡ (if i == j then (0, some slot) else storage_get_mqtt_out_slot nvs j s))
        × (storage_get_mqtt_in_slot nvs j (storage_set_mqtt_out_slot nvs i slot s).1
            ≡ storage_get_mqtt_in_slot nvs j s)
        × (storage_get_mqtt_out_slot nvs j (storage_delete_mqtt_out_slot nvs i s).1 ≡ (
            if i == j
            then (esp_err_nvs_not_found, some (replicate mqtt_slot_size 0))
            else storage_get_mqtt_out_slot nvs j s))
        × (storage_get_mqtt_in_slot nvs j (storage_delete_mqtt_out_slot nvs i s).1
            ≡ storage_get_mqtt_in_slot nvs j s)
  unfolding storage_get_mqtt_out_slot storage_set_mqtt_out_slot storage_delete_mqtt_out_slot
      storage_get_mqtt_in_slot mqtt_slot_get mqtt_slot_set mqtt_slot_del slot_get slot_set
      slot_delete
  mqtt_slot_arrays s i j slot size small = (
    rw (sym size) (slot_get-slot_set mqtt_slots_max "o" esp_err_nvs_not_found i j slot s small),
    ground (
      arith,
      read_set_ne s (numbered "o" i) (numbered "i" j) slot mqtt_slot_size esp_err_nvs_not_found
          (apart i j),
    ),
    slot_get-slot_delete mqtt_slots_max "o" mqtt_slot_size esp_err_nvs_not_found i j s small,
    ground (
      arith,
      read_erase_ne s (numbered "o" i) (numbered "i" j) mqtt_slot_size esp_err_nvs_not_found
          (apart i j),
    ),
  )
