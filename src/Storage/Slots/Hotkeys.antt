-- ===== src/Storage/Slots/Hotkeys.antt =====
-- Deleting a hotkey slot, `storage_delete_hotkey_slot` of components/storage/storage.c.
use bluepass.Common.{
  ℕ, ◌≤◌, ◌<◌, ◌≡◌, ◌≢◌, refl, ◌∙◌, Bool, true, false, some, List, ◌++◌, ◌==◌, if◌then◌else◌,
  length, drop, replicate, arith,
}
use bluepass.Storage.{Nvs, NvsKey, numbered, esp_err_nvs_not_found}
use bluepass.Storage.Laws.{IsReliable}
use bluepass.Storage.Slots.{
  esp_err_invalid_arg, read_zeroed, erase_and_commit, slot_get, scrub, scrubbed,
  storage_get_hotkey_slot, storage_delete_hotkey_slot, hotkey_slot_size, hotkey_slots_max,
}
use bluepass.Storage.Slots.Arrays.{read_erase, read_erase_ne}

module _ {S : Type 0} (nvs : Nvs S) (works : IsReliable nvs) where
  open works use {
    opens_readonly, opens_readwrite, sets_blob, commits, get_blob-commit, get_blob-set,
    get_blob-set_ne, erases, get_blob-erase, get_blob-erase_ne,
  }

  read_scrub_ne :
      (s : S) (k j : NvsKey) (slot : List ℕ) (byte n closed : ℕ)
      → k ≢ j
      → read_zeroed nvs (scrub nvs s k slot byte) j n closed ≡ read_zeroed nvs s j n closed
  unfolding read_zeroed scrub
  read_scrub_ne s k j slot byte n closed ne =
      let b = scrubbed nvs slot byte in
      let t = (nvs.set_blob s k b).1 in
      rw
        (
          opens_readonly (nvs.commit t).1,
          opens_readonly s,
          get_blob-commit t j n,
          get_blob-set_ne s k j b n ne,
        )
        refl

  -- The state behind the two passes.
  cleaned : (s : S) (k : NvsKey) (slot : List ℕ) → Bool → S
  cleaned s k slot readable = if readable then scrub nvs (scrub nvs s k slot 0) k slot 0xff else s

  read_cleaned_ne :
      (s : S) (k j : NvsKey) (slot : List ℕ) (readable : Bool) (n closed : ℕ)
      → k ≢ j
      → read_zeroed nvs (cleaned s k slot readable) j n closed ≡ read_zeroed nvs s j n closed
  unfolding cleaned
  read_cleaned_ne s k j slot false n closed ne = refl
  read_cleaned_ne s k j slot true n closed ne =
      read_scrub_ne (scrub nvs s k slot 0) k j slot 0xff n closed ne
      ∙ read_scrub_ne s k j slot 0 n closed ne

  delete_hotkey_slot_cleaned :
      (stack : List ℕ) (s : S) (i : ℕ)
      → i < hotkey_slots_max
      → let (err, b) = nvs.get_blob s (numbered "s" i) hotkey_slot_size in
        storage_delete_hotkey_slot nvs stack i s
        ≡ erase_and_commit nvs
            (cleaned s (numbered "s" i) (b ++ drop (length b) stack) (err == 0))
            (numbered "s" i)
  unfolding storage_delete_hotkey_slot cleaned
  delete_hotkey_slot_cleaned stack s i small = ground (arith, opens_readwrite s)

  delete_hotkey_slot_outside :
      (stack : List ℕ) (s : S) (i : ℕ)
      → hotkey_slots_max ≤ i
      → storage_delete_hotkey_slot nvs stack i s ≡ (esp_err_invalid_arg, s)
  unfolding storage_delete_hotkey_slot
  delete_hotkey_slot_outside stack s i large = ground arith

  -- Deleting a hotkey slot, with the two passes over its payload before, leaves nothing of it to
  -- read, and the other slots as they were.
  hotkey_slot_delete :
      (stack : List ℕ) (s : S) (i j : ℕ)
      → j < hotkey_slots_max
      → storage_get_hotkey_slot nvs j (storage_delete_hotkey_slot nvs stack i s).1 ≡ (
          if i == j
          then (esp_err_nvs_not_found, some (replicate hotkey_slot_size 0))
          else storage_get_hotkey_slot nvs j s)
  unfolding storage_get_hotkey_slot slot_get
  hotkey_slot_delete stack s i j small =
      let (err, b) = nvs.get_blob s (numbered "s" i) hotkey_slot_size in
      let t = cleaned s (numbered "s" i) (b ++ drop (length b) stack) (err == 0) in
      let d = (storage_delete_hotkey_slot nvs stack i s).1 in
      ground (
        arith,
        opens_readonly s,
        opens_readonly d,
        delete_hotkey_slot_cleaned stack s i,
        delete_hotkey_slot_outside stack s i,
        read_erase nvs works t (numbered "s" i) hotkey_slot_size 0,
        read_erase_ne nvs works t (numbered "s" i) (numbered "s" j) hotkey_slot_size 0,
        read_cleaned_ne s (numbered "s" i) (numbered "s" j) (b ++ drop (length b) stack) (err == 0)
            hotkey_slot_size 0,
      )
