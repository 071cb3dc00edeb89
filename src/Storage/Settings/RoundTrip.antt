-- ===== src/Storage/Settings/RoundTrip.antt =====
-- Reads of the settings of components/storage/storage.c behind writes and deletions.
use bluepass.Common.{
  ℕ, ◌%◌, ◌≤◌, ◌≡◌, refl, ap, Bool, true, false, List, [], ◌∷◌, ◌++◌, if◌then◌else◌, length, drop,
  arith,
}
use bluepass.Storage.{Nvs, named}
use bluepass.Storage.Laws.{IsReliable, written, written_u8}
use bluepass.Storage.Slots.Arrays.{erased}
use bluepass.Storage.Settings.{
  read_over, write_setting, wifi_creds_size, conn_mode_usb_bt, storage_get_wifi_creds,
  storage_set_wifi_creds, storage_clear_wifi_creds, storage_has_wifi_creds,
  storage_get_webhook_enabled, storage_set_webhook_enabled, storage_get_connection_mode,
  storage_set_connection_mode,
}

drop_all : (xs ys : List ℕ) → length xs ≡ length ys → xs ++ drop (length xs) ys ≡ xs
drop_all [] [] h = refl
drop_all [] (y ∷ ys) h = absurd (omega (arith, h))
drop_all (x ∷ xs) [] h = absurd (omega (arith, h))
drop_all (x ∷ xs) (y ∷ ys) h = ap (◌∷◌ x) (drop_all xs ys (omega (arith, h)))

-- Whatever the flash holds, `storage_get_connection_mode` answers ESP_OK with one of the three modes.
connection_mode_valid :
    {S : Type 0} (nvs : Nvs S) (s : S)
    → ((storage_get_connection_mode nvs s).0 ≡ 0)
      × ((storage_get_connection_mode nvs s).1 ≤ conn_mode_usb_bt)
unfolding storage_get_connection_mode
connection_mode_valid nvs s = ground arith

module _ {S : Type 0} (nvs : Nvs S) (works : IsReliable nvs) where
  open works use {
    opens_readonly, opens_readwrite, get_blob-commit, get_blob-set, get_blob-erase, sets_u8,
    get_u8-set, get_u8-commit,
  }

  -- On a flash that works, stored credentials are there and are read back whole, and credentials
  -- that were cleared are not there.
  wifi_creds_round_trip :
      (s : S) (creds old tmp : List ℕ)
      → length creds ≡ wifi_creds_size
      → length old ≡ wifi_creds_size
      → let stored = (storage_set_wifi_creds nvs s creds).1 in
        (storage_get_wifi_creds nvs stored old ≡ (0, creds))
        × (storage_has_wifi_creds nvs stored tmp ≡ true)
        × (storage_has_wifi_creds nvs (storage_clear_wifi_creds nvs stored).1 tmp ≡ false)
  unfolding storage_set_wifi_creds storage_get_wifi_creds storage_has_wifi_creds
      storage_clear_wifi_creds read_over write_setting
  wifi_creds_round_trip s creds old tmp size same =
      let k = named "creds" in
      let t = (nvs.set_blob s k creds).1 in
      let c = (nvs.commit t).1 in
      let e = (nvs.erase_key c k).1 in
      rw (written nvs works s k creds, erased nvs works c k)
        (ground (
          arith,
          opens_readonly c,
          opens_readonly (nvs.commit e).1,
          get_blob-commit t k 98,
          get_blob-commit e k 98,
          get_blob-set s k creds 98 (omega arith),
          get_blob-erase c k 98,
          drop_all creds old (omega arith),
        ))

  -- The same of the two settings of one byte.
  switches_round_trip :
      (s : S) (enabled : Bool) (mode : ℕ)
      → mode ≤ conn_mode_usb_bt
      → (storage_get_webhook_enabled nvs (storage_set_webhook_enabled nvs s enabled).1
          ≡ (0, enabled))
        × (storage_get_connection_mode nvs (storage_set_connection_mode nvs s mode).1 ≡ (0, mode))
  unfolding storage_get_webhook_enabled storage_set_webhook_enabled storage_get_connection_mode
      storage_set_connection_mode
  switches_round_trip s enabled mode small =
      let v : ℕ = if enabled then 1 else 0 in
      let t = (nvs.set_u8 s (named "en") v).1 in
      let m = (nvs.set_u8 s (named "mode") (mode % 256)).1 in
      rw (written_u8 nvs works s (named "en") v, written_u8 nvs works s (named "mode") (mode % 256))
        (ground (
          arith,
          opens_readonly (nvs.commit t).1,
          opens_readonly (nvs.commit m).1,
          get_u8-commit t (named "en"),
          get_u8-commit m (named "mode"),
          get_u8-set s (named "en") v,
          get_u8-set s (named "mode") (mode % 256) (omega arith),
        ))
