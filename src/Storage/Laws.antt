-- ===== src/Storage/Laws.antt =====
-- What the FIDO2 code relies on of a flash that works: what is written is read back, and nothing
-- else changes.
use bluepass.Common.{◌<◌, ◌^◌, [], ℕ, ◌≤◌, ◌≡◌, ◌≢◌, ◌⊎◌, List, length, arith}
use bluepass.Storage.{
  Nvs, esp_err_nvs_not_found, NvsKey, named, Fido2Config, config_bytes, write_and_commit,
  storage_get_fido2_config, storage_set_fido2_config,
}

-- Every namespace can be opened and every write succeeds, for values that fit their readers.
pub record IsReliable {S : Type 0} (nvs : Nvs S) : Type 0 where
  pub opens_readonly : (s : S) → nvs.open_readonly s ≡ 0
  pub opens_readwrite : (s : S) → nvs.open_readwrite s ≡ 0
  pub sets_blob : (s : S) (k : NvsKey) (b : List ℕ) → (nvs.set_blob s k b).0 ≡ 0
  pub sets_u32 : (s : S) (k : NvsKey) (v : ℕ) → (nvs.set_u32 s k v).0 ≡ 0
  pub sets_u8 : (s : S) (k : NvsKey) (v : ℕ) → (nvs.set_u8 s k v).0 ≡ 0
  pub get_u8-set :
      (s : S) (k : NvsKey) (v : ℕ) → v < 256 → nvs.get_u8 (nvs.set_u8 s k v).1 k ≡ (0, v)
  pub get_u8-commit : (s : S) (k : NvsKey) → nvs.get_u8 (nvs.commit s).1 k ≡ nvs.get_u8 s k
  pub get_u32-set :
      (s : S) (k : NvsKey) (v : ℕ) → v < 2 ^ 32 → nvs.get_u32 (nvs.set_u32 s k v).1 k ≡ (0, v)
  pub get_u32-set_blob_ne :
      (s : S) (k j : NvsKey) (b : List ℕ)
      → k ≢ j
      → nvs.get_u32 (nvs.set_blob s k b).1 j ≡ nvs.get_u32 s j
  pub get_u32-commit : (s : S) (k : NvsKey) → nvs.get_u32 (nvs.commit s).1 k ≡ nvs.get_u32 s k
  pub get_blob-set_u32_ne :
      (s : S) (k j : NvsKey) (v n : ℕ)
      → k ≢ j
      → nvs.get_blob (nvs.set_u32 s k v).1 j n ≡ nvs.get_blob s j n
  pub commits : (s : S) → (nvs.commit s).0 ≡ 0
  pub get_blob-commit :
      (s : S) (k : NvsKey) (n : ℕ) → nvs.get_blob (nvs.commit s).1 k n ≡ nvs.get_blob s k n
  pub get_blob-set :
      (s : S) (k : NvsKey) (b : List ℕ) (n : ℕ)
      → length b ≤ n
      → nvs.get_blob (nvs.set_blob s k b).1 k n ≡ (0, b)
  pub get_blob-set_ne :
      (s : S) (k j : NvsKey) (b : List ℕ) (n : ℕ)
      → k ≢ j
      → nvs.get_blob (nvs.set_blob s k b).1 j n ≡ nvs.get_blob s j n
  -- Erasing a key that is not there is an error that `nvs.h` names.
  pub erases :
      (s : S) (k : NvsKey)
      → ((nvs.erase_key s k).0 ≡ 0) ⊎ ((nvs.erase_key s k).0 ≡ esp_err_nvs_not_found)
  pub get_blob-erase :
      (s : S) (k : NvsKey) (n : ℕ)
      → nvs.get_blob (nvs.erase_key s k).1 k n ≡ (esp_err_nvs_not_found, [])
  pub get_blob-erase_ne :
      (s : S) (k j : NvsKey) (n : ℕ)
      → k ≢ j
      → nvs.get_blob (nvs.erase_key s k).1 j n ≡ nvs.get_blob s j n

module _ {S : Type 0} (nvs : Nvs S) (works : IsReliable nvs) where
  open works use {
    opens_readonly, opens_readwrite, sets_blob, commits, get_blob-commit, sets_u8, get_blob-set,
    get_blob-set_ne,
  }

  pub written :
      (s : S) (k : NvsKey) (b : List ℕ)
      → write_and_commit nvs s (λ t. nvs.set_blob t k b) ≡ nvs.commit (nvs.set_blob s k b).1
  unfolding write_and_commit
  written s k b = ground (arith, opens_readwrite s, sets_blob s k b)

  pub written_u8 :
      (s : S) (k : NvsKey) (v : ℕ)
      → write_and_commit nvs s (λ t. nvs.set_u8 t k v) ≡ nvs.commit (nvs.set_u8 s k v).1
  unfolding write_and_commit
  written_u8 s k v = ground (arith, opens_readwrite s, sets_u8 s k v)

  pub get_config-set :
      (s : S) (c : Fido2Config)
      → storage_get_fido2_config nvs (storage_set_fido2_config nvs s c).1 ≡ (0, c)
  unfolding storage_get_fido2_config storage_set_fido2_config
  get_config-set s c = ground (
    arith,
    written s (named "cfg") (config_bytes c),
    opens_readonly (nvs.commit (nvs.set_blob s (named "cfg") (config_bytes c)).1).1,
    get_blob-commit (nvs.set_blob s (named "cfg") (config_bytes c)).1 (named "cfg") 8,
    get_blob-set s (named "cfg") (config_bytes c) 8 (omega arith),
  )
