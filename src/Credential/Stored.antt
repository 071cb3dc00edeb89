-- ===== src/Credential/Stored.antt =====
-- A resident key that a registration stores is the one that an assertion finds.
use bluepass.Common.{
  ℕ, zero, suc, ◌+◌, ◌≤◌, ◌<◌, ◌≡◌, refl, ◌∙◌, Bool, true, false, Option, none, some, List, ◌==◌,
  if◌then◌else◌, bytes_eq, bytes_eq_iff, arith, Bool-cases, inl, inr, length,
}
use bluepass.Storage.{Nvs}
use bluepass.Storage.Laws.{IsReliable}
use bluepass.Storage.Slots.{fido2_rk_max, storage_set_fido2_rk}
use bluepass.Storage.Slots.Arrays.{fido2_rk_array}
use bluepass.Credential.{
  Sealing, CredPlain, Fido2Rk, rk_bytes, cred_encrypt, cred_decrypt, occupied, same_account,
  find_slot, find_resident,
}
use bluepass.Credential.RoundTrip.{
  IsSealing, IsPlain, cred_decrypt-cred_encrypt, IsResident, bytes_rk-rk_bytes, length-rk_bytes,
}

abbrev Below : ℕ → Option ℕ → Type 0
Below n none = Unit {0}
Below n (some slot) = slot < n

module _ {S : Type 0} (nvs : Nvs S) (flash : S) (new : Fido2Rk) where
  -- The slot that is chosen is one of those that were looked at.
  find_slot-Below :
      (rounds i : ℕ) (free : Option ℕ)
      → Below (i + rounds) free
      → Below (i + rounds) (find_slot nvs flash new rounds i free)
  unfolding find_slot
  find_slot-Below zero i free h = h
  find_slot-Below (suc rounds) i free h =
      by_slot (occupied nvs flash i) free h (find_slot-Below rounds (i + 1))
    where
      Next : Type 0
      Next =
          (free' : Option ℕ)
          → Below (i + 1 + rounds) free'
          → Below (i + 1 + rounds) (find_slot nvs flash new rounds (i + 1) free')

      widen : (o : Option ℕ) → Below (i + 1 + rounds) o → Below (i + suc rounds) o
      widen none b = tt
      widen (some s) b = omega arith

      narrow : (o : Option ℕ) → Below (i + suc rounds) o → Below (i + 1 + rounds) o
      narrow none b = tt
      narrow (some s) b = omega arith

      by_account :
          (b : Bool) (o : Option ℕ)
          → Below (i + suc rounds) o
          → Next
          → Below
              (i + suc rounds)
              (elim b [ true ↦ some i | false ↦ find_slot nvs flash new rounds (i + 1) o ])
      by_account true o b ih = omega arith
      by_account false o b ih = widen _ (ih o (narrow o b))

      first_free :
          (o : Option ℕ)
          → Below (i + suc rounds) o
          → Below (i + 1 + rounds) (elim o [ none ↦ some i | some s ↦ some s ])
      first_free none b = omega arith
      first_free (some s) b = omega arith

      by_slot :
          (r : Option Fido2Rk) (o : Option ℕ)
          → Below (i + suc rounds) o
          → Next
          → Below (i + suc rounds) (elim r [
            | none ↦
                find_slot nvs flash new rounds (i + 1) (elim o [ none ↦ some i | some s ↦ some s ])
            | some old ↦ elim (same_account nvs flash old new) [
              | true ↦ some i
              | false ↦ find_slot nvs flash new rounds (i + 1) o
            ]
          ])
      by_slot none o b ih = widen _ (ih _ (first_free o b))
      by_slot (some old) o b ih = by_account (same_account nvs flash old new) o b ih

  pub find_slot_bound :
      (slot : ℕ) → find_slot nvs flash new fido2_rk_max 0 none ≡ some slot → slot < fido2_rk_max
  find_slot_bound slot e = rw e at (find_slot-Below fido2_rk_max 0 none tt)

module _ {S : Type 0} (nvs : Nvs S) (works : IsReliable nvs) (s : S) (new : Fido2Rk)
    (v : IsResident new) where
  -- What the slots hold behind the write.
  pub occupied-set :
      (slot j : ℕ)
      → j < fido2_rk_max
      → occupied nvs (storage_set_fido2_rk nvs slot (rk_bytes new) s).1 j
        ≡ (if slot == j then some new else occupied nvs s j)
  unfolding occupied
  occupied-set slot j small =
      let array =
        (fido2_rk_array nvs works s slot j (rk_bytes new) (length-rk_bytes new v) small).0 in
      elim (Bool-cases (slot == j)) [
        | inl same ↦ ground (arith, array, bytes_rk-rk_bytes new v, v.in_use)
        | inr other ↦ ground (arith, array)
      ]

  module _ (k : Sealing) (master_key : List ℕ) (p : CredPlain) (slot : ℕ) where
    abbrev after : S
    after = (storage_set_fido2_rk nvs slot (rk_bytes new) s).1

    -- No resident key in a slot before the new one is of its relying party.
    abbrev pub IsFirst : Type 0
    IsFirst =
        (j : ℕ) (r : Fido2Rk)
        → j < slot
        → occupied nvs s j ≡ some r
        → bytes_eq r.rp_id_hash new.rp_id_hash ≡ false

    abbrev found_from : ℕ → ℕ → Option (CredPlain × List ℕ)
    found_from rounds i = find_resident nvs after k master_key new.rp_id_hash rounds i

    -- A slot before the new one is passed over.
    pass :
        (rounds i : ℕ)
        → IsFirst
        → i < slot
        → i < fido2_rk_max
        → found_from (suc rounds) i ≡ found_from rounds (i + 1)
    unfolding find_resident
    pass rounds i first before small = by_slot (occupied nvs s i) refl
      where
        same : occupied nvs after i ≡ occupied nvs s i
        same = ground (arith, occupied-set slot i small)

        by_slot :
            (o : Option Fido2Rk)
            → occupied nvs s i ≡ o
            → found_from (suc rounds) i ≡ found_from rounds (i + 1)
        by_slot none e = ground (arith, same)
        by_slot (some r) e = ground (arith, same, first i r before e)

    found_at :
        (rounds i : ℕ)
        → IsFirst
        → cred_decrypt k master_key new.cred_id ≡ some p
        → p.rp_id_hash ≡ new.rp_id_hash
        → i ≤ slot
        → slot < i + rounds
        → i + rounds ≤ fido2_rk_max
        → found_from rounds i ≡ some (p, new.cred_id)
    unfolding find_resident
    found_at zero i first opened own low high room = absurd (omega arith)
    found_at (suc rounds) i first opened own low high room = elim (Bool-cases (slot == i)) [
      | inl here ↦ ground (
        arith,
        occupied-set slot i (omega arith),
        opened,
        (bytes_eq_iff new.rp_id_hash new.rp_id_hash).1 refl,
        (bytes_eq_iff p.rp_id_hash new.rp_id_hash).1 own,
      )
      | inr further ↦
          let before : i < slot = ground arith in
          pass rounds i first before (omega arith)
          ∙ found_at rounds (i + 1) first opened own (omega arith) (omega arith) (omega arith)
    ]

  -- On a flash that works and with a GCM that decrypts what it encrypted: a new credential that is
  -- stored as a resident key in the slot that `find_slot` names is what the search for its relying
  -- party finds, opened to the key and the flags that were sealed, unless an earlier slot has a
  -- resident key of the same party.
  pub find_resident-find_slot :
      (k : Sealing) (master_key nonce : List ℕ) (p : CredPlain) (slot : ℕ)
      → IsSealing k
      → IsPlain p
      → length nonce ≡ 12
      → p.rp_id_hash ≡ new.rp_id_hash
      → cred_encrypt k master_key p nonce ≡ some new.cred_id
      → find_slot nvs s new fido2_rk_max 0 none ≡ some slot
      → IsFirst k master_key p slot
      → find_resident nvs
          (storage_set_fido2_rk nvs slot (rk_bytes new) s).1
          k
          master_key
          new.rp_id_hash
          fido2_rk_max
          0
        ≡ some (p, new.cred_id)
  find_resident-find_slot k master_key nonce p slot sound plain size own made chosen first =
      found_at k master_key p slot fido2_rk_max 0 first
        (cred_decrypt-cred_encrypt k master_key nonce new.cred_id p sound plain size made).0 own
        (omega arith) (find_slot_bound nvs s new slot chosen) (omega arith)
