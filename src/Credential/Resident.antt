-- ===== src/Credential/Resident.antt =====
-- The resident keys that the search of components/fido2/fido2.c finds.
use bluepass.Common.{
  ℕ, zero, suc, ◌+◌, ◌≡◌, refl, Bool, true, false, ◌&&◌, Option, none, some, List, if◌then◌else◌,
  bytes_eq, arith,
}
use bluepass.Storage.{Nvs}
use bluepass.Credential.{Sealing, CredPlain, Fido2Rk, cred_decrypt, occupied, find_resident}

-- The credential was sealed with the master key for this relying party.
abbrev pub IsOwn : Sealing → List ℕ → List ℕ → CredPlain × List ℕ → Type 0
IsOwn k master_key rp_id_hash (plain, cred_id) =
    (cred_decrypt k master_key cred_id ≡ some plain) × (bytes_eq plain.rp_id_hash rp_id_hash ≡ true)

abbrev pub OwnIfFound : Sealing → List ℕ → List ℕ → Option (CredPlain × List ℕ) → Type 0
OwnIfFound k master_key rp_id_hash none = Unit {0}
OwnIfFound k master_key rp_id_hash (some hit) = IsOwn k master_key rp_id_hash hit

module _ (k : Sealing) (master_key rp_id_hash : List ℕ) where
  -- A candidate that passes the comparisons, or what is found otherwise.
  pub checked-IsOwn :
      (test : Bool) (cred_id : List ℕ) (p : CredPlain) (rest : Option (CredPlain × List ℕ))
      → ((test ≡ true) → IsOwn k master_key rp_id_hash (p, cred_id))
      → OwnIfFound k master_key rp_id_hash rest
      → OwnIfFound k master_key rp_id_hash (if test then some (p, cred_id) else rest)
  checked-IsOwn true cred_id p rest own ih = own refl
  checked-IsOwn false cred_id p rest own ih = ih

  pub find_resident-IsOwn :
      {S : Type 0} (nvs : Nvs S) (flash : S) (rounds i : ℕ)
      → OwnIfFound k master_key rp_id_hash
          (find_resident nvs flash k master_key rp_id_hash rounds i)
  unfolding find_resident
  find_resident-IsOwn nvs flash zero i = tt
  find_resident-IsOwn nvs flash (suc rounds) i =
      by_slot (occupied nvs flash i) (find_resident-IsOwn nvs flash rounds (i + 1))
    where
      rest : Option (CredPlain × List ℕ)
      rest = find_resident nvs flash k master_key rp_id_hash rounds (i + 1)

      by_plain :
          (r : Fido2Rk) (o : Option CredPlain)
          → cred_decrypt k master_key r.cred_id ≡ o
          → OwnIfFound k master_key rp_id_hash rest
          → OwnIfFound k master_key rp_id_hash (elim o [
            | none ↦ rest
            | some p ↦
                if bytes_eq r.rp_id_hash rp_id_hash && bytes_eq p.rp_id_hash rp_id_hash
                then some (p, r.cred_id)
                else rest
          ])
      by_plain r none e ih = ih
      by_plain r (some p) e ih =
          checked-IsOwn (bytes_eq r.rp_id_hash rp_id_hash && bytes_eq p.rp_id_hash rp_id_hash)
            r.cred_id p rest (λ t. (e, ground arith)) ih

      by_slot :
          (o : Option Fido2Rk)
          → OwnIfFound k master_key rp_id_hash rest
          → OwnIfFound k master_key rp_id_hash (elim o [
            | none ↦ rest
            | some r ↦ elim (cred_decrypt k master_key r.cred_id) [
              | none ↦ rest
              | some p ↦
                  if bytes_eq r.rp_id_hash rp_id_hash && bytes_eq p.rp_id_hash rp_id_hash
                  then some (p, r.cred_id)
                  else rest
            ]
          ])
      by_slot none ih = ih
      by_slot (some r) ih = by_plain r (cred_decrypt k master_key r.cred_id) refl ih
