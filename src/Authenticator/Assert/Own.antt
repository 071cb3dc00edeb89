-- ===== src/Authenticator/Assert/Own.antt =====
-- What the allow list of `cmd_get_assertion` gives is a credential of the relying party.
use bluepass.Common.{
  ℕ, zero, suc, ◌≡◌, refl, Bool, true, false, not, ◌&&◌, Option, none, some, List, ◌==◌,
  if◌then◌else◌, take, bytes_eq, ascii,
}
use bluepass.Cbor.{CborDec, cd_item, cd_map_tstr, cd_bstr, cd_sub}
use bluepass.Credential.{Sealing, CredPlain, cred_decrypt, cred_id_len}
use bluepass.Credential.Resident.{OwnIfFound, checked-IsOwn}
use bluepass.Authenticator.{parsed, ◌>>=◌, optional, skip_item}
use bluepass.Authenticator.Assert.{usable, allow_loop, find_allowed}
use bluepass.Authenticator.Reading.{Ensures, Any, bind, optional-Any, skip_item-Any, if_Ensures}

module _ (k : Sealing) (master_key rp_id_hash : List ℕ) where
  usable-IsOwn :
      (o : Option CborDec) → OwnIfFound k master_key rp_id_hash (usable k master_key rp_id_hash o)
  unfolding usable
  usable-IsOwn none = tt
  usable-IsOwn (some v) = by_string (cd_bstr v).0
    where
      by_plain :
          (p : List ℕ) (o : Option CredPlain)
          → cred_decrypt k master_key (take cred_id_len p) ≡ o
          → OwnIfFound k master_key rp_id_hash (elim o [
            | none ↦ none
            | some plain ↦
                if bytes_eq plain.rp_id_hash rp_id_hash
                then some (plain, take cred_id_len p)
                else none
          ])
      by_plain p none e = tt
      by_plain p (some plain) e =
          checked-IsOwn k master_key rp_id_hash (bytes_eq plain.rp_id_hash rp_id_hash)
            (take cred_id_len p) plain none (λ t. (e, t)) tt

      by_length :
          (p : List ℕ) (b : Bool)
          → OwnIfFound k master_key rp_id_hash (elim b [
            | false ↦ none
            | true ↦ elim (cred_decrypt k master_key (take cred_id_len p)) [
              | none ↦ none
              | some plain ↦
                  if bytes_eq plain.rp_id_hash rp_id_hash
                  then some (plain, take cred_id_len p)
                  else none
            ]
          ])
      by_length p false = tt
      by_length p true = by_plain p (cred_decrypt k master_key (take cred_id_len p)) refl

      by_string :
          (s : Option (List ℕ × ℕ))
          → OwnIfFound k master_key rp_id_hash (elim s [
            | none ↦ none
            | some (p, n) ↦ elim (n == cred_id_len) [
              | false ↦ none
              | true ↦ elim (cred_decrypt k master_key (take cred_id_len p)) [
                | none ↦ none
                | some plain ↦
                    if bytes_eq plain.rp_id_hash rp_id_hash
                    then some (plain, take cred_id_len p)
                    else none
              ]
            ]
          ])
      by_string none = tt
      by_string (some (p, n)) = by_length p (n == cred_id_len)

  abbrev pub Own : Option (CredPlain × List ℕ) → Type 0
  Own o = OwnIfFound k master_key rp_id_hash o

  allow_loop-IsOwn :
      (fuel n : ℕ) (v : CborDec) → Ensures Own (allow_loop k master_key rp_id_hash fuel n v)
  unfolding allow_loop
  allow_loop-IsOwn fuel zero v = tt
  allow_loop-IsOwn fuel (suc n) v = by_error v.err (allow_loop-IsOwn fuel n)
    where
      by_hit :
          (v' : CborDec) (o : Option (CredPlain × List ℕ))
          → Own o
          → Ensures Own (allow_loop k master_key rp_id_hash fuel n v')
          → Ensures Own (elim o [
            | some hit ↦ parsed (some hit)
            | none ↦ allow_loop k master_key rp_id_hash fuel n v'
          ])
      by_hit v' none own ih = ih
      by_hit v' (some hit) own ih = own

      by_error :
          (b : Bool)
          → ((v' : CborDec) → Ensures Own (allow_loop k master_key rp_id_hash fuel n v'))
          → Ensures Own (elim b [
            | true ↦ parsed none
            | false ↦
                optional (cd_map_tstr fuel (cd_sub v).buf (cd_sub v).len (ascii "id")) >>= λ o.
                skip_item fuel v >>= λ v'. elim (usable k master_key rp_id_hash o) [
                  | some hit ↦ parsed (some hit)
                  | none ↦ allow_loop k master_key rp_id_hash fuel n v'
                ]
          ])
      by_error true ih = tt
      by_error false ih =
          let l = cd_map_tstr fuel (cd_sub v).buf (cd_sub v).len (ascii "id") in
          bind Any Own (optional l) _ (optional-Any l) λ o _.
            bind Any Own (skip_item fuel v) _ (skip_item-Any fuel v)
              λ v' _. by_hit v' (usable k master_key rp_id_hash o) (usable-IsOwn o) (ih v')

  pub find_allowed-IsOwn :
      (fuel : ℕ) (o : Option CborDec) → Ensures Own (find_allowed k master_key rp_id_hash fuel o)
  unfolding find_allowed
  find_allowed-IsOwn fuel none = tt
  find_allowed-IsOwn fuel (some v) =
      let (arr, v') = cd_item v in
      if_Ensures Own (not v'.err && arr.major_type == 4) _ _ (λ _. allow_loop-IsOwn fuel arr.val v')
        (λ _. tt)
