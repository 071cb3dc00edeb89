-- ===== src/Authenticator/Register/Request.antt =====
-- What `cmd_make_credential` knows of a request that it does not refuse.
use bluepass.Common.{
  ◌⊎◌, ℕ, ◌≡◌, refl, Bool, true, false, ◌&&◌, Option, none, some, List, leb, if◌then◌else◌, arith,
}
use bluepass.Cbor.{Lookup, cd_map_uint}
use bluepass.Storage.{Nvs, storage_get_fido2_config}
use bluepass.Storage.Slots.{fido2_rk_max, storage_set_fido2_rk}
use bluepass.ClientPin.{Crypto}
use bluepass.Credential.{Sealing, rk_bytes, find_slot}
use bluepass.Authenticator.{
  Device, Env, Parse, parsed, refused, ◌>>=◌, optional, client_data_hash, user_verified,
}
use bluepass.Authenticator.Register.{
  MakeRequest, UserEntry, has_es256, user_entry, resident, make_rp, make_options, parse_make,
  store_resident,
}
use bluepass.Authenticator.Register.Fields.{
  has_es256-Ensures, user_entry-Ensures, make_rp-Ensures, make_options-Ensures,
}
use bluepass.Authenticator.Reading.{
  Ensures, Any, bind, self, optional-Any, if_Ensures, client_data_hash-Ensures, IsPinProof,
  user_verified-IsPinProof,
}
use bluepass.Authenticator.Register.Effects.{counted, Stored, on_device}

module _ {S : Type 0} (nvs : Nvs S) (c : Crypto) (k : Sealing) (env : Env) (fuel : ℕ) (req : List ℕ)
    (req_len : ℕ) (d : Device S) where
  abbrev pub rp : Parse (List ℕ)
  rp = make_rp nvs c k env fuel req req_len

  abbrev pub hash : Parse (List ℕ)
  hash = client_data_hash fuel req req_len 0x01

  abbrev pub sent : Lookup
  sent = cd_map_uint fuel req req_len 0x08

  -- What the request is known to be where it is not refused.
  abbrev pub IsRead : MakeRequest → Type 0
  IsRead r =
      (rp ≡ parsed r.rp_id_hash)
      × (hash ≡ parsed r.hash)
      × ((r.uv ≡ false) ⊎ IsPinProof nvs c d.pin r.hash sent)

  pub parse_make-IsRead : Ensures IsRead (parse_make nvs c k env fuel req req_len d)
  unfolding parse_make
  parse_make-IsRead =
      bind (λ h. hash ≡ parsed h) IsRead hash _
        (self hash (client_data_hash-Ensures fuel req req_len 0x01))
        λ h is_hash.
          bind (λ a. rp ≡ parsed a) IsRead rp _
            (self rp (make_rp-Ensures nvs c k env fuel req req_len))
            λ a is_rp.
              let params = cd_map_uint fuel req req_len 0x04 in
              bind Any IsRead (optional params) _ (optional-Any params) λ list _.
                bind Any IsRead (has_es256 fuel list) _ (has_es256-Ensures fuel list) λ es256 _.
                  bind Any IsRead (if es256 then parsed true else refused 0x26) _
                    (if_Ensures Any es256 _ _ (λ _. tt) (λ _. omega arith))
                    λ supported _.
                      bind Any IsRead (make_options nvs c k env fuel req req_len) _
                        (make_options-Ensures nvs c k env fuel req req_len)
                        λ options _. verified h a is_hash is_rp options
    where
      verified :
          (h a : List ℕ)
          → hash ≡ parsed h
          → rp ≡ parsed a
          → (options : Bool × Bool)
          → Ensures IsRead (
              user_verified nvs c d.pin h options.1 sent >>= λ uv.
              if options.0 && leb fido2_rk_max (storage_get_fido2_config nvs d.pin.flash).1.rk_count
              then refused 0x28
              else parsed (record { hash = h; rp_id_hash = a; rk = options.0; uv = uv }))
      verified h a is_hash is_rp options =
          bind (λ uv. (uv ≡ false) ⊎ IsPinProof nvs c d.pin h sent) IsRead
            (user_verified nvs c d.pin h options.1 sent) _
            (user_verified-IsPinProof nvs c d.pin h options.1 sent)
            λ uv proof.
              if_Ensures IsRead
                (options.0
                  && leb fido2_rk_max (storage_get_fido2_config nvs d.pin.flash).1.rk_count)
                _ _ (λ _. omega arith) (λ _. (is_rp, is_hash, proof))

  pub store_resident-Stored :
      (r : MakeRequest) (cred_id : List ℕ)
      → r.rk ≡ true
      → Ensures (Stored nvs c k env d r cred_id) (
          store_resident nvs c k env fuel req req_len
            (counted nvs c k env d).1
            r
            cred_id
            (counted nvs c k env d).0)
  unfolding store_resident
  store_resident-Stored r cred_id rk =
      let l = cd_map_uint fuel req req_len 0x03 in
      let P : S → Type 0 = Stored nvs c k env d r cred_id in
      bind Any P (optional l) _ (optional-Any l) λ o _.
        bind Any P (user_entry fuel o) _ (user_entry-Ensures fuel o) λ user _. by_slot user _ refl
    where
      by_slot :
          (user : UserEntry) (o : Option ℕ)
          → find_slot nvs
              (counted nvs c k env d).1
              (resident r.rp_id_hash cred_id (counted nvs c k env d).0 user)
              fido2_rk_max
              0
              none
            ≡ o
          → Ensures (Stored nvs c k env d r cred_id) (elim o [
            | none ↦ refused 0x28
            | some slot ↦
                parsed
                  (storage_set_fido2_rk nvs slot
                    (rk_bytes (resident r.rp_id_hash cred_id (counted nvs c k env d).0 user))
                    (counted nvs c k env d).1).1
          ])
      by_slot user none e = omega arith
      by_slot user (some slot) e = on_device user slot rk e
