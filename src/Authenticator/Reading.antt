-- ===== src/Authenticator/Reading.antt =====
-- What reading a request establishes, as a predicate with a rule for each step.
use bluepass.Common.{
  ℕ, ◌≡◌, ◌≢◌, refl, ◌⊎◌, inl, inr, Bool, true, false, not, Option, none, some, List, ltb,
  if◌then◌else◌, take, bytes_eq, arith, ascii, ◌==◌,
}
use Prim.Native.String.{String}
use bluepass.Cbor.{
  CborDec, Lookup, found, absent, too_deep, cd_skip, cd_map_uint, cd_map_tstr, cd_bstr,
}
use bluepass.Storage.{Nvs, storage_fido2_has_pin}
use bluepass.ClientPin.{Crypto, PinState}
use bluepass.Authenticator.{
  Parse, parsed, refused, overrun, ◌>>=◌, required, optional, non_null, skip_item, client_data_hash,
  option_flag, check_pin_auth, user_verified,
}

-- A value has the property, and a refusal has an error status.
abbrev pub Ensures : {A : Type 0} → (A → Type 0) → Parse A → Type 0
Ensures P (parsed a) = P a
Ensures P (refused status) = status ≢ 0
Ensures P overrun = Unit

abbrev pub Any : {A : Type 0} → A → Type 0
Any a = Unit {0}

pub bind :
    {A B : Type 0} (P : A → Type 0) (Q : B → Type 0) (m : Parse A) (f : A → Parse B)
    → Ensures P m
    → ((a : A) → P a → Ensures Q (f a))
    → Ensures Q (m >>= f)
bind P Q (parsed a) f h k = k a h
bind P Q (refused status) f h k = h
bind P Q overrun f h k = tt

-- The value is remembered with where it comes from.
pub self : {A : Type 0} (m : Parse A) → Ensures Any m → Ensures (λ a. m ≡ parsed a) m
self (parsed a) h = refl
self (refused status) h = h
self overrun h = tt

pub forget : {A : Type 0} (P : A → Type 0) (m : Parse A) → Ensures P m → Ensures Any m
forget P (parsed a) h = tt
forget P (refused status) h = h
forget P overrun h = tt

pub required-Any : (l : Lookup) → Ensures Any (required l)
unfolding required
required-Any absent = omega arith
required-Any too_deep = tt
required-Any (found v) = tt

pub optional-Ensures : (l : Lookup) → Ensures (λ o. optional l ≡ parsed o) (optional l)
unfolding optional
optional-Ensures absent = refl
optional-Ensures too_deep = tt
optional-Ensures (found v) = refl

pub optional-Any : (l : Lookup) → Ensures Any (optional l)
optional-Any l = forget (λ o. optional l ≡ parsed o) (optional l) (optional-Ensures l)

pub optional-found : (l : Lookup) (v : CborDec) → optional l ≡ parsed (some v) → l ≡ found v
unfolding optional
optional-found absent v e = ground arith
optional-found too_deep v e = ground arith
optional-found (found w) v e = ground arith

pub non_null-Ensures :
    (status : ℕ) (s : Option (List ℕ × ℕ))
    → status ≢ 0
    → Ensures (λ r. s ≡ some r) (non_null status s)
unfolding non_null
non_null-Ensures status none h = h
non_null-Ensures status (some s) h = refl

pub skip_item-Any : (fuel : ℕ) (d : CborDec) → Ensures Any (skip_item fuel d)
unfolding skip_item
skip_item-Any fuel d = go (cd_skip fuel d)
  where
    go :
        (o : Option CborDec)
        → Ensures {A = CborDec} Any (elim o [ none ↦ overrun | some e ↦ parsed e ])
    go none = tt
    go (some e) = tt

pub if_Ensures :
    {A : Type 0} (P : A → Type 0) (b : Bool) (x y : Parse A)
    → ((b ≡ true) → Ensures P x)
    → ((b ≡ false) → Ensures P y)
    → Ensures P (if b then x else y)
if_Ensures P true x y p q = p refl
if_Ensures P false x y p q = q refl

pub client_data_hash-Ensures :
    (fuel : ℕ) (req : List ℕ) (req_len key : ℕ)
    → Ensures Any (client_data_hash fuel req req_len key)
unfolding client_data_hash
client_data_hash-Ensures fuel req req_len key =
    let l = cd_map_uint fuel req req_len key in
    bind Any Any (required l) _ (required-Any l) λ v _.
      bind (λ r. (cd_bstr v).0 ≡ some r) Any (non_null 0x12 (cd_bstr v).0) _
        (non_null-Ensures 0x12 (cd_bstr v).0 (omega arith))
        λ s _. if_Ensures Any (s.1 == 32) _ _ (λ _. tt) (λ _. omega arith)

pub option_flag-Ensures :
    (fuel : ℕ) (v : CborDec) (name : String) → Ensures Any (option_flag fuel v name)
unfolding option_flag
option_flag-Ensures fuel v name =
    let l = cd_map_tstr fuel v.buf v.len (ascii name) in
    bind Any Any (optional l) _ (optional-Any l) (λ o _. tt)

module _ {S : Type 0} (nvs : Nvs S) (c : Crypto) (f : PinState S) where
  -- The request carries a pinAuth that belongs to the hash under the token that is in force.
  pub record IsPinProof (hash : List ℕ) (sent : Lookup) : Type 0 where
    pub valid : f.pin_token_valid ≡ true
    pub param : CborDec
    pub given : sent ≡ found param
    pub auth : List ℕ
    pub auth_len : ℕ
    pub reads : (cd_bstr param).0 ≡ some (auth, auth_len)
    pub long : ltb auth_len 16 ≡ false
    pub matches :
        bytes_eq (take 16 (c.hmac_sha256 (take 16 f.pin_token) hash)) (take 16 auth) ≡ true

  check_pin_auth-IsPinProof :
      (hash : List ℕ) (sent : Lookup) (v : CborDec)
      → sent ≡ found v
      → Ensures (λ uv. IsPinProof hash sent) (check_pin_auth nvs c f hash v)
  unfolding check_pin_auth
  check_pin_auth-IsPinProof hash sent v given =
      let Proved : Bool → Type 0 = λ uv. IsPinProof hash sent in
      if_Ensures Proved (not f.pin_token_valid) _ _ (λ _. omega arith)
        λ held.
          bind (λ r. (cd_bstr v).0 ≡ some r) Proved (non_null 0x33 (cd_bstr v).0) _
            (non_null-Ensures 0x33 (cd_bstr v).0 (omega arith))
            λ s read.
              if_Ensures Proved (ltb s.1 16) _ _ (λ _. omega arith)
                λ enough.
                  if_Ensures Proved
                    (bytes_eq (take 16 (c.hmac_sha256 (take 16 f.pin_token) hash)) (take 16 s.0)) _
                    _
                    (λ same. record {
                      valid = ground arith;
                      param = v;
                      given = given;
                      auth = s.0;
                      auth_len = s.1;
                      reads = read;
                      long = enough;
                      matches = same;
                    })
                    (λ _. omega arith)

  -- The user is verified by a proof of the PIN and in no other way.
  pub user_verified-IsPinProof :
      (hash : List ℕ) (opt_uv : Bool) (sent : Lookup)
      → Ensures (λ uv. (uv ≡ false) ⊎ IsPinProof hash sent) (user_verified nvs c f hash opt_uv sent)
  unfolding user_verified
  user_verified-IsPinProof hash opt_uv sent =
      bind (λ o. optional sent ≡ parsed o) Verified (optional sent) _ (optional-Ensures sent)
        by_case
    where
      Verified : Bool → Type 0
      Verified uv = (uv ≡ false) ⊎ IsPinProof hash sent

      weaken : (m : Parse Bool) → Ensures (λ uv. IsPinProof hash sent) m → Ensures Verified m
      weaken (parsed uv) h = inr h
      weaken (refused status) h = h
      weaken overrun h = tt

      by_case :
          (o : Option CborDec)
          → optional sent ≡ parsed o
          → Ensures Verified (elim o [
            | some v ↦ check_pin_auth nvs c f hash v
            | none ↦
                if opt_uv
                then (if not (storage_fido2_has_pin nvs f.flash)
                    then refused 0x35
                    else refused 0x36)
                else parsed false
          ])
      by_case none e =
          if_Ensures Verified opt_uv _ _
            (λ _.
              if_Ensures Verified (not (storage_fido2_has_pin nvs f.flash)) _ _ (λ _. omega arith)
                (λ _. omega arith))
            (λ _. inl refl)
      by_case (some v) e =
          weaken (check_pin_auth nvs c f hash v)
            (check_pin_auth-IsPinProof hash sent v (optional-found sent v e))
