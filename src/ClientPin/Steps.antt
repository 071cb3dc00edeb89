-- ===== src/ClientPin/Steps.antt =====
-- `cmd_client_pin` keeps to the relation of ClientPin/Effects.antt.
use bluepass.Common.{
  ℕ, ◌%◌, ◌≤◌, ◌≡◌, refl, sym, ◌⊎◌, inl, inr, Bool, true, false, not, ◌&&◌, ◌||◌, List, [], ◌∷◌,
  ◌++◌, ltb, ◌==◌, if◌then◌else◌, if_either, if_split, take, arith, bytes_eq, Option, none, some,
  Option-cases, append-nil,
}
use bluepass.Cbor.{CborDec, Lookup, found, absent, too_deep, cd_bstr}
use bluepass.Cose.{peer_point}
use bluepass.Storage.{Nvs, Fido2Config, storage_fido2_has_pin}
use bluepass.ClientPin.{
  Crypto, Chance, PinState, Outcome, replied, crashed, need, with_bstr, strnlen, param,
  store_new_pin, wrong_pin, knows_pin, change_pin, set_or_change_pin, get_pin_token, with_secret,
}
use bluepass.ClientPin.Effects.{
  config, retries, with_retries, with_pin, IsBytes, IsSecret, IsProven, IsGuess, PinStep, overflows,
  refuses, misses, unlocks, sets_pin, changes_pin,
}

need-lem :
    {S : Type 0} (P : Outcome S → Type 0) (l : Lookup) (missing : Outcome S)
    (k : CborDec → Outcome S)
    → P missing
    → P crashed
    → ((v : CborDec) → l ≡ found v → P (k v))
    → P (need l missing k)
need-lem P absent missing k m c f = m
need-lem P too_deep missing k m c f = c
need-lem P (found v) missing k m c f = f v refl

with_bstr-lem :
    {S : Type 0} (P : Outcome S → Type 0) (v : CborDec) (null : Outcome S)
    (k : List ℕ → ℕ → Outcome S)
    → P null
    → ((p : List ℕ) (n : ℕ) → (cd_bstr v).0 ≡ some (p, n) → P (k p n))
    → P (with_bstr v null k)
with_bstr-lem P v null k m f = split (cd_bstr v).0 refl
  where
    split :
        (r : Option (List ℕ × ℕ))
        → (cd_bstr v).0 ≡ r
        → P (elim r [ none ↦ null | some (p, n) ↦ k p n ])
    split none e = m
    split (some (p, n)) e = f p n e

not_below : (a b : ℕ) → ltb a b ≡ false → b ≤ a
not_below a b h = ground (arith, h)

not-false : (b : Bool) → not b ≡ false → b ≡ true
not-false b h = ground (arith, h)

module _ {S : Type 0} (nvs : Nvs S) (c : Crypto) where
  module _ (ch : Chance) (fuel : ℕ) (req : List ℕ) (req_len : ℕ) (sub : ℕ) (f : PinState S) where
    abbrev Step : Outcome S → Type 0
    Step = PinStep nvs c fuel req req_len sub f

    either : (b : Bool) {x y : Outcome S} → Step x → Step y → Step (if b then x else y)
    either b = if_either (PinStep nvs c fuel req req_len sub f) b _ _

    cases :
        (b : Bool) {x y : Outcome S}
        → ((b ≡ true) → Step x)
        → ((b ≡ false) → Step y)
        → Step (if b then x else y)
    cases b = if_split (PinStep nvs c fuel req req_len sub f) b _ _

    given :
        (l : Lookup) {missing : Outcome S} {k : CborDec → Outcome S}
        → Step missing
        → Step crashed
        → ((v : CborDec) → l ≡ found v → Step (k v))
        → Step (need l missing k)
    given l = need-lem (PinStep nvs c fuel req req_len sub f) l _ _

    string :
        (v : CborDec) {null : Outcome S} {k : List ℕ → ℕ → Outcome S}
        → Step null
        → ((p : List ℕ) (n : ℕ) → (cd_bstr v).0 ≡ some (p, n) → Step (k p n))
        → Step (with_bstr v null k)
    string v = with_bstr-lem (PinStep nvs c fuel req req_len sub f) v _ _

    invalid : Step (replied f 0x12 [])
    invalid = refuses 0x12 (omega arith) (omega arith)

    missing : Step (replied f 0x14 [])
    missing = refuses 0x14 (omega arith) (omega arith)

    blocked : Step (replied f 0x32 [])
    blocked = refuses 0x32 (omega arith) (omega arith)

    denied : Step (replied f 0x33 [])
    denied = refuses 0x33 (omega arith) (omega arith)

    rejected : Step (replied f 0x27 [])
    rejected = refuses 0x27 (omega arith) (omega arith)

    known-IsGuess :
        (secret phe : List ℕ) (phe_len : ℕ) (right : Bool)
        → (retries nvs c f == 0) ≡ false
        → IsSecret c fuel req req_len f.pin_d secret
        → IsBytes c fuel req req_len 6 phe phe_len
        → 16 ≤ phe_len
        → knows_pin nvs c f secret phe ≡ right
        → IsGuess nvs c fuel req req_len f secret phe right
    known-IsGuess secret phe phe_len right left agreed given6 long t = record {
      left = ground arith;
      hash_len = phe_len;
      agreed = agreed;
      hash_given = given6;
      hash_long = long;
      matches = t;
    }

    -- Behind the checks of the old PIN, `sets` is what a new one gives.
    store_new_pin-PinStep :
        (cfg : Fido2Config) (secret enc old proof : List ℕ) (enc_len : ℕ) (change : Bool)
        → with_retries nvs c cfg 8 ≡ with_retries nvs c (config nvs c f) 8
        → proof ≡ take enc_len enc ++ old
        → IsBytes c fuel req req_len 5 enc enc_len
        → ((pin : List ℕ)
            → IsProven c fuel req req_len secret old pin
            → Step (replied (with_pin nvs c f pin) 0 []))
        → Step
            (store_new_pin nvs c ch fuel req req_len f cfg secret (take enc_len enc) proof change)
    unfolding store_new_pin
    store_new_pin-PinStep cfg secret enc old proof enc_len change same whole given5 sets =
        let plain = c.aes_cbc_decrypt secret (take enc_len enc) in
        given (param nvs c ch fuel req req_len 4) missing overflows λ v e.
          string v denied λ pap pap_len s.
            cases (ltb pap_len 16) (λ t. denied)
              λ long. either (change && not ch.md_setup_ok) rejected (
                cases (not (bytes_eq (take 16 (c.hmac_sha256 secret proof)) (take 16 pap)))
                  (λ t. denied)
                  λ proven. either (not ch.malloc_ok) rejected (
                    cases (ltb (strnlen plain) 4) (λ t. refuses 0x37 (omega arith) (omega arith))
                      λ enough. rw same (
                        sets (take (strnlen plain) plain) (record {
                          enc = enc;
                          enc_len = enc_len;
                          auth = pap;
                          auth_len = pap_len;
                          enc_given = given5;
                          auth_given = (v, e, s);
                          auth_long = not_below pap_len 16 long;
                          proven = rw (sym whole) (not-false _ proven);
                          decrypted = (refl, not_below (strnlen plain) 4 enough);
                        }))))

    wrong_pin-PinStep :
        (secret hash_enc : List ℕ)
        → (sub ≡ 4) ⊎ (sub ≡ 5)
        → IsGuess nvs c fuel req req_len f secret hash_enc false
        → Step (wrong_pin nvs c ch fuel req req_len f (config nvs c f))
    unfolding wrong_pin
    wrong_pin-PinStep secret hash_enc which guess = misses secret hash_enc which guess

    change_pin-PinStep :
        (secret enc : List ℕ) (enc_len : ℕ)
        → sub ≡ 4
        → IsSecret c fuel req req_len f.pin_d secret
        → IsBytes c fuel req req_len 5 enc enc_len
        → Step (change_pin nvs c ch fuel req req_len f (config nvs c f) secret (take enc_len enc))
    unfolding change_pin
    change_pin-PinStep secret enc enc_len four agreed given5 =
        cases (retries nvs c f == 0) (λ t. blocked)
          λ left. given (param nvs c ch fuel req req_len 6) missing overflows λ v e.
            string v invalid λ phe phe_len s.
              cases (not (phe_len == 16)) (λ t. invalid)
                λ sized.
                  let guess = λ (right : Bool) (t : knows_pin nvs c f secret phe ≡ right).
                    known-IsGuess secret phe phe_len right left agreed (v, e, s) (ground arith) t in
                  let sixteen : phe_len ≡ 16 = ground arith in
                  cases (knows_pin nvs c f secret phe)
                    (λ t.
                      store_new_pin-PinStep (with_retries nvs c (config nvs c f) 8) secret enc
                        (take 16 phe) _ enc_len true refl (rw sixteen refl) given5
                        λ pin proven. changes_pin pin secret phe four (guess true t) proven)
                    (λ t. wrong_pin-PinStep secret phe (inl four) (guess false t))

    set_or_change_pin-PinStep :
        (secret : List ℕ) (change : Bool)
        → sub ≡ (if change then 4 else 3)
        → IsSecret c fuel req req_len f.pin_d secret
        → Step (set_or_change_pin nvs c ch fuel req req_len f (config nvs c f) secret change)
    unfolding set_or_change_pin
    set_or_change_pin-PinStep secret change which agreed =
        cases (not change && storage_fido2_has_pin nvs f.flash)
          (λ t. refuses 0x30 (omega arith) (omega arith))
          λ free. given (param nvs c ch fuel req req_len 5) missing overflows λ v e.
            string v invalid λ mem npe_len s.
              either (ltb npe_len 64 || ltb 256 npe_len || not (npe_len % 16 == 0)) invalid (
                cases change
                  (λ t. change_pin-PinStep secret mem npe_len (ground arith) agreed (v, e, s))
                  (λ t.
                    store_new_pin-PinStep (config nvs c f) secret mem [] (take npe_len mem) npe_len
                      false refl (sym (append-nil (take npe_len mem))) (v, e, s)
                      λ pin proven.
                        sets_pin pin secret (ground arith) (ground arith) agreed proven))

    get_pin_token-PinStep :
        (secret : List ℕ)
        → sub ≡ 5
        → IsSecret c fuel req req_len f.pin_d secret
        → Step (get_pin_token nvs c ch fuel req req_len f (config nvs c f) secret)
    unfolding get_pin_token
    get_pin_token-PinStep secret five agreed =
        cases (not (storage_fido2_has_pin nvs f.flash))
          (λ t. refuses 0x35 (omega arith) (omega arith))
          λ no_pin.
            cases (retries nvs c f == 0) (λ t. blocked)
              λ left. given (param nvs c ch fuel req req_len 6) missing overflows λ v e.
                string v invalid λ phe phe_len s.
                  cases (ltb phe_len 16) (λ t. invalid)
                    λ long.
                      let guess = λ (right : Bool) (t : knows_pin nvs c f secret phe ≡ right).
                        known-IsGuess secret phe phe_len right left agreed (v, e, s)
                          (not_below phe_len 16 long) t in
                      cases (knows_pin nvs c f secret phe)
                        (λ t. unlocks _ _ secret phe five (not-false _ no_pin) (guess true t))
                        (λ t. wrong_pin-PinStep secret phe (inr five) (guess false t))

    pub with_secret-PinStep :
        PinStep nvs c fuel req req_len sub f (with_secret nvs c ch fuel req req_len f sub)
    unfolding with_secret
    with_secret-PinStep = given (param nvs c ch fuel req req_len 3) missing overflows λ v e.
        elim (Option-cases (peer_point fuel v)) [
          | inl none_there ↦ rw none_there overflows
          | inr ((x, y), p) ↦ rw p elim (Option-cases (c.ecdh f.pin_d (0x04 ∷ (x ++ y)))) [
            | inl fails ↦ rw fails rejected
            | inr (shared, a) ↦
                let agreed : IsSecret c fuel req req_len f.pin_d (c.sha256 shared) =
                  (v, x, y, shared, (e, p, a, refl)) in
                rw a (
                  cases (sub == 3)
                    (λ t. set_or_change_pin-PinStep (c.sha256 shared) false (ground arith) agreed)
                    λ t3.
                      cases (sub == 4)
                        (λ t.
                          set_or_change_pin-PinStep (c.sha256 shared) true (ground arith) agreed)
                        λ t4.
                          cases (sub == 5)
                            (λ t. get_pin_token-PinStep (c.sha256 shared) (ground arith) agreed)
                            λ t5. invalid)
          ]
        ]
