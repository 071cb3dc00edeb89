-- ===== src/Totp/Codes.antt =====
-- The codes of components/totp/totp.c: the dynamic truncation against RFC 4226, and the windows.
use bluepass.Common.{
  ℕ, zero, suc, ◌+◌, ◌*◌, ◌/◌, ◌%◌, ◌^◌, ◌≤◌, ◌<◌, ◌≡◌, refl, ap, ◌∙◌, sym, List, [], ◌∷◌, length,
  get_or, take, drop, arith, bit_or, bit_or_shift, false, bit_and_0f, bit_and_7f, IsByte, All,
  bit_and_ff, Option, none, some, ltb,
}
use bluepass.Totp.{
  truncate, counter_bytes, totp_generate_at, totp_generate, totp_seconds_remaining, TotpResult, ok,
  failed, invalid_arg, base32_decode,
}
use bluepass.Totp.Digits.{value_from}

drop-get_or : (n : ℕ) (xs : List ℕ) → n < length xs → drop n xs ≡ get_or xs n 0 ∷ drop (suc n) xs
drop-get_or n [] h = ground arith
drop-get_or zero (x ∷ xs) h = refl
drop-get_or (suc n) (x ∷ xs) h = drop-get_or n xs (omega arith)

get_or-IsByte : (xs : List ℕ) (n : ℕ) → All IsByte xs → get_or xs n 0 < 256
get_or-IsByte [] n h = omega arith
get_or-IsByte (x ∷ xs) zero h = h.0
get_or-IsByte (x ∷ xs) (suc n) h = get_or-IsByte xs n h.1

four :
    (n : ℕ) (xs : List ℕ)
    → n + 3 < length xs
    → take 4 (drop n xs)
      ≡ get_or xs n 0 ∷ get_or xs (n + 1) 0 ∷ get_or xs (n + 2) 0 ∷ get_or xs (n + 3) 0 ∷ []
four n xs h =
    rw
      (
        drop-get_or n xs (omega arith),
        drop-get_or (suc n) xs (omega arith),
        drop-get_or (suc (suc n)) xs (omega arith),
        drop-get_or (suc (suc (suc n))) xs (omega arith),
      )
      (ground arith)

or_add : (k a n b : ℕ) → n ≡ a * 2 ^ k → b < 2 ^ k → bit_or n b ≡ n + b
or_add k a n b e h = ap (λ m. bit_or m b) e ∙ bit_or_shift k a b h ∙ ap (λ m. m + b) (sym e)

joined :
    (x b c d : ℕ)
    → b < 256
    → c < 256
    → d < 256
    → bit_or (bit_or (bit_or (x * 2 ^ 24) (b * 2 ^ 16)) (c * 2 ^ 8)) d
      ≡ x * 2 ^ 24 + b * 2 ^ 16 + c * 2 ^ 8 + d
joined x b c d lb lc ld = rw (or_add 24 x (x * 2 ^ 24) (b * 2 ^ 16) refl (omega arith)) (
    rw (or_add 16 (x * 2 ^ 8 + b) (x * 2 ^ 24 + b * 2 ^ 16) (c * 2 ^ 8) (omega arith) (omega arith))
      (or_add 8 ((x * 2 ^ 8 + b) * 2 ^ 8 + c) (x * 2 ^ 24 + b * 2 ^ 16 + c * 2 ^ 8) d (omega arith)
        (omega arith)))

-- The truncation of RFC 4226: the four bytes from the offset that the last byte gives, as a
-- number without its highest bit.
truncate_lem :
    (hash : List ℕ)
    → length hash ≡ 20
    → All IsByte hash
    → truncate hash ≡ value_from 256 0 (take 4 (drop (get_or hash 19 0 % 16) hash)) % 2 ^ 31
unfolding truncate
truncate_lem hash size bytes =
    let o = get_or hash 19 0 % 16 in
    let small : get_or hash 19 0 < 256 = get_or-IsByte hash 19 bytes in
    let a_byte = get_or-IsByte hash o bytes in
    let b_byte = get_or-IsByte hash (o + 1) bytes in
    let c_byte = get_or-IsByte hash (o + 2) bytes in
    let d_byte = get_or-IsByte hash (o + 3) bytes in
    rw
      (
        bit_and_0f (get_or hash 19 0) small,
        bit_and_7f (get_or hash o 0) a_byte,
        bit_and_ff (get_or hash (o + 1) 0) b_byte,
        bit_and_ff (get_or hash (o + 2) 0) c_byte,
        bit_and_ff (get_or hash (o + 3) 0) d_byte,
        four o hash (omega (arith, size)),
        joined (get_or hash o 0 % 128) (get_or hash (o + 1) 0) (get_or hash (o + 2) 0)
            (get_or hash (o + 3) 0) b_byte c_byte d_byte,
      )
      (omega arith)

counter_bytes-value : (n : ℕ) → n < 2 ^ 64 → value_from 256 0 (counter_bytes n) ≡ n
counter_bytes-value n h = omega arith

module _ (hmac_sha1 : List ℕ → List ℕ → Option (List ℕ)) where
  -- For a secret that decodes to a key and a hash of twenty bytes, `totp_generate_at` answers with
  -- the code of RFC 6238: the truncated hash of the eight bytes that denote the number of whole
  -- windows of thirty seconds since 1970, its last six decimal digits.
  pub totp_generate_at_rfc :
      (secret : List ℕ) (time k : ℕ) (key message hash : List ℕ)
      → time < 2 ^ 63
      → base32_decode secret 64 ≡ some (k ∷ key)
      → message ≡ counter_bytes (time / 30)
      → hmac_sha1 (k ∷ key) message ≡ some hash
      → length hash ≡ 20
      → All IsByte hash
      → (totp_generate_at hmac_sha1 secret time
          ≡ ok (value_from 256 0 (take 4 (drop (get_or hash 19 0 % 16) hash)) % 2 ^ 31 % 1000000))
        × (value_from 256 0 message ≡ time / 30)
  unfolding totp_generate_at
  totp_generate_at_rfc secret time k key message hash early decoded same hashed size bytes = (
    rw (decoded, totp_generate_at, sym same, hashed, truncate_lem hash size bytes) refl,
    rw same (counter_bytes-value (time / 30) (omega arith)),
  )

  same_window :
      (secret : List ℕ) (s t : ℕ)
      → s / 30 ≡ t / 30
      → totp_generate_at hmac_sha1 secret s ≡ totp_generate_at hmac_sha1 secret t
  unfolding totp_generate_at
  same_window secret s t e =
      let answer : ℕ → TotpResult = λ w. elim (base32_decode secret 64) [
        | none ↦ invalid_arg
        | some [] ↦ invalid_arg
        | some (k ∷ key) ↦ elim (hmac_sha1 (k ∷ key) (counter_bytes w)) [
          | none ↦ failed
          | some hash ↦ ok (truncate hash % 1000000)
        ]
      ] in
      ap answer {x = s / 30} {y = t / 30} e

  -- `totp_seconds_remaining` is how long the code stays: until then every time gives the same code,
  -- and that many seconds later the next window begins, at most thirty seconds away.
  totp_seconds_remaining-window :
      (secret : List ℕ) (now later : ℕ)
      → 1000000000 ≤ now
      → later < totp_seconds_remaining now
      → (totp_generate hmac_sha1 secret (now + later) ≡ totp_generate hmac_sha1 secret now)
        × ((now + totp_seconds_remaining now) % 30 ≡ 0)
        × (totp_seconds_remaining now ≤ 30)
  unfolding totp_seconds_remaining totp_generate
  totp_seconds_remaining-window secret now later set early =
      let same : (now + later) / 30 ≡ now / 30 = omega arith in
      let synced : ltb now 1000000000 ≡ false = ground arith in
      let synced' : ltb (now + later) 1000000000 ≡ false = ground arith in
      (rw (synced, synced') (same_window secret (now + later) now same), omega arith, omega arith)
