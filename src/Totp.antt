-- ===== src/Totp.antt =====
-- components/totp/totp.c. The secret is the list of its character codes without the closing NUL, or
-- with it. SHA-1 comes from mbedtls and is a parameter, which may fail; times are not negative, as
-- the caller `totp_generate` sees to, and below 2^63.
mod Digits
mod Base32
mod Codes
mod Tests
use bluepass.Common.{
  ℕ, zero, suc, ◌+◌, ◌-◌, ◌*◌, ◌/◌, ◌%◌, ◌^◌, Bool, true, false, not, ◌&&◌, ◌||◌, Option, none,
  some, List, [], ◌∷◌, ◌++◌, ltb, leb, ◌==◌, if◌then◌else◌, length, get_or, bit_and, bit_or,
}

-- `s_base32_alpha`
abbrev pub s_base32_alpha : List ℕ
s_base32_alpha =
    65 ∷ 66 ∷ 67 ∷ 68 ∷ 69 ∷ 70 ∷ 71 ∷ 72 ∷ 73 ∷ 74 ∷ 75 ∷ 76 ∷ 77 ∷ 78 ∷ 79 ∷ 80 ∷ 81 ∷ 82 ∷ 83
    ∷ 84 ∷ 85 ∷ 86 ∷ 87 ∷ 88 ∷ 89 ∷ 90 ∷ 50 ∷ 51 ∷ 52 ∷ 53 ∷ 54 ∷ 55 ∷ []

-- `strchr`, as an index.
pub strchr : List ℕ → ℕ → Option ℕ
strchr [] c = none
strchr (x ∷ xs) c =
    let rest = strchr xs c in
    if x == c then some 0 else elim rest [ none ↦ none | some i ↦ some (suc i) ]

-- What the loop of `base32_decode` makes of one character.
pub data Symbol : Type 0 where
  ends : Symbol
  digit : ℕ → Symbol
  skipped : Symbol
  garbage : Symbol

pub classify : ℕ → Symbol
classify p =
    let c = if leb 97 p then p - 32 else p in
    let other = if c == 32 || c == 9 || c == 10 || c == 13 || c == 45 then skipped else garbage in
    if p == 0 || p == 61
    then ends
    else elim (strchr s_base32_alpha c) [ none ↦ other | some i ↦ digit i ]

-- The loop of `base32_decode`; `none` is -1. `val` is the `int` as 32 bits, of which the twelve
-- lowest matter.
pub base32_loop : ℕ → List ℕ → ℕ → ℕ → List ℕ → Option (List ℕ)
base32_loop dst_len [] bits val out = some out
base32_loop dst_len (p ∷ ps) bits val out = elim (classify p) [
  | ends ↦ some out
  | garbage ↦ none
  | skipped ↦ base32_loop dst_len ps bits val out
  | digit i ↦
      let val' = bit_or (val * 2 ^ 5 % 2 ^ 32) i in
      let byte = val' / 2 ^ (bits + 5 - 8) % 256 in
      elim (leb 8 (bits + 5)) [
        | false ↦ base32_loop dst_len ps (bits + 5) val' out
        | true ↦ elim (leb dst_len (length out)) [
          | true ↦ none
          | false ↦ base32_loop dst_len ps (bits + 5 - 8) val' (out ++ (byte ∷ []))
        ]
      ]
]

pub base32_decode : List ℕ → ℕ → Option (List ℕ)
base32_decode src dst_len = base32_loop dst_len src 0 0 []

pub data TotpResult : Type 0 where
  ok : ℕ → TotpResult
  invalid_arg : TotpResult
  invalid_state : TotpResult
  failed : TotpResult

-- `msg`, the counter in eight bytes.
abbrev pub counter_bytes : ℕ → List ℕ
counter_bytes counter =
    (counter / 2 ^ 56 % 256)
    ∷ (counter / 2 ^ 48 % 256)
    ∷ (counter / 2 ^ 40 % 256)
    ∷ (counter / 2 ^ 32 % 256)
    ∷ (counter / 2 ^ 24 % 256)
    ∷ (counter / 2 ^ 16 % 256)
    ∷ (counter / 2 ^ 8 % 256)
    ∷ (counter % 256)
    ∷ []

-- The dynamic truncation.
pub truncate : List ℕ → ℕ
truncate hash =
    let offset = bit_and (get_or hash 19 0) 0x0f in
    bit_or
      (bit_or
        (bit_or (bit_and (get_or hash offset 0) 0x7f * 2 ^ 24)
          (bit_and (get_or hash (offset + 1) 0) 0xff * 2 ^ 16))
        (bit_and (get_or hash (offset + 2) 0) 0xff * 2 ^ 8))
      (bit_and (get_or hash (offset + 3) 0) 0xff)

module _ (hmac_sha1 : List ℕ → List ℕ → Option (List ℕ)) where
  pub totp_generate_at : List ℕ → ℕ → TotpResult
  totp_generate_at base32_secret unix_time = elim (base32_decode base32_secret 64) [
    | none ↦ invalid_arg
    | some [] ↦ invalid_arg
    | some (k ∷ key) ↦ elim (hmac_sha1 (k ∷ key) (counter_bytes (unix_time / 30))) [
      | none ↦ failed
      | some hash ↦ ok (truncate hash % 1000000)
    ]
  ]

  pub totp_generate : List ℕ → ℕ → TotpResult
  totp_generate base32_secret now =
      if ltb now 1000000000 then invalid_state else totp_generate_at base32_secret now

pub totp_seconds_remaining : ℕ → ℕ
totp_seconds_remaining now = (30 - now % 30) % 256
