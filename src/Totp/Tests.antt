-- ===== src/Totp/Tests.antt =====
-- Secrets and times, and the theorems at them.
use bluepass.Common.{
  ℕ, ◌%◌, ◌/◌, ◌^◌, ◌≡◌, refl, List, [], ◌∷◌, Option, none, some, get_or, take, drop, arith,
}
use bluepass.Totp.{
  strchr, classify, base32_loop, base32_decode, truncate, counter_bytes, totp_generate_at,
  totp_seconds_remaining, ok,
}
use bluepass.Totp.Digits.{value_from}
use bluepass.Totp.Codes.{totp_generate_at_rfc}

-- "MZXW 6yt=", which is "foo" and a digit too much for a fourth byte.
abbrev foo : List ℕ
foo = 77 ∷ 90 ∷ 88 ∷ 87 ∷ 32 ∷ 54 ∷ 121 ∷ 61 ∷ []

foo_bytes : base32_decode foo 64 ≡ some (102 ∷ 111 ∷ 111 ∷ [])
unfolding base32_decode base32_loop classify strchr
foo_bytes = refl

foo_too_long : base32_decode foo 2 ≡ none
unfolding base32_decode base32_loop classify strchr
foo_too_long = refl

abbrev hash : List ℕ
hash =
    31 ∷ 134 ∷ 152 ∷ 105 ∷ 14 ∷ 2 ∷ 202 ∷ 22 ∷ 97 ∷ 133 ∷ 80 ∷ 239 ∷ 127 ∷ 25 ∷ 218 ∷ 142 ∷ 148 ∷ 91
    ∷ 85 ∷ 90 ∷ []

-- Always the hash that RFC 4226 has as its example.
abbrev constant : List ℕ → List ℕ → Option (List ℕ)
constant key message = some hash

totp_generate_at_rfc_example :
    (totp_generate_at constant foo 1111111109
      ≡ ok (value_from 256 0 (take 4 (drop (get_or hash 19 0 % 16) hash)) % 2 ^ 31 % 1000000))
    × (value_from 256 0 (counter_bytes (1111111109 / 30)) ≡ 1111111109 / 30)
totp_generate_at_rfc_example =
    totp_generate_at_rfc constant foo 1111111109 102 (111 ∷ 111 ∷ [])
      (counter_bytes (1111111109 / 30)) hash (omega arith) foo_bytes refl refl refl (omega arith)

-- The value that RFC 4226 gives for it.
rfc_code : truncate hash % 1000000 ≡ 872921
unfolding truncate
rfc_code = refl

seconds : totp_seconds_remaining 1111111085 ≡ 25
unfolding totp_seconds_remaining
seconds = refl
