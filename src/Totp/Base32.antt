-- ===== src/Totp/Base32.antt =====
-- The base 32 decoder of components/totp/totp.c on a whole text.
use bluepass.Common.{
  ℕ, ◌+◌, ◌*◌, ◌/◌, ◌%◌, ◌^◌, ◌≤◌, ◌<◌, ◌≡◌, Option, none, some, List, [], ◌∷◌, length,
}
use bluepass.Totp.{ends, digit, skipped, garbage, classify}
use bluepass.Totp.Digits.{value_from}

-- The digits of a text up to its end, or none where it holds a character that is no digit and no
-- separator.
abbrev pub symbols : List ℕ → Option (List ℕ)
symbols [] = some []
symbols (p ∷ ps) =
    let rest = symbols ps in
    elim (classify p) [
      | ends ↦ some []
      | garbage ↦ none
      | skipped ↦ rest
      | digit i ↦ elim rest [ none ↦ none | some is ↦ some (i ∷ is) ]
    ]

-- The decoder's answer for the digits of a text.
pub Decoded : ℕ → ℕ → ℕ → Option (List ℕ) → Type 0
Decoded v total dst_len none = dst_len < total / 8
Decoded v total dst_len (some out) =
    (length out ≤ dst_len) × (length out ≡ total / 8) × (value_from 256 0 out ≡ v / 2 ^ (total % 8))

pub Answers : ℕ → ℕ → ℕ → Option (List ℕ) → Option (List ℕ) → Type 0
Answers v total dst_len none r = r ≡ none
Answers v total dst_len (some is) r = Decoded (value_from 32 v is) (total + 5 * length is) dst_len r
