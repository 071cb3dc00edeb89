-- ===== src/Webhook/Encoding.antt =====
-- `url_encode` of components/webhook/webhook.c against a decoder of its own.
use bluepass.Common.{
  ℕ, ◌+◌, ◌-◌, ◌*◌, ◌/◌, ◌%◌, ◌≤◌, ◌<◌, ◌≡◌, ◌≢◌, refl, ap, ◌∙◌, ◌⊎◌, inl, inr, true, false, ◌||◌,
  List, [], ◌∷◌, ◌++◌, All, ltb, leb, ◌==◌, if◌then◌else◌, length, arith, Bool-cases, IsByte,
  if_split, all_below, all_below→,
}
use bluepass.Webhook.{is_unreserved, hex_digit, url_encode_loop, url_encode}

-- Percent-decoding after RFC 3986, where every escape is complete.
abbrev hex_value : ℕ → ℕ
hex_value a = if ltb a 58 then a - 48 else a - 55

pub percent_decode : List ℕ → List ℕ
percent_decode [] = []
percent_decode (c ∷ []) = c ∷ []
percent_decode (c ∷ a ∷ []) = c ∷ a ∷ []
percent_decode (c ∷ a ∷ b ∷ cs) =
    let escaped = (hex_value a * 16 + hex_value b) ∷ percent_decode cs in
    let plain = c ∷ percent_decode (a ∷ b ∷ cs) in if c == 0x25 then escaped else plain

decode_plain : (c : ℕ) (cs : List ℕ) → c ≢ 0x25 → percent_decode (c ∷ cs) ≡ c ∷ percent_decode cs
unfolding percent_decode
decode_plain c [] h = refl
decode_plain c (a ∷ []) h = refl
decode_plain c (a ∷ b ∷ cs) h = ground arith

decode_escaped :
    (n : ℕ) (cs : List ℕ)
    → n < 256
    → percent_decode (0x25 ∷ hex_digit (n / 16) ∷ hex_digit (n % 16) ∷ cs) ≡ n ∷ percent_decode cs
unfolding percent_decode hex_digit
decode_escaped n cs h = ground arith

unreserved-ne-percent : (c : ℕ) → is_unreserved c ≡ true → c ≢ 0x25
unfolding is_unreserved
unreserved-ne-percent c h = ground arith

-- A byte of a C string.
abbrev pub IsChar : ℕ → Type 0
IsChar c = (c ≢ 0) × (c < 256)

loop_decodes :
    (v rest : List ℕ) (di dst_sz : ℕ)
    → All IsChar v
    → di + 3 * length v < dst_sz
    → percent_decode (url_encode_loop (v ++ (0 ∷ rest)) di dst_sz) ≡ v
unfolding url_encode_loop
loop_decodes [] rest di dst_sz chars room = decode_nil
  where
    decode_nil : percent_decode [] ≡ []
    decode_nil = unfold percent_decode in refl
loop_decodes (c ∷ cs) rest di dst_sz chars room =
    let more : ((c == 0) || leb dst_sz (di + 3)) ≡ false = ground (arith, chars.0) in
    elim (Bool-cases (is_unreserved c)) [
      | inl plain ↦
          rw (more, plain)
            (decode_plain c (url_encode_loop (cs ++ (0 ∷ rest)) (di + 1) dst_sz)
                (unreserved-ne-percent c plain)
              ∙ ap (◌∷◌ c) (loop_decodes cs rest (di + 1) dst_sz chars.1 (omega arith)))
      | inr escape ↦
          rw (more, escape)
            (decode_escaped c (url_encode_loop (cs ++ (0 ∷ rest)) (di + 3) dst_sz) chars.0.1
              ∙ ap (◌∷◌ c) (loop_decodes cs rest (di + 3) dst_sz chars.1 (omega arith)))
    ]

-- A value of at most 63 characters, as the slot holds it, is read back whole from its encoding;
-- `rest` is what stands behind it in memory.
pub url_encode-percent_decode :
    (v rest : List ℕ)
    → All IsChar v
    → length v ≤ 63
    → percent_decode (url_encode (v ++ (0 ∷ rest)) 193) ≡ v
unfolding url_encode
url_encode-percent_decode v rest chars short = loop_decodes v rest 0 193 chars (omega arith)

-- A character that stands in a query without a meaning of its own, or the percent sign.
abbrev pub IsUrlChar : ℕ → Type 0
IsUrlChar c = (is_unreserved c ≡ true) ⊎ (c ≡ 0x25)

hex_digit-IsUrlChar : (n : ℕ) → n < 16 → IsUrlChar (hex_digit n)
unfolding hex_digit is_unreserved all_below
hex_digit-IsUrlChar n h = inl (all_below→ 16 (λ x. is_unreserved (hex_digit x)) n table h)
  where
    table : all_below 16 (λ x. is_unreserved (hex_digit x)) ≡ true
    table = refl

-- What is written, whatever the memory holds, is made of such characters and leaves room for the
-- NUL in the array of `dst_sz` bytes.
loop_fits :
    (src : List ℕ) (di dst_sz : ℕ)
    → All IsByte src
    → di < dst_sz
    → All IsUrlChar (url_encode_loop src di dst_sz)
      × (di + length (url_encode_loop src di dst_sz) < dst_sz)
unfolding url_encode_loop
loop_fits [] di dst_sz bytes room = (tt, omega arith)
loop_fits (c ∷ cs) di dst_sz bytes room =
    if_split Fits ((c == 0) || leb dst_sz (di + 3)) _ _ (λ t. (tt, omega arith))
      λ more.
        let space : di + 3 < dst_sz = ground arith in
        let next = loop_fits cs (di + 1) dst_sz bytes.1 (omega arith) in
        let behind = loop_fits cs (di + 3) dst_sz bytes.1 space in
        if_split Fits (is_unreserved c) _ _ (λ plain. ((inl plain, next.0), omega (arith, next.1)))
          (λ escape. (
            (
              inr refl,
              (
                hex_digit-IsUrlChar (c / 16) (omega (arith, bytes.0)),
                (hex_digit-IsUrlChar (c % 16) (omega arith), behind.0),
              ),
            ),
            omega (arith, behind.1),
          ))
  where
    Fits : List ℕ → Type 0
    Fits out = All IsUrlChar out × (di + length out < dst_sz)

-- Whatever bytes stand in memory where the value is expected, for an array of at least one byte, the
-- encoding has no character with a meaning of its own in a query but the percent sign, and leaves room
-- for the NUL in the array.
pub url_encode_fits :
    (src : List ℕ) (dst_sz : ℕ)
    → All IsByte src
    → 0 < dst_sz
    → All IsUrlChar (url_encode src dst_sz) × (length (url_encode src dst_sz) < dst_sz)
unfolding url_encode
url_encode_fits src dst_sz bytes room =
    let fits = loop_fits src 0 dst_sz bytes room in (fits.0, omega (arith, fits.1))
