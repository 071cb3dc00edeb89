-- ===== src/HidText/Utf8.antt =====
-- `hid_utf8_next` against the UTF-8 encoding.
use bluepass.Common.{
  ℕ, zero, suc, ◌+◌, ◌*◌, ◌/◌, ◌%◌, ◌^◌, ◌≤◌, ◌<◌, ◌≡◌, refl, ap, ◌∙◌, bit_and, bit_or, List, [],
  ◌∷◌, ◌++◌, ltb, ◌==◌, if◌then◌else◌, get_or, drop, length, arith, bit_and_c0, bit_and_e0,
  bit_and_f0, bit_and_f8, bit_and_3f, bit_and_0f, bit_and_07, bit_and_1f, bit_or_shift, Bool-cases,
  inl, inr, true, false, if_either,
}
use bluepass.HidText.{utf8_loop, hid_utf8_next}

-- The encoding of a code point, by RFC 3629.
abbrev pub utf8 : ℕ → List ℕ
utf8 cp =
    if ltb cp 0x80
    then cp ∷ []
    else if ltb cp 0x800
    then (0xc0 + cp / 64) ∷ (0x80 + cp % 64) ∷ []
    else if ltb cp 0x1_0000
    then (0xe0 + cp / 4096) ∷ (0x80 + cp / 64 % 64) ∷ (0x80 + cp % 64) ∷ []
    else (0xf0 + cp / 262144)
      ∷ (0x80 + cp / 4096 % 64)
      ∷ (0x80 + cp / 64 % 64)
      ∷ (0x80 + cp % 64)
      ∷ []

-- One round on a continuation byte.
loop_step :
    (n i cp x : ℕ) (s : List ℕ)
    → get_or s i 0 ≡ 0x80 + x
    → x < 64
    → cp * 64 + x < 2 ^ 32
    → utf8_loop (suc n) i cp s ≡ utf8_loop n (suc i) (cp * 64 + x) s
unfolding utf8_loop
loop_step n i cp x s at hx fits =
    let or : bit_or (cp * 64 % 2 ^ 32) x ≡ cp * 64 + x =
      ap (λ t. bit_or t x) {x = cp * 64 % 2 ^ 32} {y = cp * 64} (omega arith)
      ∙ bit_or_shift 6 cp x hx in
    let low : bit_and (0x80 + x) 0x3f ≡ x = bit_and_3f (0x80 + x) (omega arith) ∙ omega arith in
    let top : bit_and (0x80 + x) 0xc0 ≡ 0x80 = bit_and_c0 (0x80 + x) (omega arith) ∙ omega arith in
    rw (at, top, low, or) refl

loop_end : (i cp : ℕ) (s : List ℕ) → utf8_loop 0 i cp s ≡ (cp, drop i s)
unfolding utf8_loop
loop_end i cp s = refl

-- The first byte tells how many follow.
lead_two :
    (x : ℕ) (t : List ℕ)
    → x < 32
    → hid_utf8_next ((0xc0 + x) ∷ t) ≡ utf8_loop 1 1 x ((0xc0 + x) ∷ t)
unfolding hid_utf8_next
lead_two x t h = ground (arith, bit_and_e0 (0xc0 + x), bit_and_1f (0xc0 + x))

lead_three :
    (x : ℕ) (t : List ℕ)
    → x < 16
    → hid_utf8_next ((0xe0 + x) ∷ t) ≡ utf8_loop 2 1 x ((0xe0 + x) ∷ t)
unfolding hid_utf8_next
lead_three x t h =
    ground (arith, bit_and_e0 (0xe0 + x), bit_and_f0 (0xe0 + x), bit_and_0f (0xe0 + x))

lead_four :
    (x : ℕ) (t : List ℕ) → x < 8 → hid_utf8_next ((0xf0 + x) ∷ t) ≡ utf8_loop 3 1 x ((0xf0 + x) ∷ t)
unfolding hid_utf8_next
lead_four x t h = ground (
  arith,
  bit_and_e0 (0xf0 + x),
  bit_and_f0 (0xf0 + x),
  bit_and_f8 (0xf0 + x),
  bit_and_07 (0xf0 + x),
)

lead_one : (c : ℕ) (t : List ℕ) → 0 < c → c < 0x80 → hid_utf8_next (c ∷ t) ≡ (c, t)
unfolding hid_utf8_next
lead_one c t pos h = ground arith

decode_two :
    (x y : ℕ) (rest : List ℕ)
    → x < 32
    → y < 64
    → hid_utf8_next ((0xc0 + x) ∷ (0x80 + y) ∷ rest) ≡ (x * 64 + y, rest)
decode_two x y rest hx hy =
    let s = (0xc0 + x) ∷ (0x80 + y) ∷ rest in
    lead_two x ((0x80 + y) ∷ rest) hx
    ∙ loop_step 0 1 x y s refl hy (omega arith)
    ∙ loop_end 2 (x * 64 + y) s

decode_three :
    (x y z : ℕ) (rest : List ℕ)
    → x < 16
    → y < 64
    → z < 64
    → hid_utf8_next ((0xe0 + x) ∷ (0x80 + y) ∷ (0x80 + z) ∷ rest) ≡ ((x * 64 + y) * 64 + z, rest)
decode_three x y z rest hx hy hz =
    let s = (0xe0 + x) ∷ (0x80 + y) ∷ (0x80 + z) ∷ rest in
    lead_three x ((0x80 + y) ∷ (0x80 + z) ∷ rest) hx
    ∙ loop_step 1 1 x y s refl hy (omega arith)
    ∙ loop_step 0 2 (x * 64 + y) z s refl hz (omega arith)
    ∙ loop_end 3 ((x * 64 + y) * 64 + z) s

decode_four :
    (x y z w : ℕ) (rest : List ℕ)
    → x < 8
    → y < 64
    → z < 64
    → w < 64
    → hid_utf8_next ((0xf0 + x) ∷ (0x80 + y) ∷ (0x80 + z) ∷ (0x80 + w) ∷ rest)
      ≡ (((x * 64 + y) * 64 + z) * 64 + w, rest)
decode_four x y z w rest hx hy hz hw =
    let s = (0xf0 + x) ∷ (0x80 + y) ∷ (0x80 + z) ∷ (0x80 + w) ∷ rest in
    lead_four x ((0x80 + y) ∷ (0x80 + z) ∷ (0x80 + w) ∷ rest) hx
    ∙ loop_step 2 1 x y s refl hy (omega arith)
    ∙ loop_step 1 2 (x * 64 + y) z s refl hz (omega arith)
    ∙ loop_step 0 3 ((x * 64 + y) * 64 + z) w s refl hw (omega arith)
    ∙ loop_end 4 (((x * 64 + y) * 64 + z) * 64 + w) s

-- `hid_utf8_next` reads back every code point from 1 to 0x1FFFFF that was encoded, and stops right
-- behind it.
pub utf8_next-utf8 :
    (cp : ℕ) (rest : List ℕ)
    → 0 < cp
    → cp < 0x20_0000
    → hid_utf8_next (utf8 cp ++ rest) ≡ (cp, rest)
utf8_next-utf8 cp rest pos h = ground (
  arith,
  lead_one cp rest pos,
  decode_two (cp / 64) (cp % 64) rest,
  decode_three (cp / 4096) (cp / 64 % 64) (cp % 64) rest,
  decode_four (cp / 262144) (cp / 4096 % 64) (cp / 64 % 64) (cp % 64) rest,
)

-- An over-long pair of bytes is not refused: where the first byte is 0xC0 or 0xC1, it is decoded to
-- the ASCII character that one byte would hold.
pub utf8_next_overlong :
    (x y : ℕ) (rest : List ℕ)
    → x < 2
    → y < 64
    → let (cp, behind) = hid_utf8_next ((0xc0 + x) ∷ (0x80 + y) ∷ rest) in
      (cp ≡ x * 64 + y) × (cp < 0x80) × (behind ≡ rest)
utf8_next_overlong x y rest hx hy =
    rw (decode_two x y rest (omega arith) hy) (refl, omega arith, refl)

-- A continuation byte is no NUL, so it stands before the end.
before_end : (s : List ℕ) (i : ℕ) → (bit_and (get_or s i 0) 0xc0 == 0x80) ≡ true → i < length s
before_end [] i h = cc
before_end (x ∷ xs) zero h = omega arith
before_end (x ∷ xs) (suc i) h = omega (arith, before_end xs i h)

loop_progress :
    (n i cp : ℕ) (s : List ℕ)
    → 0 < i
    → i ≤ length s
    → (k : ℕ) × (0 < k) × (k ≤ length s) × ((utf8_loop n i cp s).1 ≡ drop k s)
unfolding utf8_loop
loop_progress zero i cp s pos le = (i, pos, le, refl)
loop_progress (suc n) i cp s pos le = elim (Bool-cases (bit_and (get_or s i 0) 0xc0 == 0x80)) [
  | inl t ↦
      let more : suc i ≤ length s = before_end s i t in
      rw t (loop_progress n (suc i) _ s (omega arith) more)
  | inr t ↦ rw t (1, omega arith, omega arith, refl)
]

-- From a string that is not at its end, `hid_utf8_next` goes on by at least one byte and never past
-- the terminating NUL, whatever the bytes are.
pub utf8_next_progress :
    (c : ℕ) (t : List ℕ)
    → 0 < c
    → (k : ℕ) × (0 < k) × (k ≤ length (c ∷ t)) × ((hid_utf8_next (c ∷ t)).1 ≡ drop k (c ∷ t))
unfolding hid_utf8_next
utf8_next_progress c t pos =
    let s = c ∷ t in
    let P = λ (r : ℕ × List ℕ). (k : ℕ) × (0 < k) × (k ≤ length s) × (r.1 ≡ drop k s) in
    let one : (k : ℕ) × (0 < k) × (k ≤ length s) × (t ≡ drop k s) =
      (1, omega arith, omega arith, refl) in
    let more = λ (n cp : ℕ). loop_progress n 1 cp s (omega arith) (omega arith) in
    let live : (c == 0) ≡ false = ground arith in
    rw live (
      if_either P (ltb c 0x80) _ _ one (
        if_either P (bit_and c 0xe0 == 0xc0) _ _ (more 1 (bit_and c 0x1f)) (
          if_either P (bit_and c 0xf0 == 0xe0) _ _ (more 2 (bit_and c 0x0f))
            (if_either P (bit_and c 0xf8 == 0xf0) _ _ (more 3 (bit_and c 0x07)) one))))
