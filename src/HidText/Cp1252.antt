-- ===== src/HidText/Cp1252.antt =====
-- `hid_cp1252_from_codepoint` against the Windows-1252 code page.
use bluepass.Common.{
  ℕ, suc, ◌+◌, ◌-◌, ◌≤◌, ◌<◌, ◌≡◌, ◌↔◌, refl, Bool, true, false, ◌&&◌, not, Option, none, some,
  List, [], ◌∷◌, ltb, leb, ◌==◌, if◌then◌else◌, get_or, length, arith, all_below, all_below→,
  Bool-cases, inl, inr, ◌||◌, ap, ◌∙◌, ◌⊎◌,
}
use bluepass.HidText.{s_cp1252_high, cp1252_loop, hid_cp1252_from_codepoint}

-- The code point that the byte `b` stands for in Windows-1252; `none` for the five unassigned ones.
pub cp1252_char : ℕ → Option ℕ
cp1252_char b =
    if ltb b 0x80 || leb 0xa0 b
    then some b
    else if get_or s_cp1252_high (b - 0x80) 0 == 0
    then none
    else some (get_or s_cp1252_high (b - 0x80) 0)

abbrev is_some_of : Option ℕ → ℕ → Bool
is_some_of none x = false
is_some_of (some y) x = y == x

-- Of each byte: it is unassigned, or the code is given back from its character.
abbrev given_back : ℕ → Bool
given_back b = elim (cp1252_char b) [
  | none ↦ true
  | some cp ↦ is_some_of (hid_cp1252_from_codepoint cp) b
]

all_given_back : all_below 256 given_back ≡ true
unfolding all_below cp1252_char hid_cp1252_from_codepoint cp1252_loop
all_given_back = refl

from-char : (cp b : ℕ) → b < 256 → cp1252_char b ≡ some cp → hid_cp1252_from_codepoint cp ≡ some b
from-char cp b h e = ground (arith, all_below→ 256 given_back b all_given_back h)

-- Where the loop finds an entry, it stands in the table and is not 0.
loop_sound :
    (es : List ℕ) (i cp b : ℕ)
    → cp1252_loop es i cp ≡ some b
    → (j : ℕ) × (b ≡ 0x80 + (i + j)) × (j < length es) × (get_or es j 0 ≡ cp) × (0 < cp)
unfolding cp1252_loop
loop_sound [] i cp b h = cc
loop_sound (e ∷ es) i cp b h = elim (Bool-cases (not (e == 0) && (e == cp))) [
  | inl t ↦ (0, ground arith, omega arith, ground arith, ground arith)
  | inr t ↦
      let (j, at, in_table, entry, pos) = loop_sound es (suc i) cp b (ground arith) in
      (suc j, omega arith, omega arith, entry, pos)
]

table_char :
    (cp b j : ℕ)
    → b ≡ 0x80 + (0 + j)
    → j < 32
    → get_or s_cp1252_high j 0 ≡ cp
    → 0 < cp
    → (b < 256) × (cp1252_char b ≡ some cp)
unfolding cp1252_char
table_char cp b j at in_table entry pos =
    let index : b - 0x80 ≡ j = omega arith in
    let outside : (ltb b 0x80 || leb 0xa0 b) ≡ false = ground arith in
    let here : get_or s_cp1252_high (b - 0x80) 0 ≡ cp =
      ap (λ k. get_or s_cp1252_high k 0) index ∙ entry in
    let assigned : (cp == 0) ≡ false = ground arith in
    (omega arith, rw (outside, here, assigned) refl)

same_code :
    (cp b : ℕ)
    → b ≡ cp
    → (cp < 0x80) ⊎ ((0xa0 ≤ cp) × (cp < 256))
    → (b < 256) × (cp1252_char b ≡ some cp)
unfolding cp1252_char
same_code cp b e h = ground arith

to_char : (cp b : ℕ) → hid_cp1252_from_codepoint cp ≡ some b → (b < 256) × (cp1252_char b ≡ some cp)
unfolding hid_cp1252_from_codepoint
to_char cp b h = elim (Bool-cases (ltb cp 0x80)) [
  | inl low ↦ same_code cp b (ground arith) (ground arith)
  | inr high ↦ elim (Bool-cases (leb 0xa0 cp && leb cp 0xff)) [
    | inl latin ↦ same_code cp b (ground arith) (ground arith)
    | inr other ↦
        let (j, at, in_table, entry, pos) = loop_sound s_cp1252_high 0 cp b (ground arith) in
        table_char cp b j at in_table entry pos
  ]
]

-- A character has the code `b` exactly if `b` is a byte that stands for it: no two characters
-- share a code, and none that has one is missed.
pub cp1252_from_codepoint_iff :
    (cp b : ℕ) → (hid_cp1252_from_codepoint cp ≡ some b) ↔ ((b < 256) × (cp1252_char b ≡ some cp))
cp1252_from_codepoint_iff cp b = (to_char cp b, λ h. from-char cp b h.0 h.1)
