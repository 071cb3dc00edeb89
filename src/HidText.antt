-- ===== src/HidText.antt =====
-- components/hid_defs/hid_text.c: the UTF-8 decoder and the CP1252 map that typing uses.
-- A C string is the list of its bytes before the NUL, so a read at its end gives 0.
pub mod Utf8
pub mod Cp1252
mod Tests
use bluepass.Common.{
  ℕ, zero, suc, ◌+◌, ◌*◌, ◌%◌, ◌^◌, bit_and, bit_or, ◌&&◌, not, Option, none, some, List, [], ◌∷◌,
  ltb, leb, ◌==◌, if◌then◌else◌, get_or, drop,
}

-- `for (int i = 1; i <= extra; i++)`, with `i` and the rounds left; `s` is the whole string.
pub utf8_loop : ℕ → ℕ → ℕ → List ℕ → ℕ × List ℕ
utf8_loop zero i cp s = (cp, drop i s)
utf8_loop (suc n) i cp s =
    let c = get_or s i 0 in
    let rest = utf8_loop n (suc i) (bit_or (cp * 2 ^ 6 % 2 ^ 32) (bit_and c 0x3f)) s in
    if bit_and c 0xc0 == 0x80 then rest else (0xfffd, drop 1 s)

-- The code point, and the string behind it.
unfoldable pub hid_utf8_next : List ℕ → ℕ × List ℕ
hid_utf8_next s =
    let c = get_or s 0 0 in
    if c == 0
    then (0, s)
    else if ltb c 0x80
    then (c, drop 1 s)
    else if bit_and c 0xe0 == 0xc0
    then utf8_loop 1 1 (bit_and c 0x1f) s
    else if bit_and c 0xf0 == 0xe0
    then utf8_loop 2 1 (bit_and c 0x0f) s
    else if bit_and c 0xf8 == 0xf0
    then utf8_loop 3 1 (bit_and c 0x07) s
    else (0xfffd, drop 1 s)

abbrev pub s_cp1252_high : List ℕ
s_cp1252_high =
    0x20ac ∷ 0x0000 ∷ 0x201a ∷ 0x0192 ∷ 0x201e ∷ 0x2026 ∷ 0x2020 ∷ 0x2021 ∷ 0x02c6 ∷ 0x2030 ∷ 0x0160
    ∷ 0x2039 ∷ 0x0152 ∷ 0x0000 ∷ 0x017d ∷ 0x0000 ∷ 0x0000 ∷ 0x2018 ∷ 0x2019 ∷ 0x201c ∷ 0x201d
    ∷ 0x2022 ∷ 0x2013 ∷ 0x2014 ∷ 0x02dc ∷ 0x2122 ∷ 0x0161 ∷ 0x203a ∷ 0x0153 ∷ 0x0000 ∷ 0x017e
    ∷ 0x0178 ∷ []

-- `for (int i = 0; i < 32; i++)` over the entries from the `i`th on.
pub cp1252_loop : List ℕ → ℕ → ℕ → Option ℕ
cp1252_loop [] i cp = none
cp1252_loop (e ∷ es) i cp =
    let rest = cp1252_loop es (suc i) cp in
    if not (e == 0) && (e == cp) then some (0x80 + i) else rest

-- `none` is the -1 of the source.
pub hid_cp1252_from_codepoint : ℕ → Option ℕ
hid_cp1252_from_codepoint cp =
    if ltb cp 0x80
    then some cp
    else if leb 0xa0 cp && leb cp 0xff
    then some cp
    else cp1252_loop s_cp1252_high 0 cp
