-- ===== src/HidText/Tests.antt =====
-- Runs of the text helpers, and the theorems at them.
use bluepass.Common.{[], ◌∷◌, ◌++◌, ◌≡◌, refl, some, none, arith, ◌<◌}
use bluepass.HidText.{hid_utf8_next, utf8_loop, hid_cp1252_from_codepoint, cp1252_loop}
use bluepass.HidText.Utf8.{utf8, utf8_next-utf8, utf8_next_overlong}

-- "ü", a stray continuation byte, and a sequence cut short by the end
decoded :
    (hid_utf8_next (0xc3 ∷ 0xbc ∷ 33 ∷ []) ≡ (0xfc, 33 ∷ []))
    × (hid_utf8_next (0x80 ∷ 33 ∷ []) ≡ (0xfffd, 33 ∷ []))
    × (hid_utf8_next (0xe2 ∷ 0x82 ∷ []) ≡ (0xfffd, 0x82 ∷ []))
unfolding hid_utf8_next utf8_loop
decoded = (refl, refl, refl)

euro : (hid_cp1252_from_codepoint 0x20ac ≡ some 0x80) × (hid_cp1252_from_codepoint 0x81 ≡ none)
unfolding hid_cp1252_from_codepoint cp1252_loop
euro = (refl, refl)

utf8_next-utf8_example : hid_utf8_next (utf8 0x20ac ++ (33 ∷ [])) ≡ (0x20ac, 33 ∷ [])
utf8_next-utf8_example = utf8_next-utf8 0x20ac (33 ∷ []) (omega arith) (omega arith)

-- 0xC0 0x80 ends the string for a caller, though more follows.
utf8_next_overlong_example :
    let (cp, behind) = hid_utf8_next (0xc0 ∷ 0x80 ∷ 33 ∷ []) in
    (cp ≡ 0) × (cp < 0x80) × (behind ≡ 33 ∷ [])
utf8_next_overlong_example = utf8_next_overlong 0 0 (33 ∷ []) (omega arith) (omega arith)
