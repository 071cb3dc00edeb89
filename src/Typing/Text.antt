-- ===== src/Typing/Text.antt =====
-- The presses that type a text, and what the host of Typing/Host reads in them.
use bluepass.Common.{
  ℕ, zero, suc, ◌-◌, ◌/◌, ◌%◌, ◌^◌, ◌≤◌, ◌<◌, ◌≡◌, refl, ap, ◌∙◌, Bool, true, false, not, ◌&&◌, inl,
  inr, none, some, List, [], ◌∷◌, ◌++◌, ltb, leb, ◌==◌, if◌then◌else◌, get_or, length, map, arith,
  Bool-cases, Option-cases, All, leb→le, if_either,
}
use bluepass.HidText.{hid_cp1252_from_codepoint}
use bluepass.Typing.Ascii.{ascii_entry-reads}
use bluepass.HidText.Cp1252.{cp1252_char, cp1252_from_codepoint_iff}
use bluepass.Typing.{
  hid_text_mode_alt, hid_text_mode_scan, hid_text_mode_alt_hex, Keys, s_ascii_map, ascii_entry,
  hex_digits, hex_key, alt_digits,
}
use bluepass.Typing.Points.{IsDigits, value-hex_digits, hex_digits-IsDigits}
use bluepass.Typing.Host.{
  Seen, character, ansi, garbled, value, decode, run, rest, run_nil, same, plain_parts, is_plain,
  all_plain, IsLayout, tap_plain, alt_taps, entry_run,
}

if-singleton : (n : Bool) (a b : Seen) → (if n then a ∷ [] else b ∷ []) ≡ (if n then a else b) ∷ []
if-singleton true a b = refl
if-singleton false a b = refl

pub both : (a b : Bool) → (a && b) ≡ true → (a ≡ true) × (b ≡ true)
both true b h = (refl, h)
both false b h = absurd (ground (arith, h))

ltb-false : (a b : ℕ) → ltb a b ≡ false → b ≤ a
ltb-false a b h = ground (arith, h)

-- What is typed as a number is the code of the digits.
newline : (cp : ℕ) → (cp == 10) ≡ true → cp ≡ 10
newline cp h = ground (arith, h)

decimal : (b : ℕ) → value 10 (b / 100 ∷ b / 10 % 10 ∷ b % 10 ∷ []) 0 ≡ b
decimal b = omega arith

module _ (keys : Keys) (numpad hex : ℕ → ℕ) (chars : ℕ → ℕ → ℕ) where
  -- The presses of one code point. Behind a plain key its modifier goes up at once, or with the next
  -- report.
  unfoldable pub strokes : Bool → ℕ → ℕ → List (ℕ × ℕ)
  strokes keeps mode cp =
      let (kc, modifier) = ascii_entry keys cp in
      let number = λ (ks : List ℕ). alt_taps keys ks ++ ((0, 0) ∷ []) in
      if cp == 10
      then (0, keys.enter) ∷ (0, 0) ∷ []
      else if ltb cp 0x20
      then []
      else if mode == hid_text_mode_alt_hex
      then number (keys.keypad_add ∷ map (hex_key keys) (hex_digits 8 cp))
      else if leb cp 0x7e && not (mode == hid_text_mode_alt)
      then (modifier, kc) ∷ (if keeps then modifier else 0, 0) ∷ []
      else if mode == hid_text_mode_scan
      then []
      else elim (hid_cp1252_from_codepoint cp) [
        | none ↦ []
        | some b ↦ number (map keys.keypad (alt_digits b))
      ]

  -- What is to arrive of a code point. A number arrives as its character if Num Lock is on.
  unfoldable pub seen : Bool → ℕ → ℕ → List Seen
  seen num_lock mode cp =
      if cp == 10
      then character cp ∷ []
      else if ltb cp 0x20
      then []
      else if mode == hid_text_mode_alt_hex
      then (if num_lock then character cp else garbled) ∷ []
      else if leb cp 0x7e && not (mode == hid_text_mode_alt)
      then character cp ∷ []
      else if mode == hid_text_mode_scan
      then []
      else elim (hid_cp1252_from_codepoint cp) [
        | none ↦ []
        | some b ↦ (if num_lock then character cp else garbled) ∷ []
      ]

  module _ (layout : IsLayout keys numpad hex chars) where
    pub alt_is_none : (0 == keys.mod_l_alt) ≡ false
    alt_is_none = ground (arith, layout.enter_is_plain)

    number_run :
        (n : Bool) (k : ℕ) (ks : List ℕ) (arrives : Seen)
        → All (λ k. is_plain keys (k, 0) ≡ true) (k ∷ ks)
        → decode keys numpad hex chars (k ∷ ks) ≡ arrives ∷ []
        → run keys numpad hex chars (alt_taps keys (k ∷ ks) ++ ((0, 0) ∷ [])) (rest n)
          ≡ (rest n, (if n then arrives else garbled) ∷ [])
    number_run n k ks arrives p e =
        entry_run keys numpad hex chars n k ks p alt_is_none
        ∙ rw e (ap (λ o. (rest n, o)) (if-singleton n arrives garbled))

    hex_keys_plain :
        (ds : List ℕ)
        → IsDigits 16 ds
        → All (λ k. is_plain keys (k, 0) ≡ true) (map (hex_key keys) ds)
    hex_keys_plain [] p = tt
    hex_keys_plain (d ∷ ds) p = (layout.hex_is_plain d p.0, hex_keys_plain ds p.1)

    hex_keys_digits : (ds : List ℕ) → IsDigits 16 ds → map hex (map (hex_key keys) ds) ≡ ds
    hex_keys_digits [] p = refl
    hex_keys_digits (d ∷ ds) p = rw (layout.hex_digit d p.0, hex_keys_digits ds p.1) refl

    keypad_plain : (d : ℕ) → d < 10 → is_plain keys (keys.keypad d, 0) ≡ true
    keypad_plain d h = ground (arith, layout.hex_is_plain d (omega arith))

    ansi_run :
        (n : Bool) (b cp : ℕ)
        → b < 256
        → cp1252_char b ≡ some cp
        → run keys numpad hex chars
            (alt_taps keys (map keys.keypad (alt_digits b)) ++ ((0, 0) ∷ []))
            (rest n)
          ≡ (rest n, (if n then character cp else garbled) ∷ [])
    ansi_run n b cp h e =
        number_run n (keys.keypad 0) (map keys.keypad (b / 100 ∷ b / 10 % 10 ∷ b % 10 ∷ []))
          (character cp)
          (
            keypad_plain 0 (omega arith),
            (
              keypad_plain (b / 100) (omega arith),
              (keypad_plain (b / 10 % 10) (omega arith), (keypad_plain (b % 10) (omega arith), tt)),
            ),
          )
          (rw
            (
              layout.digit_no_add 0 (omega arith),
              layout.numpad_digit 0 (omega arith),
              layout.numpad_digit (b / 100) (omega arith),
              layout.numpad_digit (b / 10 % 10) (omega arith),
              layout.numpad_digit (b % 10) (omega arith),
            )
            (ap (λ c. ansi c ∷ []) (decimal b) ∙ rw (ansi, e) refl))

    unicode_run :
        (n : Bool) (cp : ℕ)
        → cp < 2 ^ 32
        → run keys numpad hex chars
            (alt_taps keys (keys.keypad_add ∷ map (hex_key keys) (hex_digits 8 cp))
              ++ ((0, 0) ∷ []))
            (rest n)
          ≡ (rest n, (if n then character cp else garbled) ∷ [])
    unicode_run n cp h =
        let digits = hex_digits-IsDigits 8 cp in
        number_run n keys.keypad_add (map (hex_key keys) (hex_digits 8 cp)) (character cp)
          (layout.add_is_plain, hex_keys_plain (hex_digits 8 cp) digits)
          (rw (same keys numpad hex chars keys.keypad_add, hex_keys_digits (hex_digits 8 cp) digits)
            (ap (λ c. character c ∷ []) (value-hex_digits 8 cp h)))

    ascii_plain :
        (es : List (ℕ × ℕ)) (i : ℕ)
        → all_plain keys es ≡ true
        → i < length es
        → is_plain keys (get_or es i (0, 0)) ≡ true
    ascii_plain [] i p h = absurd (omega arith)
    ascii_plain (e ∷ es) zero p h = (both (is_plain keys e) (all_plain keys es) p).0
    ascii_plain (e ∷ es) (suc i) p h =
        ascii_plain es i (both (is_plain keys e) (all_plain keys es) p).1 (omega arith)

    plain_run :
        (keeps n : Bool) (cp : ℕ)
        → 0x20 ≤ cp
        → cp ≤ 0x7e
        → run keys numpad hex chars
            (((ascii_entry keys cp).1, (ascii_entry keys cp).0)
              ∷ (if keeps then (ascii_entry keys cp).1 else 0, 0)
              ∷ [])
            (rest n)
          ≡ (rest n, character cp ∷ [])
    plain_run keeps n cp low high =
        let p = ascii_plain (s_ascii_map keys) (cp - 0x20) layout.ascii_is_plain (omega arith) in
        let (kc, modifier) = ascii_entry keys cp in
        tap_plain keys numpad hex chars modifier (if keeps then modifier else 0) kc n p (
          if_either (λ up. (up == keys.mod_l_alt) ≡ false) keeps modifier 0
            (plain_parts keys numpad hex chars kc modifier p).2 alt_is_none)
        ∙ ap (λ c. (rest n, character c ∷ []))
            (ascii_entry-reads keys numpad hex chars layout.us cp low high)

    -- One code point arrives, and the host is as before.
    pub point_run :
        (keeps n : Bool) (mode cp : ℕ)
        → cp < 2 ^ 32
        → run keys numpad hex chars (strokes keeps mode cp) (rest n) ≡ (rest n, seen n mode cp)
    unfolding strokes seen
    point_run keeps n mode cp h =
        let nothing = run_nil keys numpad hex chars (rest n) in
        elim (Bool-cases (cp == 10)) [
          | inl line ↦ rw line (
              tap_plain keys numpad hex chars 0 0 keys.enter n layout.enter_is_plain alt_is_none
              ∙ rw (layout.us.enter_types, newline cp line) refl)
          | inr no_line ↦ rw no_line elim (Bool-cases (ltb cp 0x20)) [
            | inl control ↦ rw control nothing
            | inr printable ↦ rw printable elim (Bool-cases (mode == hid_text_mode_alt_hex)) [
              | inl is_hex ↦ rw is_hex (unicode_run n cp h)
              | inr no_hex ↦
                  rw no_hex (elim (Bool-cases (leb cp 0x7e && not (mode == hid_text_mode_alt))) [
                    | inl ascii ↦ rw ascii (
                        plain_run keeps n cp (omega (arith, ltb-false cp 0x20 printable))
                          (leb→le cp 0x7e (both (leb cp 0x7e) _ ascii).0))
                    | inr outside ↦ rw outside elim (Bool-cases (mode == hid_text_mode_scan)) [
                      | inl is_scan ↦ rw is_scan nothing
                      | inr no_scan ↦
                          rw no_scan elim (Option-cases (hid_cp1252_from_codepoint cp)) [
                            | inl unmapped ↦ rw unmapped nothing
                            | inr mapped ↦
                                let (b, e) = mapped in
                                rw e (
                                  ansi_run n b cp ((cp1252_from_codepoint_iff cp b).0 e).0
                                    ((cp1252_from_codepoint_iff cp b).0 e).1)
                          ]
                    ]
                  ])
            ]
          ]
        ]
