-- ===== src/Typing.antt =====
-- What components/usb_hid_device and components/ble_hid_device share to type a text: the modes of
-- components/hid_defs/include/hid_text.h, the table of the ASCII keys and the digits of a number. The
-- codes of the keys are TinyUSB's, so they are arguments.
pub mod Host
pub mod Points
pub mod Ascii
pub mod Text
pub mod Strings
pub mod Samples
use bluepass.Common.{
  ℕ, zero, suc, ◌+◌, ◌-◌, ◌*◌, ◌/◌, ◌%◌, ◌^◌, Bool, true, false, not, ◌&&◌, ◌||◌, Option, none,
  some, List, [], ◌∷◌, ◌++◌, ltb, leb, ◌==◌, if◌then◌else◌, get_or,
}

abbrev pub hid_text_mode_auto : ℕ
hid_text_mode_auto = 0

abbrev pub hid_text_mode_alt : ℕ
hid_text_mode_alt = 1

abbrev pub hid_text_mode_scan : ℕ
hid_text_mode_scan = 2

abbrev pub hid_text_mode_alt_hex : ℕ
hid_text_mode_alt_hex = 3

-- HID_KEY_A and its followers, HID_KEY_0, HID_KEY_KEYPAD_0 and theirs, the other keys, the
-- Num Lock bit of the LEDs, and the modifiers.
pub record Keys : Type 0 where
  pub letter : ℕ → ℕ
  pub digit : ℕ → ℕ
  pub keypad : ℕ → ℕ
  pub keypad_add : ℕ
  pub num_lock : ℕ
  pub enter : ℕ
  pub space : ℕ
  pub apostrophe : ℕ
  pub comma : ℕ
  pub minus : ℕ
  pub period : ℕ
  pub slash : ℕ
  pub semicolon : ℕ
  pub equal : ℕ
  pub bracket_left : ℕ
  pub backslash : ℕ
  pub bracket_right : ℕ
  pub grave : ℕ
  pub led_num_lock : ℕ
  pub mod_l_ctrl : ℕ
  pub mod_l_shift : ℕ
  pub mod_l_alt : ℕ

-- So many letters from the `i`th on, with one modifier.
abbrev pub letters : Keys → ℕ → ℕ → ℕ → List (ℕ × ℕ)
letters keys modifier zero i = []
letters keys modifier (suc n) i = (keys.letter i, modifier) ∷ letters keys modifier n (i + 1)

-- The key and the modifier of each character from 0x20 to 0x7E.
abbrev pub s_ascii_map : Keys → List (ℕ × ℕ)
s_ascii_map keys =
    let shift = keys.mod_l_shift in
    (keys.space, 0)
    ∷ (keys.digit 1, shift)
    ∷ (keys.apostrophe, shift)
    ∷ (keys.digit 3, shift)
    ∷ (keys.digit 4, shift)
    ∷ (keys.digit 5, shift)
    ∷ (keys.digit 7, shift)
    ∷ (keys.apostrophe, 0)
    ∷ (keys.digit 9, shift)
    ∷ (keys.digit 0, shift)
    ∷ (keys.digit 8, shift)
    ∷ (keys.equal, shift)
    ∷ (keys.comma, 0)
    ∷ (keys.minus, 0)
    ∷ (keys.period, 0)
    ∷ (keys.slash, 0)
    ∷ (keys.digit 0, 0)
    ∷ (keys.digit 1, 0)
    ∷ (keys.digit 2, 0)
    ∷ (keys.digit 3, 0)
    ∷ (keys.digit 4, 0)
    ∷ (keys.digit 5, 0)
    ∷ (keys.digit 6, 0)
    ∷ (keys.digit 7, 0)
    ∷ (keys.digit 8, 0)
    ∷ (keys.digit 9, 0)
    ∷ (keys.semicolon, shift)
    ∷ (keys.semicolon, 0)
    ∷ (keys.comma, shift)
    ∷ (keys.equal, 0)
    ∷ (keys.period, shift)
    ∷ (keys.slash, shift)
    ∷ (keys.digit 2, shift)
    ∷ (letters keys shift 26 0
        ++ ((keys.bracket_left, 0)
            ∷ (keys.backslash, 0)
            ∷ (keys.bracket_right, 0)
            ∷ (keys.digit 6, shift)
            ∷ (keys.minus, shift)
            ∷ (keys.grave, 0)
            ∷ (letters keys 0 26 0
                ++ ((keys.bracket_left, shift)
                    ∷ (keys.backslash, shift)
                    ∷ (keys.bracket_right, shift)
                    ∷ (keys.grave, shift)
                    ∷ []))))

-- `s_ascii_map[cp - 0x20]`
abbrev pub ascii_entry : Keys → ℕ → ℕ × ℕ
ascii_entry keys cp = get_or (s_ascii_map keys) (cp - 0x20) (0, 0)

-- The digits that `%X` prints, as numbers, most significant first; a number has at most eight.
pub hex_digits : ℕ → ℕ → List ℕ
hex_digits zero n = []
hex_digits (suc places) n =
    let above = hex_digits places (n / 16) in if ltb n 16 then n ∷ [] else above ++ (n % 16 ∷ [])

-- `(hex[i] <= '9') ? s_kp_digit[hex[i] - '0'] : HID_KEY_A + (hex[i] - 'A')`
abbrev pub hex_key : Keys → ℕ → ℕ
hex_key keys d = if leb d 9 then keys.keypad d else (keys.letter 0 + (d - 10)) % 256

-- The four digits of `type_alt_numpad`.
abbrev pub alt_digits : ℕ → List ℕ
alt_digits b = 0 ∷ b / 100 ∷ b / 10 % 10 ∷ b % 10 ∷ []

-- A digit that `%x` prints.
abbrev pub hex_char : ℕ → ℕ
hex_char d = if leb d 9 then 48 + d else 97 + (d - 10)
