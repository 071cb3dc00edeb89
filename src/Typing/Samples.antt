-- ===== src/Typing/Samples.antt =====
-- A keyboard with the codes of the USB standard, and a host that knows them.
use bluepass.Common.{
  Bool, true, ◌&&◌, ◌≡◌, all_below, all_below→, ascii, List, ◌∷◌, ◌++◌, get_or, ℕ, ◌+◌, ◌-◌, refl,
  leb, ◌==◌, if◌then◌else◌, arith,
}
use bluepass.Typing.{Keys}
use bluepass.Typing.Host.{IsUsLayout, IsLayout}

abbrev pub usb_keys : Keys
usb_keys = record {
  letter = λ i. 4 + i;
  digit = λ d. if d == 0 then 39 else 29 + d;
  keypad = λ d. if d == 0 then 98 else 88 + d;
  keypad_add = 87;
  num_lock = 83;
  enter = 40;
  space = 44;
  apostrophe = 52;
  comma = 54;
  minus = 45;
  period = 55;
  slash = 56;
  semicolon = 51;
  equal = 46;
  bracket_left = 47;
  backslash = 49;
  bracket_right = 48;
  grave = 53;
  led_num_lock = 1;
  mod_l_ctrl = 1;
  mod_l_shift = 2;
  mod_l_alt = 4;
}

abbrev pub numpad : ℕ → ℕ
numpad k = if k == 98 then 0 else k - 88

abbrev pub hex : ℕ → ℕ
hex k = if leb 88 k then numpad k else k + 6

abbrev us_low : List ℕ
us_low = ascii "abcdefghijklmnopqrstuvwxyz1234567890" ++ (10 ∷ 27 ∷ 8 ∷ 9 ∷ ascii " -=[]\\\\;'`,./")

abbrev us_high : List ℕ
us_high = ascii "ABCDEFGHIJKLMNOPQRSTUVWXYZ!@#$%^&*()" ++ (10 ∷ 27 ∷ 8 ∷ 9 ∷ ascii " _+{}||:\"~<>?")

abbrev pub chars : ℕ → ℕ → ℕ
chars modifier kc = get_or (if modifier == 2 then us_high else us_low) (kc - 4) 0

-- The tables at the letters, and at the digits.
letter_ok : ℕ → Bool
letter_ok i = (chars 0 (4 + i) == 97 + i) && (chars 2 (4 + i) == 65 + i)

digit_ok : ℕ → Bool
digit_ok d =
    (chars 0 (usb_keys.digit d) == 48 + d)
    && (chars 2 (usb_keys.digit d) == get_or (ascii ")!@#$%^&*(") d 0)

letters_ok : all_below 26 letter_ok ≡ true
unfolding all_below letter_ok
letters_ok = refl

digits_ok : all_below 10 digit_ok ≡ true
unfolding all_below digit_ok
digits_ok = refl

equal_pairs : (a b c d : ℕ) → (a == b) && (c == d) ≡ true → (a ≡ b) × (c ≡ d)
equal_pairs a b c d h = ground (arith, h)

usb_keys-IsUsLayout : IsUsLayout usb_keys numpad hex chars
unfolding letter_ok digit_ok
usb_keys-IsUsLayout = record {
  letter_types = λ i h. equal_pairs _ _ _ _ (all_below→ 26 letter_ok i letters_ok h);
  digit_types = λ d h. equal_pairs _ _ _ _ (all_below→ 10 digit_ok d digits_ok h);
  enter_types = refl;
  space_types = refl;
  apostrophe_types = (refl, refl);
  comma_types = (refl, refl);
  minus_types = (refl, refl);
  period_types = (refl, refl);
  slash_types = (refl, refl);
  semicolon_types = (refl, refl);
  equal_types = (refl, refl);
  bracket_left_types = (refl, refl);
  backslash_types = (refl, refl);
  bracket_right_types = (refl, refl);
  grave_types = (refl, refl);
}

pub usb_keys-IsLayout : IsLayout usb_keys numpad hex chars
usb_keys-IsLayout = record {
  numpad_digit = λ d h. ground arith;
  hex_digit = λ d h. ground arith;
  hex_is_plain = λ d h. ground arith;
  digit_no_add = λ d h. ground arith;
  add_is_plain = refl;
  enter_is_plain = refl;
  ascii_is_plain = refl;
  num_lock_is_key = refl;
  us = usb_keys-IsUsLayout;
}
