-- ===== src/HidReport.antt =====
-- The reports of components/hid_defs/include/hid_defs.h, and the C strings in the slots that they
-- are compared with.
use bluepass.Common.{ℕ, Bool, false, ◌&&◌, ◌||◌, List, [], ◌∷◌, ◌==◌, if◌then◌else◌, bytes_eq}

-- `hid_keyboard_report_t`, six key codes.
pub record KeyboardReport : Type 0 where
  pub modifier : ℕ
  pub reserved : ℕ
  pub keycode : List ℕ

-- `bluepass_hid_report_t`
pub record HidReport : Type 0 where
  pub keyboard : KeyboardReport
  pub consumer_code : ℕ

-- `for (int i = 0; i < 6; i++) if (keycode[i] == kc) …`
unfoldable pub contains_key : ℕ → List ℕ → Bool
contains_key kc [] = false
contains_key kc (x ∷ xs) = (x == kc) || contains_key kc xs

abbrev pub released : KeyboardReport
released = record { modifier = 0; reserved = 0; keycode = 0 ∷ 0 ∷ 0 ∷ 0 ∷ 0 ∷ 0 ∷ [] }

-- A report of one key.
abbrev pub single_key : ℕ → ℕ → KeyboardReport
single_key modifiers kc = record {
  modifier = modifiers;
  reserved = 0;
  keycode = kc ∷ 0 ∷ 0 ∷ 0 ∷ 0 ∷ 0 ∷ [];
}

-- `memcmp` of two reports, which have no padding.
unfoldable pub same_report : HidReport → HidReport → Bool
same_report a b =
    (a.keyboard.modifier == b.keyboard.modifier)
    && (a.keyboard.reserved == b.keyboard.reserved)
    && bytes_eq a.keyboard.keycode b.keyboard.keycode
    && (a.consumer_code == b.consumer_code)

-- The C string that begins a memory: its bytes before the first NUL.
unfoldable pub c_string : List ℕ → List ℕ
c_string [] = []
c_string (c ∷ cs) = let rest = c ∷ c_string cs in if c == 0 then [] else rest
