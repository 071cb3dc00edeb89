-- ===== src/Typing/Points.antt =====
-- A text as its code points, and a number as its digits.
use bluepass.Common.{
  ℕ, zero, suc, ◌+◌, ◌*◌, ◌/◌, ◌%◌, ◌^◌, ◌≤◌, ◌<◌, ◌≡◌, refl, List, [], ◌∷◌, ◌++◌, ltb, ◌==◌,
  if◌then◌else◌, length, arith, All, All-append, ltb→lt, if_split, length-drop,
}
use native.Mathlib.Nat.{pow-suc}
use bluepass.HidText.{hid_utf8_next}
use bluepass.HidText.Utf8.{utf8_next_progress}
use bluepass.Typing.{hex_digits}
use bluepass.Typing.Host.{value}

-- The code points before the end of a string, as far as the fuel goes.
unfoldable pub code_points : ℕ → List ℕ → List ℕ
code_points zero str = []
code_points (suc fuel) str =
    let (cp, behind) = hid_utf8_next str in
    let more = code_points fuel behind in if cp == 0 then [] else cp ∷ more

-- Fuel above the length is enough.
pub code_points_fuel :
    (f g : ℕ) (str : List ℕ)
    → length str < f
    → length str < g
    → code_points f str ≡ code_points g str
unfolding code_points hid_utf8_next
code_points_fuel zero g str p q = absurd (omega arith)
code_points_fuel (suc f) zero str p q = absurd (omega arith)
code_points_fuel (suc f) (suc g) [] p q = refl
code_points_fuel (suc f) (suc g) (zero ∷ t) p q = refl
code_points_fuel (suc f) (suc g) (suc c ∷ t) p q =
    let (k, pos, within, behind) = utf8_next_progress (suc c) t (omega arith) in
    let next = hid_utf8_next (suc c ∷ t) in
    let shorter : length next.1 ≤ length t = rw behind (omega (arith, length-drop k (suc c ∷ t))) in
    rw (code_points_fuel f g next.1 (omega arith) (omega arith)) refl

-- The digits that `%X` prints stand for the number.
abbrev pub IsDigits : ℕ → List ℕ → Type 0
IsDigits base ds = All (λ d. d < base) ds

value-append :
    (base : ℕ) (ds es : List ℕ) (acc : ℕ)
    → value base (ds ++ es) acc ≡ value base es (value base ds acc)
value-append base [] es acc = refl
value-append base (d ∷ ds) es acc = value-append base ds es (acc * base + d)

pub value-hex_digits : (places n : ℕ) → n < 16 ^ places → value 16 (hex_digits places n) 0 ≡ n
unfolding hex_digits
value-hex_digits zero n h = omega arith
value-hex_digits (suc places) n h =
    let above = hex_digits places (n / 16) in
    if_split (λ ds. value 16 ds 0 ≡ n) (ltb n 16) (n ∷ []) (above ++ (n % 16 ∷ []))
      (λ small. omega arith)
      λ large.
        rw (value-append 16 above (n % 16 ∷ []) 0)
          (omega (arith, value-hex_digits places (n / 16) (omega (arith, pow-suc 16 places))))

pub hex_digits-IsDigits : (places n : ℕ) → IsDigits 16 (hex_digits places n)
unfolding hex_digits
hex_digits-IsDigits zero n = tt
hex_digits-IsDigits (suc places) n =
    let above = hex_digits places (n / 16) in
    if_split (IsDigits 16) (ltb n 16) (n ∷ []) (above ++ (n % 16 ∷ []))
      (λ small. (ltb→lt n 16 small, tt))
      λ large.
        All-append (λ d. d < 16) above (n % 16 ∷ []) (hex_digits-IsDigits places (n / 16))
          (omega arith, tt)
