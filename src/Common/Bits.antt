-- ===== src/Common/Bits.antt =====
-- Masks and shifts as arithmetic. On one byte a mask is a table, checked by evaluation; for `|`
-- after a shift the law holds at every width, by the digit recursion of the native operation.
use Prim.Native.Nat.{compare, Ordering}
use Prim.Native.Nat.{
  ℕ, zero, suc, ◌+◌, ◌*◌, ◌/◌, ◌%◌, ◌^◌, ◌≤◌, ◌<◌, max, bit_and, bit_or, digits, bit_or-bitwise,
}
use mathlib.Core.Path.{◌≡◌, refl, ap}
use mathlib.Core.Bool.{Bool, true, false, ◌&&◌}
use native.Mathlib.Nat.{pow-suc}
use native.Mathlib.Omega.{arith}

abbrev pub IsByte : ℕ → Type 0
IsByte b = b < 256

module _ (f g : ℕ → ℕ) where
  agree_below : ℕ → Bool
  agree_below zero = true
  agree_below (suc n) =
      let rest = agree_below n in elim (compare (f n) (g n)) [ Ordering.eq ↦ rest | _ ↦ false ]

  agree_below→eq : (n : ℕ) → agree_below n ≡ true → (i : ℕ) → i < n → f i ≡ g i
  unfolding agree_below
  agree_below→eq zero e i h = absurd (omega arith)
  agree_below→eq (suc n) e i h = ground (arith, agree_below→eq n (ground arith) i)

-- `b & 0x1F`
pub bit_and_1f : (b : ℕ) → b < 256 → bit_and b 0x1f ≡ b % 32
unfolding agree_below
bit_and_1f = agree_below→eq _ _ 256 refl

-- `(mt << 5) | v`
pub bit_or_head : (b : ℕ) → b < 256 → bit_or (b / 32 * 32) (b % 32) ≡ b
unfolding agree_below
bit_or_head = agree_below→eq _ _ 256 refl

-- The law for the lowest digit, from the definition that the native operation stands for.
abbrev or_digits : ℕ → ℕ → ℕ → ℕ
or_digits n a b = digits (λ b. b) max n a b

or_digits_fuel : (n m a b : ℕ) → a ≤ n → a ≤ m → or_digits n a b ≡ or_digits m a b
or_digits_fuel zero zero a b p q = refl
or_digits_fuel zero (suc m) zero b p q = refl
or_digits_fuel zero (suc m) (suc a) b p q = absurd (omega arith)
or_digits_fuel (suc n) zero zero b p q = refl
or_digits_fuel (suc n) zero (suc a) b p q = absurd (omega arith)
or_digits_fuel (suc n) (suc m) zero b p q = refl
or_digits_fuel (suc n) (suc m) (suc a) b p q =
    omega (arith, or_digits_fuel n m (suc a / 2) (b / 2) (omega arith) (omega arith))

zero-bit_or : (b : ℕ) → bit_or 0 b ≡ b
zero-bit_or b = bit_or-bitwise 0 b

bit_or_step : (a b : ℕ) → bit_or a b ≡ bit_or (a / 2) (b / 2) * 2 + max (a % 2) (b % 2)
bit_or_step zero b = omega (arith, zero-bit_or b, zero-bit_or (b / 2))
bit_or_step (suc a) b = omega (
  arith,
  bit_or-bitwise (suc a) b,
  bit_or-bitwise (suc a / 2) (b / 2),
  or_digits_fuel a (suc a / 2) (suc a / 2) (b / 2) (omega arith) (omega arith),
)

bit_or-zero_fuel : (n a : ℕ) → a ≤ n → bit_or a 0 ≡ a
bit_or-zero_fuel n zero h = refl
bit_or-zero_fuel zero (suc a) h = absurd (omega arith)
bit_or-zero_fuel (suc n) (suc a) h =
    omega (arith, bit_or_step (suc a) 0, bit_or-zero_fuel n (suc a / 2) (omega arith))

bit_or-zero : (a : ℕ) → bit_or a 0 ≡ a
bit_or-zero a = bit_or-zero_fuel a a (omega arith)

double_half : (a p : ℕ) → a * (p * 2) / 2 ≡ a * p
double_half a p = omega arith

double_even : (a p : ℕ) → a * (p * 2) % 2 ≡ 0
double_even a p = omega arith

-- `(a << k) | b` for a `b` of at most `k` bits.
pub bit_or_shift : (k a b : ℕ) → b < 2 ^ k → bit_or (a * 2 ^ k) b ≡ a * 2 ^ k + b
bit_or_shift zero a b h = rw (zero_of b h) (omega (arith, bit_or-zero (a * 1)))
  where
    zero_of : (n : ℕ) → n < 1 → n ≡ 0
    zero_of n l = omega arith
bit_or_shift (suc k) a b h = rw (pow-suc 2 k) (
    omega (
      arith,
      bit_or_step (a * (2 ^ k * 2)) b,
      double_half a (2 ^ k),
      double_even a (2 ^ k),
      ap (λ t. bit_or t (b / 2)) (double_half a (2 ^ k)),
      pow-suc 2 k,
      bit_or_shift k a (b / 2) (omega (arith, pow-suc 2 k)),
    ))

-- `b | (a << k)`
pub bit_or_low : (k a b : ℕ) → b < 2 ^ k → bit_or b (a * 2 ^ k) ≡ a * 2 ^ k + b
bit_or_low zero a b h = rw (zero_of b h) (omega (arith, zero-bit_or (a * 1)))
  where
    zero_of : (n : ℕ) → n < 1 → n ≡ 0
    zero_of n l = omega arith
bit_or_low (suc k) a b h = rw (pow-suc 2 k) (
    omega (
      arith,
      bit_or_step b (a * (2 ^ k * 2)),
      double_half a (2 ^ k),
      double_even a (2 ^ k),
      ap (bit_or (b / 2)) (double_half a (2 ^ k)),
      pow-suc 2 k,
      bit_or_low k a (b / 2) (omega (arith, pow-suc 2 k)),
    ))

-- `b & 0x7F`, `b & 0x80` and `0x80 | b`
pub bit_and_7f : (b : ℕ) → b < 256 → bit_and b 0x7f ≡ b % 128
unfolding agree_below
bit_and_7f = agree_below→eq _ _ 256 refl

pub bit_and_80 : (b : ℕ) → b < 256 → bit_and b 0x80 ≡ b / 128 * 128
unfolding agree_below
bit_and_80 = agree_below→eq _ _ 256 refl

pub bit_or_80 : (b : ℕ) → b < 128 → bit_or 0x80 b ≡ 128 + b
unfolding agree_below
bit_or_80 = agree_below→eq _ _ 128 refl

-- A property of every number below a bound, checked by evaluation.
unfoldable pub all_below : ℕ → (ℕ → Bool) → Bool
all_below zero p = true
all_below (suc n) p = p n && all_below n p

pub all_below→ : (n : ℕ) (p : ℕ → Bool) (x : ℕ) → all_below n p ≡ true → x < n → p x ≡ true
unfolding all_below
all_below→ zero p x h lt = absurd (omega arith)
all_below→ (suc n) p x h lt = ground (arith, all_below→ n p x)

-- The masks of UTF-8.
pub bit_and_c0 : (b : ℕ) → b < 256 → bit_and b 0xc0 ≡ b / 64 * 64
unfolding agree_below
bit_and_c0 = agree_below→eq _ _ 256 refl

pub bit_and_e0 : (b : ℕ) → b < 256 → bit_and b 0xe0 ≡ b / 32 * 32
unfolding agree_below
bit_and_e0 = agree_below→eq _ _ 256 refl

pub bit_and_f0 : (b : ℕ) → b < 256 → bit_and b 0xf0 ≡ b / 16 * 16
unfolding agree_below
bit_and_f0 = agree_below→eq _ _ 256 refl

pub bit_and_f8 : (b : ℕ) → b < 256 → bit_and b 0xf8 ≡ b / 8 * 8
unfolding agree_below
bit_and_f8 = agree_below→eq _ _ 256 refl

pub bit_and_3f : (b : ℕ) → b < 256 → bit_and b 0x3f ≡ b % 64
unfolding agree_below
bit_and_3f = agree_below→eq _ _ 256 refl

pub bit_and_0f : (b : ℕ) → b < 256 → bit_and b 0x0f ≡ b % 16
unfolding agree_below
bit_and_0f = agree_below→eq _ _ 256 refl

pub bit_and_07 : (b : ℕ) → b < 256 → bit_and b 0x07 ≡ b % 8
unfolding agree_below
bit_and_07 = agree_below→eq _ _ 256 refl

pub bit_and_ff : (b : ℕ) → b < 256 → bit_and b 0xff ≡ b
unfolding agree_below
bit_and_ff = agree_below→eq _ (λ b. b) 256 refl
