-- ===== src/Totp/Digits.antt =====
-- The base 32 decoder of components/totp/totp.c as arithmetic: one character more.
use bluepass.Common.{
  ℕ, zero, suc, ◌+◌, ◌-◌, ◌*◌, ◌/◌, ◌%◌, ◌^◌, ◌<◌, ◌≡◌, refl, ap, ◌∙◌, true, false, some, List, [],
  ◌∷◌, ◌++◌, leb, if◌then◌else◌, length, arith, bit_or, bit_or_shift,
}
use bluepass.Totp.{digit, classify, strchr, s_base32_alpha}

-- The number that digits denote, behind the number `acc`.
abbrev pub value_from : ℕ → ℕ → List ℕ → ℕ
value_from base acc [] = acc
value_from base acc (d ∷ ds) = value_from base (acc * base + d) ds

value_from-snoc :
    (base acc : ℕ) (ds : List ℕ) (d : ℕ)
    → value_from base acc (ds ++ (d ∷ [])) ≡ value_from base acc ds * base + d
value_from-snoc base acc [] d = refl
value_from-snoc base acc (e ∷ ds) d = value_from-snoc base (acc * base + e) ds d

strchr-bound : (xs : List ℕ) (c i : ℕ) → strchr xs c ≡ some i → i < length xs
unfolding strchr
strchr-bound [] c i h = ground arith
strchr-bound (x ∷ xs) c zero h = omega arith
strchr-bound (x ∷ xs) c (suc i) h = ground (arith, strchr-bound xs c i)

pub digit-bound : (p i : ℕ) → classify p ≡ digit i → i < 32
unfolding classify
digit-bound p i h = ground (arith, strchr-bound s_base32_alpha (if leb 97 p then p - 32 else p) i)

pushed : (val i : ℕ) → i < 32 → bit_or (val * 2 ^ 5 % 2 ^ 32) i ≡ val % 2 ^ 27 * 2 ^ 5 + i
pushed val i h =
    ap (λ a. bit_or a i) {x = val * 2 ^ 5 % 2 ^ 32} {y = val % 2 ^ 27 * 2 ^ 5} (omega arith)
    ∙ bit_or_shift 5 (val % 2 ^ 27) i h

-- One digit more, while no byte is complete.
shift :
    (bits : ℕ) (v b val i w : ℕ)
    → bits < 3
    → i < 32
    → w ≡ val % 2 ^ 27 * 2 ^ 5 + i
    → v ≡ b * 2 ^ bits + val % 2 ^ bits
    → v * 32 + i ≡ b * 2 ^ (bits + 5) + w % 2 ^ (bits + 5)
shift zero v b val i w lt li ew e = omega arith
shift (suc zero) v b val i w lt li ew e = omega arith
shift (suc (suc zero)) v b val i w lt li ew e = omega arith
shift (suc (suc (suc n))) v b val i w lt li ew e = omega arith

-- One digit more, which completes a byte; `bits` counts from 3.
emit :
    (bits : ℕ) (v b val i w : ℕ)
    → bits < 5
    → i < 32
    → w ≡ val % 2 ^ 27 * 2 ^ 5 + i
    → v ≡ b * 2 ^ (bits + 3) + val % 2 ^ (bits + 3)
    → v * 32 + i ≡ (b * 256 + w / 2 ^ bits % 256) * 2 ^ bits + w % 2 ^ bits
emit zero v b val i w lt li ew e = omega arith
emit (suc zero) v b val i w lt li ew e = omega arith
emit (suc (suc zero)) v b val i w lt li ew e = omega arith
emit (suc (suc (suc zero))) v b val i w lt li ew e = omega arith
emit (suc (suc (suc (suc zero)))) v b val i w lt li ew e = omega arith
emit (suc (suc (suc (suc (suc n))))) v b val i w lt li ew e = omega arith

-- The whole bytes of a number that has `bits` bits behind them.
pub whole : (bits v b val : ℕ) → bits < 8 → v ≡ b * 2 ^ bits + val % 2 ^ bits → b ≡ v / 2 ^ bits
whole zero v b val lt e = omega arith
whole (suc zero) v b val lt e = omega arith
whole (suc (suc zero)) v b val lt e = omega arith
whole (suc (suc (suc zero))) v b val lt e = omega arith
whole (suc (suc (suc (suc zero)))) v b val lt e = omega arith
whole (suc (suc (suc (suc (suc zero))))) v b val lt e = omega arith
whole (suc (suc (suc (suc (suc (suc zero)))))) v b val lt e = omega arith
whole (suc (suc (suc (suc (suc (suc (suc zero))))))) v b val lt e = omega arith
whole (suc (suc (suc (suc (suc (suc (suc (suc n)))))))) v b val lt e = omega arith

-- What the decoder has behind the digits of `v`: the bytes `out`, and `bits` bits in `val`.
pub record IsHeld (bits val v : ℕ) (out : List ℕ) : Type 0 where
  pub few : bits < 8
  pub split : v ≡ value_from 256 0 out * 2 ^ bits + val % 2 ^ bits

pub shift-IsHeld :
    (bits val v i : ℕ) (out : List ℕ)
    → leb 8 (bits + 5) ≡ false
    → i < 32
    → IsHeld bits val v out
    → IsHeld (bits + 5) (bit_or (val * 2 ^ 5 % 2 ^ 32) i) (v * 32 + i) out
shift-IsHeld bits val v i out short li h = record {
  few = ground arith;
  split = shift bits v _ val i _ (ground arith) li (pushed val i li) h.split;
}

pub emit-IsHeld :
    (bits val v i : ℕ) (out : List ℕ)
    → leb 8 (bits + 5) ≡ true
    → i < 32
    → IsHeld bits val v out
    → let w = bit_or (val * 2 ^ 5 % 2 ^ 32) i in
      IsHeld (bits + 5 - 8) w (v * 32 + i) (out ++ (w / 2 ^ (bits + 5 - 8) % 256 ∷ []))
emit-IsHeld bits val v i out long li h = record {
  few = omega (arith, h.few);
  split =
      rw (value_from-snoc 256 0 out (bit_or (val * 2 ^ 5 % 2 ^ 32) i / 2 ^ (bits + 5 - 8) % 256)) (
        emit (bits + 5 - 8) v (value_from 256 0 out) val i _ (omega (arith, h.few)) li
          (pushed val i li) (rw (back) h.split));
}
  where
    back : bits + 5 - 8 + 3 ≡ bits
    back = ground arith
